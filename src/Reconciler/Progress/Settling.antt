-- ===== src/Reconciler/Progress/Settling.antt =====
-- How a pass of image/agent/internal/reconciler/reconciler.go with the first three layers settled
-- makes the connection, and how the passes after it rest.
use expressvpn_container.Base.{
  ℕ, zero, suc, String, List, [], ◌∷◌, true, false, ◌&&◌, Option, none, some, ◌≡◌, refl, sym, ap,
  ◌∙◌, subst, str_eq, arith, if_both, replicate,
}
use expressvpn_container.Reconciler.Reverts.{Settled, reconcile_rests}
use expressvpn_container.Config.{Config}
use expressvpn_container.State.{is_unknown, TriState, State, conn, want_connected}
use expressvpn_container.Xvpn.Errors.{Err}
use expressvpn_container.Reconciler.World.{
  Reconciler, update, World, Drivers, Call, connect, disconnect,
}
use expressvpn_container.Reconciler.Retry.{protocol_for}
use expressvpn_container.Reconciler.Connecting.{
  mark_connecting, needs_connect, want_connection, attempt, set_protocol, spec_of, must_wait,
  settle_udp, after_connected, finish_connect,
}
use expressvpn_container.Reconciler.Pass.{
  run, by_desired, reconcile, connection_layer, uplink_layer, settings_layer, settings_are,
  killswitch_layer,
}
use expressvpn_container.Reconciler.Progress.{
  Willing, Ready, is_lost, Guard, Routed, Set, then_Goes, Goes-world, killswitch_layer-Guard,
  uplink_layer-Routed, settings_layer-Set,
}

-- The location and the protocol of the last `Connect`, unless the driver was told to disconnect
-- after it.
abbrev pub last_link : List Call → Option (String × String)
last_link [] = none
last_link (connect l p ∷ cs) = some (l, p)
last_link (disconnect ∷ cs) = none
last_link (_ ∷ cs) = last_link cs

-- All is applied, and the connection that stands is one that the driver was asked for with the
-- location of the configuration and with a protocol chosen for it by what is known about UDP.
pub record Standing (c : Config) (w : World) : Type 0 where
  pub settled : Settled c w
  pub udp : TriState
  pub link : last_link w.calls ≡ some (c.expressvpn.location, protocol_for c udp)

module _ (d : Drivers) (willing : Willing d) (c : Config) where
  -- An attempt with willing drivers.
  finish_connect-Settled :
      (e : Option Err) (w : World)
      → e ≡ none
      → w.r.applied_ks ≡ some c.uplink
      → w.r.applied_uplink ≡ some c.uplink
      → settings_are w.r.applied_evpn c.expressvpn ≡ true
      → w.st.desired ≡ want_connected
      → w.r.force_reason ≡ ""
      → Settled c (finish_connect d (spec_of c) e w)
  unfolding finish_connect after_connected
  finish_connect-Settled (some x) w h k u s v f = cc h
  finish_connect-Settled none w h k u s v f = record {
    killswitch = k;
    uplink = u;
    settings = s;
    connection = refl;
    desired = v;
    spec = refl;
    unforced = f;
  }

  finish_connect-link :
      (e : Option Err) (l p : String) (w : World)
      → e ≡ none
      → last_link w.calls ≡ some (l, p)
      → last_link (finish_connect d (spec_of c) e w).calls ≡ some (l, p)
  unfolding finish_connect
  finish_connect-link (some x) l p w h k = cc h
  finish_connect-link none l p w h k = k

  mark_connecting-desired : (s : State) → (mark_connecting s).desired ≡ s.desired
  unfolding mark_connecting
  mark_connecting-desired s = ground arith

  set_protocol-desired :
      (requested : String) (chosen : String × String) (s : State)
      → (set_protocol requested chosen s).desired ≡ s.desired
  unfolding set_protocol
  set_protocol-desired requested (effective, reason) s = refl

  settle_udp-desired : (w : World) → (settle_udp d c w).1.st.desired ≡ w.st.desired
  unfolding settle_udp
  settle_udp-desired w =
      let quiet = willing.udp_quiet w.calls w.st in
      let v = (d.udp w.calls w.st).0 in
      let P : TriState × World → Type 0 = λ x. x.1.st.desired ≡ w.st.desired in
      if_both P
        (str_eq c.uplink.mode "socks5"
          && str_eq c.uplink.socks5.udp "auto"
          && is_unknown w.st.uplink.udp_supported)
        (if_both P (is_unknown v) quiet quiet) refl

  settle_udp-r : (w : World) → (settle_udp d c w).1.r ≡ w.r
  unfolding settle_udp
  settle_udp-r w =
      let v = (d.udp w.calls w.st).0 in
      let P : TriState × World → Type 0 = λ x. x.1.r ≡ w.r in
      if_both P
        (str_eq c.uplink.mode "socks5"
          && str_eq c.uplink.socks5.udp "auto"
          && is_unknown w.st.uplink.udp_supported)
        (if_both P (is_unknown v) refl refl) refl

  attempt-Settled :
      (w : World) → Set d willing c w → w.r.force_reason ≡ "" → Settled c (attempt d c w)
  unfolding attempt
  attempt-Settled w v f =
      let w0 = update mark_connecting w in
      let same = settle_udp-r w0 in
      let fields : (Q : Reconciler → Type 0) → Q w.r → Q (settle_udp d c w0).1.r =
        λ Q q. subst Q (sym same) q in
      finish_connect-Settled _ _ (willing.connection_ok _ _ _ _)
        (fields (λ r. r.applied_ks ≡ some c.uplink) v.routes.guard.blocked)
        (fields (λ r. r.applied_uplink ≡ some c.uplink) v.routes.routed)
        (fields (λ r. settings_are r.applied_evpn c.expressvpn ≡ true) v.set)
        (willing.connection_quiet _ _ _ _
          ∙ (set_protocol-desired _ _ _
              ∙ (settle_udp-desired w0
                  ∙ (mark_connecting-desired w.st ∙ v.routes.guard.ready.wanted))))
        (fields (λ r. r.force_reason ≡ "") f)

  attempt-Standing :
      (w : World) → Set d willing c w → w.r.force_reason ≡ "" → Standing c (attempt d c w)
  unfolding attempt spec_of
  attempt-Standing w v f = record {
    settled = attempt-Settled w v f;
    udp = (settle_udp d c (update mark_connecting w)).0;
    link = finish_connect-link _ _ _ _ (willing.connection_ok _ _ _ _) refl;
  }

  needs_connect_lost :
      (w : World) → is_lost (conn w.st) ≡ true → needs_connect w.r (conn w.st) (spec_of c) ≡ true
  unfolding needs_connect
  needs_connect_lost w v = ground arith

  must_wait_due : (w : World) → Ready d w → must_wait d w ≡ false
  unfolding must_wait
  must_wait_due w v = let t = v.due w.calls in ground (arith, v.few)

  want_connection-Standing : (w : World) → Set d willing c w → Standing c (want_connection d c w)
  unfolding want_connection
  want_connection-Standing w v =
      let taken : World = record w { r = record w.r { force_reason = "" } } in
      let r = v.routes.guard.ready in
      rw (needs_connect_lost w r.lost) (
        rw (must_wait_due w r) (
          attempt-Standing taken
            (record {
              routes = record {
                guard = record {
                  ready = record { wanted = r.wanted; lost = r.lost; few = r.few; due = r.due };
                  blocked = v.routes.guard.blocked;
                };
                routed = v.routes.routed;
              };
              set = v.set;
            })
            refl))

  connection_layer-Standing : (w : World) → Set d willing c w → Standing c (connection_layer d c w)
  unfolding connection_layer by_desired
  connection_layer-Standing w v =
      subst (λ k. Standing c (by_desired d c k w)) (sym v.routes.guard.ready.wanted)
        (want_connection-Standing w v)

  reconcile-Standing : (w : World) → Ready d w → Standing c (reconcile d c w)
  unfolding reconcile
  reconcile-Standing w v = Goes-world (Standing c) _ (
      then_Goes (Guard d willing c) (Standing c) (killswitch_layer d c w) _
        (killswitch_layer-Guard d willing c w v)
        λ w1 v1.
          then_Goes (Routed d willing c) (Standing c) (uplink_layer d c w.st.desired w1) _
            (uplink_layer-Routed d willing c w.st.desired w1 v1)
            λ w2 v2.
              connection_layer-Standing (settings_layer d c w2)
                (settings_layer-Set d willing c w2 v2))

  run_rests : (n : ℕ) (w : World) → Settled c w → run d (replicate n c) w ≡ w
  unfolding run
  run_rests zero w v = refl
  run_rests (suc n) w v = ap (run d (replicate n c)) (reconcile_rests d c w v) ∙ run_rests n w v

  -- With drivers that succeed, passes with one configuration bring a connection that is wanted and
  -- lost to rest: after the first, and so after any number from one on, the kill switch, the uplink
  -- and the settings of the configuration are applied, the snapshot shows a connection, and the last
  -- thing asked of the driver about it was to connect to the configured location by a protocol
  -- that is the choice for the configuration under some knowledge about UDP. Fewer than ten attempts
  -- have failed before, and the time of the next one is over.
  pub run-Settled : (n : ℕ) (w : World) → Ready d w → Standing c (run d (replicate (suc n) c) w)
  unfolding run
  run-Settled n w v =
      let rest = reconcile-Standing w v in
      subst (Standing c) (sym (run_rests n (reconcile d c w) rest.settled)) rest
