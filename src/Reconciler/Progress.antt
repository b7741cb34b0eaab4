-- ===== src/Reconciler/Progress.antt =====
-- How a pass of image/agent/internal/reconciler/reconciler.go reaches a connection.
pub mod Settling
use expressvpn_container.Base.{
  ℕ, zero, suc, ◌<◌, String, Bool, true, false, not, ◌&&◌, ◌||◌, Option, none, some, List, ◌≡◌,
  refl, sym, ap, ◌∙◌, subst, str_eq, eq_iff, arith, if_both, if_either, replicate,
}
use expressvpn_container.State
use expressvpn_container.Reconciler.Reverts.{Settled, reconcile_rests}
use expressvpn_container.Config
use expressvpn_container.Config.{Config, uplink_eq, uplink_eq_iff, expressvpn_eq}
use expressvpn_container.State.{
  is_unknown, TriState, is_connected, wants_connected, State, Connection, conn, want_connected,
  is_disconnected, is_reconnecting, is_error,
}
use expressvpn_container.Xvpn.Errors.{Err}
use expressvpn_container.Reconciler.World.{
  Reconciler, is_none, update, ◌>>=◌, Call, World, Drivers, stop, next, Pass, world,
}
use expressvpn_container.Reconciler.Connecting.{
  mark_connecting, needs_connect, want_connection, attempt, set_protocol, spec_of, must_wait,
  settle_udp, after_connected, finish_connect, max_reconnect_failures,
}
use expressvpn_container.Reconciler.Pass.{
  run, by_desired, reconcile, connection_layer, publish_uplink, start_uplink, finish_uplink,
  uplink_layer, finish_settings, settings_layer, show_applying, applied_is, settings_are,
  finish_killswitch, killswitch_layer,
}

-- Drivers that succeed, and that leave to the loop what is wanted and, but for the connection
-- itself, how the connection stands.
pub record Willing (d : Drivers) : Type 0 where
  pub killswitch_ok :
      (cs : List Call) (u : Config.Uplink) (s : State) → (d.killswitch cs u s).0 ≡ none
  pub killswitch_quiet :
      (cs : List Call) (u : Config.Uplink) (s : State)
      → (conn (d.killswitch cs u s).1 ≡ conn s) × ((d.killswitch cs u s).1.desired ≡ s.desired)
  pub uplink_ok : (cs : List Call) (u : Config.Uplink) (s : State) → (d.uplink cs u s).1 ≡ none
  pub uplink_quiet :
      (cs : List Call) (u : Config.Uplink) (s : State)
      → (conn (d.uplink cs u s).2 ≡ conn s) × ((d.uplink cs u s).2.desired ≡ s.desired)
  pub udp_quiet : (cs : List Call) (s : State) → (d.udp cs s).1.desired ≡ s.desired
  pub settings_ok :
      (cs : List Call) (e : Config.ExpressVpn) (s : State) → (d.settings cs e s).0 ≡ none
  pub settings_quiet :
      (cs : List Call) (e : Config.ExpressVpn) (s : State)
      → (conn (d.settings cs e s).1 ≡ conn s) × ((d.settings cs e s).1.desired ≡ s.desired)
  pub connection_ok : (cs : List Call) (l p : String) (s : State) → (d.connection cs l p s).0 ≡ none
  pub connection_quiet :
      (cs : List Call) (l p : String) (s : State) → (d.connection cs l p s).1.desired ≡ s.desired

-- No connection stands and none is under way.
abbrev pub is_lost : Connection → Bool
is_lost k = is_disconnected k || is_reconnecting k || is_error k

-- A connection is wanted and lost, and the next attempt may be made.
pub record Ready (d : Drivers) (w : World) : Type 0 where
  pub wanted : w.st.desired ≡ want_connected
  pub lost : is_lost (conn w.st) ≡ true
  pub few : w.r.connect_failures < max_reconnect_failures
  pub due : (cs : List Call) → w.r.next_retry_at < d.now cs

-- A pass goes on, to a state of which `P` holds.
abbrev Goes : (World → Type 0) → Pass → Type 0
Goes P (next w) = P w
Goes P (stop w) = ⊥

then_Goes :
    (P Q : World → Type 0) (p : Pass) (f : World → Pass)
    → Goes P p
    → ((w : World) → P w → Goes Q (f w))
    → Goes Q (p >>= f)
then_Goes P Q (next w) f v k = k w v
then_Goes P Q (stop w) f v k = absurd v

Goes-world : (P : World → Type 0) (p : Pass) → Goes P p → P (world p)
Goes-world P (next w) v = v
Goes-world P (stop w) v = absurd v

expressvpn_eq_self : (e : Config.ExpressVpn) → expressvpn_eq e e ≡ true
unfolding expressvpn_eq
expressvpn_eq_self e = ground (arith, eq_iff e.location e.location, eq_iff e.protocol e.protocol)

module _ (d : Drivers) (willing : Willing d) (c : Config) where
  -- Only the loop's record of what is applied has changed.
  still_Ready :
      (w w' : World)
      → is_lost (conn w'.st) ≡ true
      → w'.st.desired ≡ w.st.desired
      → w'.r.connect_failures ≡ w.r.connect_failures
      → w'.r.next_retry_at ≡ w.r.next_retry_at
      → Ready d w
      → Ready d w'
  still_Ready w w' k e f n v = record {
    wanted = e ∙ v.wanted;
    lost = k;
    few = omega (arith, v.few);
    due = λ cs. omega (arith, v.due cs);
  }

  -- What stands after each layer.
  record Guard (w : World) : Type 0 where
    ready : Ready d w
    blocked : w.r.applied_ks ≡ some c.uplink

  record Routed (w : World) : Type 0 where
    guard : Guard w
    routed : w.r.applied_uplink ≡ some c.uplink

  record Set (w : World) : Type 0 where
    routes : Routed w
    set : settings_are w.r.applied_evpn c.expressvpn ≡ true

  applied_is-eq :
      (o : Option Config.Uplink) (u : Config.Uplink) → applied_is o u ≡ true → o ≡ some u
  applied_is-eq none u e = cc e
  applied_is-eq (some a) u e = let same : a ≡ u = (uplink_eq_iff a u).0 e in cc same

  finish_killswitch-Guard :
      (e : Option Err) (w : World) → e ≡ none → Ready d w → Goes Guard (finish_killswitch d c e w)
  unfolding finish_killswitch
  finish_killswitch-Guard (some x) w h v = cc h
  finish_killswitch-Guard none w h v = record {
    ready = still_Ready w _ v.lost refl refl refl v;
    blocked = refl;
  }

  killswitch_layer-Guard : (w : World) → Ready d w → Goes Guard (killswitch_layer d c w)
  unfolding killswitch_layer
  killswitch_layer-Guard w v =
      let (k, s) = willing.killswitch_quiet w.calls c.uplink w.st in
      if_either (Goes Guard) (applied_is w.r.applied_ks c.uplink)
        (λ e. record { ready = v; blocked = applied_is-eq w.r.applied_ks c.uplink e })
        (λ _.
          finish_killswitch-Guard _ _ (willing.killswitch_ok w.calls c.uplink w.st)
            (still_Ready w _ (ap is_lost k ∙ v.lost) s refl refl v))

  show_applying-lost :
      (s : State) → is_lost (conn s) ≡ true → is_lost (conn (show_applying c s)) ≡ true
  unfolding show_applying
  show_applying-lost s v =
      if_both (λ (x : State). is_lost (conn x) ≡ true)
        (wants_connected s.desired && is_connected (conn s)) refl v

  show_applying-desired : (s : State) → (show_applying c s).desired ≡ s.desired
  unfolding show_applying
  show_applying-desired s =
      if_both (λ (x : State). x.desired ≡ s.desired)
        (wants_connected s.desired && is_connected (conn s)) refl refl

  start_uplink-Guard :
      (desired : State.Desired) (w : World) → Guard w → Guard (start_uplink c desired w)
  unfolding start_uplink
  start_uplink-Guard desired w v =
      let shown =
        still_Ready w (update (show_applying c) w) (show_applying-lost w.st v.ready.lost)
          (show_applying-desired w.st) refl refl v.ready in
      if_both Guard (wants_connected desired && not (is_none w.r.applied_uplink))
        (record {
          ready = still_Ready (update (show_applying c) w) _ shown.lost refl refl refl shown;
          blocked = v.blocked;
        })
        (record { ready = shown; blocked = v.blocked })

  finish_uplink-Routed :
      (us : State.Uplink) (e : Option Err) (w : World)
      → e ≡ none
      → Guard w
      → Goes Routed (finish_uplink d c us e w)
  unfolding finish_uplink publish_uplink
  finish_uplink-Routed us (some x) w h v = cc h
  finish_uplink-Routed us none w h v = record {
    guard = record {
      ready = still_Ready w _ v.ready.lost refl refl refl v.ready;
      blocked = v.blocked;
    };
    routed = refl;
  }

  uplink_layer-Routed :
      (desired : State.Desired) (w : World) → Guard w → Goes Routed (uplink_layer d c desired w)
  unfolding uplink_layer
  uplink_layer-Routed desired w v =
      let w1 = start_uplink c desired w in
      let v1 = start_uplink-Guard desired w v in
      let (k, s) = willing.uplink_quiet w1.calls c.uplink w1.st in
      if_either (Goes Routed) (applied_is w.r.applied_uplink c.uplink)
        (λ e. record { guard = v; routed = applied_is-eq w.r.applied_uplink c.uplink e })
        (λ _. finish_uplink-Routed _ _ _ (willing.uplink_ok w1.calls c.uplink w1.st) (record {
          ready = still_Ready w1 _ (ap is_lost k ∙ v1.ready.lost) s refl refl v1.ready;
          blocked = v1.blocked;
        }))

  finish_settings-Set :
      (e : Option Err) (w : World) → e ≡ none → Routed w → Set (finish_settings d c e w)
  unfolding finish_settings
  finish_settings-Set (some x) w h v = cc h
  finish_settings-Set none w h v = record {
    routes = record {
      guard = record {
        ready = still_Ready w _ v.guard.ready.lost refl refl refl v.guard.ready;
        blocked = v.guard.blocked;
      };
      routed = v.routed;
    };
    set = expressvpn_eq_self c.expressvpn;
  }

  settings_layer-Set : (w : World) → Routed w → Set (settings_layer d c w)
  unfolding settings_layer
  settings_layer-Set w v =
      let (k, s) = willing.settings_quiet w.calls c.expressvpn w.st in
      if_either Set (settings_are w.r.applied_evpn c.expressvpn)
        (λ e. record { routes = v; set = e })
        (λ _. finish_settings-Set _ _ (willing.settings_ok w.calls c.expressvpn w.st) (record {
          guard = record {
            ready = still_Ready w _ (ap is_lost k ∙ v.guard.ready.lost) s refl refl v.guard.ready;
            blocked = v.guard.blocked;
          };
          routed = v.routed;
        }))
