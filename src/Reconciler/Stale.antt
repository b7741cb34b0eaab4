-- ===== src/Reconciler/Stale.antt =====
-- What the passes of image/agent/internal/reconciler/reconciler.go make of an uplink that was applied
-- before another one failed.
use expressvpn_container.Base.{
  ℕ, zero, suc, Bool, false, not, Option, none, some, List, [], ◌∷◌, ◌≡◌, refl, sym, ap, ◌∙◌, subst,
  arith, if_both, replicate,
}
use expressvpn_container.Config
use expressvpn_container.Config.{Config, uplink_eq}
use expressvpn_container.State
use expressvpn_container.State.{
  State, TriState, Desired, want_connected, want_disconnected, conn, is_unknown, is_connected,
  is_connecting, is_reconnecting, wants_connected,
}
use expressvpn_container.Xvpn.Errors.{Err}
use expressvpn_container.Reconciler.World.{
  Call, apply_uplink, World, Drivers, called, update, is_none, fail, Pass, stop, next, ◌>>=◌, world,
  ConnSpec,
}
use expressvpn_container.Reconciler.Connecting.{
  want_connection, want_disconnection, attempt, settle_udp, finish_connect, finish_disconnect,
  on_connect_failure, count_failure, mark_connecting, must_wait, needs_connect, spec_of,
}
use expressvpn_container.Reconciler.Pass.{
  start_uplink, finish_uplink, uplink_layer, finish_killswitch, killswitch_layer, finish_settings,
  settings_layer, connection_layer, by_desired, reconcile, run, applied_is, settings_are,
}
use expressvpn_container.Reconciler.Reverts.{applied_is_other, uplink_layer_same}

-- The uplinks that the driver was asked to apply, with its success (newest first).
abbrev pub uplink_calls : List Call → List (Config.Uplink × Bool)
uplink_calls [] = []
uplink_calls (apply_uplink u ok ∷ cs) = (u, ok) ∷ uplink_calls cs
uplink_calls (_ ∷ cs) = uplink_calls cs

-- The uplink's driver was not called, and the loop's record of the applied uplink is the same.
pub record Untouched (w w' : World) : Type 0 where
  pub applied : w'.r.applied_uplink ≡ w.r.applied_uplink
  pub calls : uplink_calls w'.calls ≡ uplink_calls w.calls

Untouched-trans : {a b c : World} → Untouched a b → Untouched b c → Untouched a c
Untouched-trans x y = record { applied = y.applied ∙ x.applied; calls = y.calls ∙ x.calls }

same : (w : World) → Untouched w w
same w = record { applied = refl; calls = refl }

module _ (d : Drivers) where
  finish_killswitch-Untouched :
      (c : Config) (e : Option Err) (w : World) → Untouched w (world (finish_killswitch d c e w))
  unfolding finish_killswitch fail
  finish_killswitch-Untouched c none w = record { applied = refl; calls = refl }
  finish_killswitch-Untouched c (some e) w = record { applied = refl; calls = refl }

  killswitch_layer-Untouched :
      (c : Config) (w : World) → Untouched w (world (killswitch_layer d c w))
  unfolding killswitch_layer
  killswitch_layer-Untouched c w =
      if_both (λ (p : Pass). Untouched w (world p)) (applied_is w.r.applied_ks c.uplink) (same w)
        (Untouched-trans (record { applied = refl; calls = refl })
          (finish_killswitch-Untouched c _ _))

  finish_settings-Untouched :
      (c : Config) (e : Option Err) (w : World) → Untouched w (finish_settings d c e w)
  unfolding finish_settings fail
  finish_settings-Untouched c none w = record { applied = refl; calls = refl }
  finish_settings-Untouched c (some e) w = record { applied = refl; calls = refl }

  settings_layer-Untouched : (c : Config) (w : World) → Untouched w (settings_layer d c w)
  unfolding settings_layer
  settings_layer-Untouched c w =
      if_both (Untouched w) (settings_are w.r.applied_evpn c.expressvpn) (same w) (
        Untouched-trans (record { applied = refl; calls = refl }) (finish_settings-Untouched c _ _))

  settle_udp-Untouched : (c : Config) (w : World) → Untouched w (settle_udp d c w).1
  unfolding settle_udp
  settle_udp-Untouched c w = record { applied = ground arith; calls = ground arith }

  finish_connect-Untouched :
      (want : ConnSpec) (e : Option Err) (w : World) → Untouched w (finish_connect d want e w)
  unfolding finish_connect on_connect_failure count_failure fail
  finish_connect-Untouched want none w = record { applied = refl; calls = refl }
  finish_connect-Untouched want (some e) w = record { applied = ground arith; calls = ground arith }

  attempt-Untouched : (c : Config) (w : World) → Untouched w (attempt d c w)
  unfolding attempt
  attempt-Untouched c w =
      let settled = settle_udp-Untouched c (update mark_connecting w) in
      Untouched-trans (record { applied = settled.applied; calls = settled.calls })
        (finish_connect-Untouched (spec_of c) _ _)

  want_connection-Untouched : (c : Config) (w : World) → Untouched w (want_connection d c w)
  unfolding want_connection
  want_connection-Untouched c w =
      let taken : World = record w { r = record w.r { force_reason = "" } } in
      let kept : Untouched w taken = record { applied = refl; calls = refl } in
      if_both (Untouched w) (not (needs_connect w.r (conn w.st) (spec_of c))) kept (
        if_both (Untouched w) (must_wait d w) kept
          (Untouched-trans kept (attempt-Untouched c taken)))

  want_disconnection-Untouched : (w : World) → Untouched w (want_disconnection d w)
  unfolding want_disconnection finish_disconnect fail
  want_disconnection-Untouched w = record { applied = ground arith; calls = ground arith }

  by_desired-Untouched :
      (c : Config) (desired : Desired) (w : World) → Untouched w (by_desired d c desired w)
  unfolding by_desired
  by_desired-Untouched c want_connected w = want_connection-Untouched c w
  by_desired-Untouched c want_disconnected w = want_disconnection-Untouched w

  -- The layers after the uplink's, where this one has nothing to do.
  after_killswitch-Untouched :
      (c : Config) (desired : Desired) (w : World) (p : Pass)
      → w.r.applied_uplink ≡ some c.uplink
      → Untouched w (world p)
      → Untouched w (
          world (
            p >>= λ w1. uplink_layer d c desired w1 >>= λ w2.
            next (connection_layer d c (settings_layer d c w2))))
  unfolding connection_layer
  after_killswitch-Untouched c desired w (stop w1) h v = v
  after_killswitch-Untouched c desired w (next w1) h v =
      rw (uplink_layer_same d c desired w1 (v.applied ∙ h)) (
        Untouched-trans v
          (Untouched-trans (settings_layer-Untouched c w1) (by_desired-Untouched c _ _)))

  reconcile-Untouched :
      (c : Config) (w : World) → w.r.applied_uplink ≡ some c.uplink → Untouched w (reconcile d c w)
  unfolding reconcile
  reconcile-Untouched c w h =
      after_killswitch-Untouched c w.st.desired w (killswitch_layer d c w) h
        (killswitch_layer-Untouched c w)

  run-Untouched :
      (n : ℕ) (c : Config) (w : World)
      → w.r.applied_uplink ≡ some c.uplink
      → Untouched w (run d (replicate n c) w)
  unfolding run
  run-Untouched zero c w h = same w
  run-Untouched (suc n) c w h =
      let first = reconcile-Untouched c w h in
      Untouched-trans first (run-Untouched n c (reconcile d c w) (first.applied ∙ h))

  -- What the uplink's driver answers in a pass whose kill switch left `w`.
  abbrev pub uplink_answer : Config → Desired → World → State.Uplink × Option Err × State
  uplink_answer c desired w = let w1 = start_uplink c desired w in d.uplink w1.calls c.uplink w1.st

  start_uplink-Untouched :
      (c : Config) (desired : Desired) (w : World) → Untouched w (start_uplink c desired w)
  unfolding start_uplink
  start_uplink-Untouched c desired w = record { applied = ground arith; calls = ground arith }

  -- What a pass leaves whose uplink fails.
  record Broken (c : Config) (us : State.Uplink) (w w' : World) : Type 0 where
    shown : w'.st.uplink ≡ us
    applied : w'.r.applied_uplink ≡ w.r.applied_uplink
    calls : uplink_calls w'.calls ≡ (c.uplink, false) ∷ uplink_calls w.calls

  finish_uplink-Broken :
      (c : Config) (us : State.Uplink) (o : Option Err) (e : Err) (s : State) (w : World)
      → o ≡ some e
      → (w' : World) × (finish_uplink d c us o (called (apply_uplink c.uplink (is_none o)) s w)
          ≡ stop w')
        × Broken c us w w'
  unfolding finish_uplink fail
  finish_uplink-Broken c us none e s w h = cc h
  finish_uplink-Broken c us (some x) e s w h =
      (_, refl, record { shown = refl; applied = refl; calls = refl })

  uplink_layer-Broken :
      (c : Config) (desired : Desired) (w : World) (e : Err)
      → applied_is w.r.applied_uplink c.uplink ≡ false
      → (uplink_answer c desired w).1 ≡ some e
      → (w' : World) × (uplink_layer d c desired w ≡ stop w')
        × Broken c (uplink_answer c desired w).0 w w'
  unfolding uplink_layer
  uplink_layer-Broken c desired w e other bad =
      let (w', stopped, broken) =
        finish_uplink-Broken c (uplink_answer c desired w).0 _ e (uplink_answer c desired w).2
          (start_uplink c desired w) bad in
      let begun = start_uplink-Untouched c desired w in
      (
        w',
        rw other stopped,
        record {
          shown = broken.shown;
          applied = broken.applied ∙ begun.applied;
          calls = broken.calls ∙ ap (◌∷◌ (c.uplink, false)) begun.calls;
        },
      )

  reconcile-Broken :
      (c : Config) (w w1 : World) (e : Err)
      → killswitch_layer d c w ≡ next w1
      → applied_is w.r.applied_uplink c.uplink ≡ false
      → (uplink_answer c w.st.desired w1).1 ≡ some e
      → Broken c (uplink_answer c w.st.desired w1).0 w (reconcile d c w)
  unfolding reconcile
  reconcile-Broken c w w1 e guarded other bad =
      let kept : Untouched w w1 =
        subst (λ (p : Pass). Untouched w (world p)) guarded (killswitch_layer-Untouched c w) in
      let (w', stopped, broken) =
        uplink_layer-Broken c w.st.desired w1 e
          (subst (λ o. applied_is o c.uplink ≡ false) (sym kept.applied) other) bad in
      rw guarded (
        rw stopped (record {
          shown = broken.shown;
          applied = broken.applied ∙ kept.applied;
          calls = broken.calls ∙ ap (◌∷◌ (c.uplink, false)) kept.calls;
        }))

  -- The uplink of `c'` was applied, and in a pass with a configuration of another uplink, in which
  -- the kill switch lets the uplink's layer run, the driver fails to apply that one; it may have
  -- taken the old one down. Then the pass ends with the uplink's state in the snapshot as the driver
  -- gave it, and any number of later passes with `c'` never call the uplink's driver, whatever all
  -- the drivers answer in them.
  pub uplink_revert_skipped :
      (c c' : Config) (w w1 : World) (e : Err) (n : ℕ)
      → w.r.applied_uplink ≡ some c'.uplink
      → uplink_eq c'.uplink c.uplink ≡ false
      → killswitch_layer d c w ≡ next w1
      → (uplink_answer c w.st.desired w1).1 ≡ some e
      → ((reconcile d c w).st.uplink ≡ (uplink_answer c w.st.desired w1).0)
        × (uplink_calls (reconcile d c w).calls ≡ (c.uplink, false) ∷ uplink_calls w.calls)
        × (uplink_calls (run d (replicate n c') (reconcile d c w)).calls
            ≡ uplink_calls (reconcile d c w).calls)
  uplink_revert_skipped c c' w w1 e n h ne guarded bad =
      let broken = reconcile-Broken c w w1 e guarded (applied_is_other _ _ _ h ne) bad in
      (
        broken.shown,
        broken.calls,
        (run-Untouched n c' (reconcile d c w) (broken.applied ∙ h)).calls,
      )
