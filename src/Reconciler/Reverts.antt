-- ===== src/Reconciler/Reverts.antt =====
-- Passes that find nothing to do: the resting loop, and configurations that return to what was
-- applied before a failure (image/agent/internal/reconciler/reconciler.go).
use expressvpn_container.Xvpn.Errors.{Err}
use expressvpn_container.Base.{
  sym, subst, true, false, Option, none, some, ◌≡◌, refl, arith, eq_iff,
}
use expressvpn_container.Config
use expressvpn_container.Config.{uplink_eq, Config, uplink_eq_iff, expressvpn_eq}
use expressvpn_container.State
use expressvpn_container.State.{set_active, State, conn, connected, want_connected}
use expressvpn_container.Reconciler.World.{
  called, update, fail, World, Drivers, apply_killswitch, stop, next,
}
use expressvpn_container.Reconciler.Connecting.{needs_connect, spec_of, want_connection}
use expressvpn_container.Reconciler.Pass.{
  finish_killswitch, reconcile, killswitch_layer, uplink_layer, settings_layer, connection_layer,
  by_desired, settings_are, applied_is,
}

-- All that the configuration asks for is applied, and the connection stands.
pub record Settled (c : Config) (w : World) : Type 0 where
  pub killswitch : w.r.applied_ks ≡ some c.uplink
  pub uplink : w.r.applied_uplink ≡ some c.uplink
  pub settings : settings_are w.r.applied_evpn c.expressvpn ≡ true
  pub connection : conn w.st ≡ connected
  pub desired : w.st.desired ≡ want_connected
  pub spec : w.r.applied_conn ≡ some (spec_of c)
  pub unforced : w.r.force_reason ≡ ""

pub applied_is_self :
    (a : Option Config.Uplink) (u : Config.Uplink) → a ≡ some u → applied_is a u ≡ true
applied_is_self none u h = cc
applied_is_self (some a) u h = (uplink_eq_iff a u).1 (ground arith)

pub applied_is_other :
    (a : Option Config.Uplink) (u v : Config.Uplink)
    → a ≡ some u
    → uplink_eq u v ≡ false
    → applied_is a v ≡ false
applied_is_other none u v h ne = cc
applied_is_other (some a) u v h ne = subst (λ b. applied_is b v ≡ false) (sym h) ne

module _ (d : Drivers) where
  killswitch_layer_same :
      (c : Config) (w : World) → w.r.applied_ks ≡ some c.uplink → killswitch_layer d c w ≡ next w
  unfolding killswitch_layer
  killswitch_layer_same c w h = rw (applied_is_self _ _ h)

  pub uplink_layer_same :
      (c : Config) (desired : State.Desired) (w : World)
      → w.r.applied_uplink ≡ some c.uplink
      → uplink_layer d c desired w ≡ next w
  unfolding uplink_layer
  uplink_layer_same c desired w h = rw (applied_is_self _ _ h)

  want_connection_rests : (c : Config) (w : World) → Settled c w → want_connection d c w ≡ w
  unfolding want_connection needs_connect
  want_connection_rests c w v = ground (
    arith,
    eq_iff w.r.force_reason "",
    eq_iff (spec_of c).location (spec_of c).location,
    eq_iff (spec_of c).protocol (spec_of c).protocol,
  )

  connection_layer_rests : (c : Config) (w : World) → Settled c w → connection_layer d c w ≡ w
  unfolding connection_layer by_desired
  connection_layer_rests c w v = ground (arith, want_connection_rests c w v)

  settings_layer_same :
      (c : Config) (w : World)
      → settings_are w.r.applied_evpn c.expressvpn ≡ true
      → settings_layer d c w ≡ w
  unfolding settings_layer
  settings_layer_same c w h = rw h

  -- A pass over a settled state changes nothing and calls no driver.
  pub reconcile_rests : (c : Config) (w : World) → Settled c w → reconcile d c w ≡ w
  unfolding reconcile
  reconcile_rests c w v = rw (killswitch_layer_same c w v.killswitch) (
      rw (uplink_layer_same c w.st.desired w v.uplink)
        (rw (settings_layer_same c w v.settings) (connection_layer_rests c w v)))

  -- The kill switch was applied for the uplink of `c'`, and a pass with another configuration `c`
  -- fails to apply its own. Then the snapshot says that the kill switch is off, and a later pass
  -- with `c'` calls no driver for it and leaves the snapshot so.
  pub killswitch_revert_skipped :
      (c c' : Config) (w : World) (e : Err)
      → w.r.applied_ks ≡ some c'.uplink
      → uplink_eq c'.uplink c.uplink ≡ false
      → (d.killswitch w.calls c.uplink w.st).0 ≡ some e
      → (w' : World) × (killswitch_layer d c w ≡ stop w')
        × (w'.st.killswitch.active ≡ false)
        × (killswitch_layer d c' w' ≡ next w')
  unfolding killswitch_layer finish_killswitch fail
  killswitch_revert_skipped c c' w e h ne bad = (
    update (set_active false) (
        fail d "killswitch_failed" e
          (called (apply_killswitch c.uplink false) (d.killswitch w.calls c.uplink w.st).1 w)),
    rw (applied_is_other _ _ _ h ne) (rw bad),
    refl,
    rw (applied_is_self _ _ h),
  )
