-- ===== src/Reconciler/Pass.antt =====
-- `reconcile` of image/agent/internal/reconciler/reconciler.go: kill switch, uplink, settings,
-- connection.
use expressvpn_container.Base.{
  String, Bool, true, false, not, ◌&&◌, Option, none, some, List, [], ◌∷◌, if◌then◌else◌,
}
use expressvpn_container.Config
use expressvpn_container.Config.{Config, uplink_eq, expressvpn_eq}
use expressvpn_container.State
use expressvpn_container.State.{
  State, Desired, want_connected, want_disconnected, conn, set_connection, set_active, reconnecting,
  is_connected, wants_connected, is_unknown, tri_unknown,
}
use expressvpn_container.Xvpn.Errors.{Err}
use expressvpn_container.Reconciler.World.{
  apply_killswitch, apply_uplink, apply_settings, World, Drivers, update, called, fail, Pass, stop,
  next, ◌>>=◌, world, is_none,
}
use expressvpn_container.Reconciler.Connecting.{want_connection, want_disconnection}

-- `forgetConnection`
abbrev pub forget_connection : String → World → World
forget_connection reason w = record w { r = record w.r { force_reason = reason } }

abbrev pub applied_is : Option Config.Uplink → Config.Uplink → Bool
applied_is none u = false
applied_is (some a) u = uplink_eq a u

abbrev pub settings_are : Option Config.ExpressVpn → Config.ExpressVpn → Bool
settings_are none e = false
settings_are (some a) e = expressvpn_eq a e

-- The snapshot while the uplink is rebuilt.
unfoldable pub show_applying : Config → State → State
show_applying c s =
    let shown = record s {
      uplink = record s.uplink {
        mode = c.uplink.mode;
        status = State.UplinkStatus.unknown;
        reason = "applying";
        udp_supported = tri_unknown;
      };
    } in
    if wants_connected s.desired && is_connected (conn s)
    then set_connection reconnecting shown
    else shown

-- The snapshot after it: a probe that was faster keeps its result.
unfoldable pub publish_uplink : State.Uplink → State → State
publish_uplink us s = record s {
  uplink =
      if is_unknown us.udp_supported
      then record us { udp_supported = s.uplink.udp_supported }
      else us;
}

-- What is shown before the uplink is rebuilt, and the reconnection planned for after it.
unfoldable pub start_uplink : Config → Desired → World → World
start_uplink c desired w =
    let shown = update (show_applying c) w in
    if wants_connected desired && not (is_none w.r.applied_uplink)
    then forget_connection "uplink_changed" shown
    else shown

module _ (d : Drivers) where
  unfoldable pub finish_killswitch : Config → Option Err → World → Pass
  finish_killswitch c (some e) w = stop (update (set_active false) (fail d "killswitch_failed" e w))
  finish_killswitch c none w =
      next (update (set_active true) (record w { r = record w.r { applied_ks = some c.uplink } }))

  unfoldable pub killswitch_layer : Config → World → Pass
  killswitch_layer c w =
      let (e, s') = d.killswitch w.calls c.uplink w.st in
      if applied_is w.r.applied_ks c.uplink
      then next w
      else finish_killswitch c e (called (apply_killswitch c.uplink (is_none e)) s' w)

  unfoldable pub finish_uplink : Config → State.Uplink → Option Err → World → Pass
  finish_uplink c us (some e) w =
      stop (update (λ s. record s { uplink = us }) (fail d "uplink_failed" e w))
  finish_uplink c us none w =
      next (
        update (publish_uplink us) (record w { r = record w.r { applied_uplink = some c.uplink } }))

  -- `desired` is the one read at the start of the pass.
  unfoldable pub uplink_layer : Config → Desired → World → Pass
  uplink_layer c desired w =
      let w1 = start_uplink c desired w in
      let (us, e, s') = d.uplink w1.calls c.uplink w1.st in
      if applied_is w.r.applied_uplink c.uplink
      then next w
      else finish_uplink c us e (called (apply_uplink c.uplink (is_none e)) s' w1)

  unfoldable pub finish_settings : Config → Option Err → World → World
  finish_settings c (some e) w = fail d "expressvpn_settings_failed" e w
  finish_settings c none w = record w { r = record w.r { applied_evpn = some c.expressvpn } }

  unfoldable pub settings_layer : Config → World → World
  settings_layer c w =
      let (e, s') = d.settings w.calls c.expressvpn w.st in
      if settings_are w.r.applied_evpn c.expressvpn
      then w
      else finish_settings c e (called (apply_settings c.expressvpn) s' w)

  unfoldable pub by_desired : Config → Desired → World → World
  by_desired c want_connected w = want_connection d c w
  by_desired c want_disconnected w = want_disconnection d w

  unfoldable pub connection_layer : Config → World → World
  connection_layer c w = by_desired c w.st.desired w

  -- `reconcile`, with the configuration read at its start.
  unfoldable pub reconcile : Config → World → World
  reconcile c w = world (do
    w1 ← killswitch_layer c w
    w2 ← uplink_layer c w.st.desired w1
    next (connection_layer c (settings_layer c w2)))

  -- The passes of `Run`, each with the configuration that it finds.
  unfoldable pub run : List Config → World → World
  run [] w = w
  run (c ∷ cs) w = run cs (reconcile c w)
