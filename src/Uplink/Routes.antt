-- ===== src/Uplink/Routes.antt =====
-- Routes: image/agent/internal/uplink/routes.go, and the resolver file of resolvconf.go.
use Prim.Native.String.{◌++◌ as cat}
use expressvpn_container.Base.{
  String, Bool, true, false, Option, none, some, List, [], ◌∷◌, str_eq, if◌then◌else◌,
}
use expressvpn_container.Uplink.System.{command, restore, redirect, System, Manager, did}

-- `TunIface` and `TunPeer`
abbrev pub tun_iface : String
tun_iface = "xup0"

abbrev pub tun_peer : String
tun_peer = "172.29.0.2"

module _ (sys : System) where
  -- A run of `ip`: whether it succeeded, and what it printed.
  abbrev pub ip : List String → Manager → (Bool × String) × Manager
  ip args m = (sys.run m.log ("ip" ∷ args), did (command ("ip" ∷ args)) m)

  -- `ipRoute`
  unfoldable pub ip_route : List String → Manager → Bool × Manager
  ip_route args m = let (r, m') = ip ("route" ∷ args) m in (r.0, m')

  any_gateway : (Bool × String) × Manager → Option String × Manager
  any_gateway ((ran, out), m) = (if ran then sys.default_via out else none, m)

  own_gateway : (Bool × String) × Manager → Option String × Manager
  unfolding any_gateway
  own_gateway ((false, out), m) = (none, m)
  own_gateway ((true, out), m) = elim (sys.default_via out) [
    | some gw ↦ (some gw, m)
    | none ↦ any_gateway (ip ("-4" ∷ "route" ∷ "show" ∷ "default" ∷ []) m)
  ]

  -- `detectGateway`
  unfoldable pub detect_gateway : Manager → Option String × Manager
  unfolding own_gateway
  detect_gateway m = own_gateway (ip ("-4" ∷ "route" ∷ "show" ∷ "default" ∷ "dev" ∷ "eth0" ∷ []) m)

  -- The route to the proxy itself.
  abbrev pub exception : String → String → List String
  exception proxy gw = "replace" ∷ cat proxy "/32" ∷ "via" ∷ gw ∷ "dev" ∷ "eth0" ∷ []

  through_tunnel : Bool × Manager → Bool × Manager
  through_tunnel (false, m) = (false, m)
  through_tunnel (true, m) =
      ip_route ("replace" ∷ "default" ∷ "via" ∷ tun_peer ∷ "dev" ∷ tun_iface ∷ []) m

  spare_default : String → Bool × Manager → Bool × Manager
  unfolding through_tunnel
  spare_default gw (false, m) = (false, m)
  spare_default gw (true, m) =
      through_tunnel
        (ip_route ("replace" ∷ "default" ∷ "via" ∷ gw ∷ "dev" ∷ "eth0" ∷ "metric" ∷ "1000" ∷ []) m)

  -- `applyRoutes`
  unfoldable pub apply_routes : String → String → Manager → Bool × Manager
  unfolding spare_default
  apply_routes proxy gw m = spare_default gw (ip_route (exception proxy gw) m)

  drop_exception : String → String → Manager → Manager
  drop_exception proxy gw m =
      if str_eq proxy ""
      then m
      else (ip_route ("del" ∷ cat proxy "/32" ∷ "via" ∷ gw ∷ "dev" ∷ "eth0" ∷ []) m).1

  drop_spare : String → String → Bool × Manager → Manager
  unfolding drop_exception
  drop_spare proxy gw (false, m) = m
  drop_spare proxy gw (true, m) =
      drop_exception proxy gw
        (ip_route ("del" ∷ "default" ∷ "via" ∷ gw ∷ "dev" ∷ "eth0" ∷ "metric" ∷ "1000" ∷ []) m).1

  -- `restoreHostRoutes`; its error is only logged.
  unfoldable pub restore_host_routes : String → String → Manager → Manager
  unfolding drop_spare
  restore_host_routes proxy gw m =
      drop_spare proxy gw (ip_route ("replace" ∷ "default" ∷ "via" ∷ gw ∷ "dev" ∷ "eth0" ∷ []) m)

  -- `linkExists`
  unfoldable pub link_exists : String → Manager → Bool × Manager
  link_exists iface m = let (r, m') = ip ("link" ∷ "show" ∷ iface ∷ []) m in (r.0, m')

  keep_first : Option String → Option String → Option String
  keep_first none new = new
  keep_first (some old) new = some old

  -- `redirectResolvConf` as `Apply` uses it: the oldest content is kept, an error is only logged.
  unfoldable pub redirect_resolver : Manager → Manager
  unfolding keep_first
  redirect_resolver m = record (did redirect m) {
    saved_resolv = keep_first m.saved_resolv (sys.old_resolver m.log);
  }

-- `restoreResolvConf` as the teardown uses it.
unfoldable pub restore_resolver : Manager → Manager
restore_resolver m = elim m.saved_resolv [
  | none ↦ m
  | some text ↦ record (did (restore text) m) { saved_resolv = none }
]
