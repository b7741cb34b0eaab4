-- ===== src/Uplink/Manager.antt =====
-- `Manager` of image/agent/internal/uplink/manager.go.
use expressvpn_container.Base.{
  ℕ, ◌+◌, String, Bool, true, false, not, ◌&&◌, ◌||◌, Option, none, some, List, [], ◌∷◌, ◌==◌,
  str_eq, if◌then◌else◌,
}
use expressvpn_container.Base.Int.{ℤ}
use expressvpn_container.Config
use expressvpn_container.Config.{uplink_eq}
use expressvpn_container.State
use expressvpn_container.State.{
  State, TriState, tri_unknown, tri_true, tri_false, UplinkStatus, unknown, up, down, degraded,
  set_udp,
}
use expressvpn_container.Uplink.System
use expressvpn_container.Uplink.System.{
  System, Manager, did, lookup, proxy_check, write_config, launch, halt, probe, Step, go, wrong, M,
  pure, ◌>>=◌, ◌>>◌, modify, need, need_some,
}
use expressvpn_container.Uplink.Routes.{
  tun_iface, exception, ip_route, detect_gateway, apply_routes, restore_host_routes, link_exists,
  redirect_resolver, restore_resolver,
}
pub mod Outcome
pub mod Applied
pub mod Engine
pub mod Reported

-- `NewManager`
abbrev pub new : State → Manager
new s = record {
  applied = none;
  running = false;
  probe_run = none;
  probes = 0;
  proxy_ip = "";
  gw = "";
  saved_resolv = none;
  st = s;
  log = [];
}

abbrev pub in_socks5 : Option Config.Uplink → Bool
in_socks5 none = false
in_socks5 (some u) = str_eq u.mode "socks5"

abbrev pub same_as : Option Config.Uplink → Config.Uplink → Bool
same_as none u = false
same_as (some a) u = uplink_eq a u

-- `downState`
unfoldable pub down_state : Config.Uplink → String → String → State.Uplink
down_state c endpoint reason = record {
  mode = c.mode;
  status = down;
  udp_supported = tri_unknown;
  endpoint = endpoint;
  reason = reason;
}

abbrev pub tri_of : Bool → TriState
tri_of true = tri_true
tri_of false = tri_false

abbrev pub in_socks5_state : State → Bool
in_socks5_state s = str_eq s.uplink.mode "socks5"

module _ (sys : System) where
  abbrev pub proc_alive : Manager → Bool
  proc_alive m = m.running && sys.alive m.log

  -- `stopProcLocked`
  unfoldable pub stop_proc : Manager → Manager
  stop_proc m = if m.running then record (did halt m) { running = false } else m

  host_routes : Manager → Manager
  host_routes m = if str_eq m.gw "" then m else restore_host_routes sys m.proxy_ip m.gw m

  -- `teardownLocked`
  unfoldable pub teardown : Manager → Manager
  unfolding host_routes
  teardown m = record (host_routes (restore_resolver (stop_proc m))) {
    proxy_ip = "";
    applied = none;
    probe_run = none;
  }

  -- What `Apply` does to the old uplink.
  abbrev pub leave_socks5 : Manager → Manager
  leave_socks5 m = if in_socks5 m.applied then teardown m else m

  abbrev pub asked : System.Action → Bool → String → M (Unit {0})
  asked a answer why m = need answer why (did a m)

  launch_engine : M (Unit {0})
  launch_engine m =
      if sys.launched m.log
      then (go tt, record (did launch m) { running = true })
      else (wrong "engine_failed", record (did launch m) { running = false })

  set_routes : String → String → M (Unit {0})
  set_routes ip gw m =
      let (set, m') = apply_routes sys ip gw m in
      if set then (go tt, m') else (wrong "routes_failed", teardown m')

  find_proxy : Config.Uplink → M String
  find_proxy c m =
      need_some (sys.resolve m.log c.socks5.host) "proxy_unreachable" (did (lookup c.socks5.host) m)

  find_gateway : M String
  find_gateway m = let (gw, m') = detect_gateway sys m in need_some gw "no_gateway" m'

  -- The route to the proxy, set before the proxy is tried.
  pin_route : String → String → M (Unit {0})
  pin_route ip gw m =
      let (set, m') = ip_route sys (exception sys ip gw) (record m { proxy_ip = ip; gw = gw }) in
      need set "routes_failed" m'

  try_proxy : Config.Uplink → String → M (Unit {0})
  try_proxy c ip m =
      asked (proxy_check ip c.socks5.port) (sys.reachable m.log ip c.socks5.port)
        "proxy_unreachable" m

  write_engine : M (Unit {0})
  write_engine m = asked write_config (sys.config_written m.log) "config_failed" m

  -- The last steps: the interception of DNS, and the uplink counts as applied.
  settle : Config.Uplink → M (Unit {0})
  settle c m = (go tt, record (redirect_resolver sys m) { applied = some c })

  -- The steps from the route to the proxy on.
  raise_engine : Config.Uplink → String → String → M (Unit {0})
  unfolding launch_engine set_routes settle
  raise_engine c ip gw = launch_engine >> (set_routes ip gw >> settle c)

  prepare_engine : Config.Uplink → String → String → M (Unit {0})
  unfolding try_proxy write_engine raise_engine
  prepare_engine c ip gw = try_proxy c ip >> (write_engine >> raise_engine c ip gw)

  over_gateway : Config.Uplink → String → String → M (Unit {0})
  unfolding pin_route prepare_engine
  over_gateway c ip gw = pin_route ip gw >> prepare_engine c ip gw

  over_proxy : Config.Uplink → String → M (Unit {0})
  unfolding find_gateway over_gateway
  over_proxy c ip = find_gateway >>= over_gateway c ip

  -- The new uplink, from the name of the proxy to the interception of DNS.
  unfoldable pub build : Config.Uplink → M (Unit {0})
  unfolding find_proxy over_proxy
  build c = find_proxy c >>= over_proxy c

  -- `startProbeLocked`
  unfoldable pub start_probe : Manager → Manager
  start_probe m = record (did (probe m.probes) m) {
    probe_run = some m.probes;
    probes = m.probes + 1;
    st = set_udp tri_unknown m.st;
  }

  socks5_up : String → TriState → State.Uplink
  socks5_up endpoint udp = record {
    mode = "socks5";
    status = up;
    udp_supported = udp;
    endpoint = endpoint;
    reason = "";
  }

  with_udp : Config.Uplink → String → Manager → (State.Uplink × Option String) × Manager
  unfolding socks5_up
  with_udp c endpoint m =
      if str_eq c.socks5.udp "on"
      then ((socks5_up endpoint tri_true, none), m)
      else if str_eq c.socks5.udp "off"
      then ((socks5_up endpoint tri_false, none), m)
      else ((socks5_up endpoint tri_unknown, none), start_probe m)

  built :
      Config.Uplink → String → Step (Unit {0}) × Manager → (State.Uplink × Option String) × Manager
  unfolding with_udp
  built c endpoint (go _, m) = with_udp c endpoint m
  built c endpoint (wrong why, m) = ((down_state c endpoint why, some why), m)

  -- `statusLocked`
  unfoldable pub status :
      Config.Uplink → String → Manager → (State.Uplink × Option String) × Manager
  status c endpoint m =
      let ok = sys.reachable m.log m.proxy_ip c.socks5.port in
      let m1 = did (proxy_check m.proxy_ip c.socks5.port) m in
      let (link, m2) = link_exists sys tun_iface m1 in
      let us : State.Uplink = record {
        mode = "socks5";
        status = up;
        udp_supported = m.st.uplink.udp_supported;
        endpoint = endpoint;
        reason = "";
      } in
      let lost : State.Uplink = record us { status = down; reason = "proxy_unreachable" } in
      if not ok then ((lost, none), m1) else if link then ((us, none), m2) else ((lost, none), m2)

  apply_host : Config.Uplink → Manager → (State.Uplink × Option String) × Manager
  apply_host c m = (
    (
      record { mode = "host"; status = up; udp_supported = tri_true; endpoint = ""; reason = "" },
      none,
    ),
    record (leave_socks5 m) { applied = some c; probe_run = none },
  )

  apply_socks5 : Config.Uplink → Manager → (State.Uplink × Option String) × Manager
  unfolding built
  apply_socks5 c m =
      let endpoint = sys.endpoint c.socks5.host c.socks5.port in
      if same_as m.applied c && proc_alive m
      then status c endpoint m
      else built c endpoint (build c (leave_socks5 m))

  -- `Apply`: the uplink's state, what is wrong, and the manager.
  unfoldable pub apply : Config.Uplink → Manager → (State.Uplink × Option String) × Manager
  unfolding apply_host apply_socks5
  apply c m =
      if str_eq c.mode "host"
      then apply_host c m
      else if str_eq c.mode "socks5"
      then apply_socks5 c m
      else (
        (
          record {
            mode = c.mode;
            status = unknown;
            udp_supported = tri_unknown;
            endpoint = "";
            reason = "";
          },
          some "unknown uplink mode",
        ),
        m,
      )

  -- `Shutdown`
  abbrev pub shutdown : Manager → Manager
  shutdown = leave_socks5

-- `==` on the run that is still the current one.
abbrev pub is_current : Option ℕ → ℕ → Bool
is_current none run = false
is_current (some r) run = r == run

-- The end of `probeAndPublish`.
unfoldable pub publish_probe : ℕ → Bool → Manager → Manager
publish_probe run supported m =
    if is_current m.probe_run run && in_socks5_state m.st
    then record m { st = set_udp (tri_of supported) m.st }
    else m

-- `WaitUDP`; `finished` is the snapshot once the run is done, or none if the context ends first.
awaited : Option ℕ → Option State → Manager → TriState
awaited none finished m = m.st.uplink.udp_supported
awaited (some run) none m = tri_unknown
awaited (some run) (some s) m = s.uplink.udp_supported

wait_for : Option Config.Uplink → Option State → Manager → TriState
unfolding awaited
wait_for none finished m = tri_unknown
wait_for (some c) finished m =
    if str_eq c.mode "host" || str_eq c.socks5.udp "on"
    then tri_true
    else if str_eq c.socks5.udp "off"
    then tri_false
    else awaited m.probe_run finished m

unfoldable pub wait_udp : Option State → Manager → TriState
unfolding wait_for
wait_udp finished m = wait_for m.applied finished m
