-- ===== src/Tests/Uplink.antt =====
-- The uplink's manager on an outside where everything succeeds, for image/agent/internal/uplink.
use expressvpn_container.Base.{refl, ◌≡◌, ◌≢◌, some, true, false, String}
use expressvpn_container.Base.Int.{pos}
use expressvpn_container.Config
use expressvpn_container.State.{State, initial}
use expressvpn_container.Uplink.System.{System, Manager}
use expressvpn_container.Uplink.Manager.{new, apply, publish_probe, build, start_probe}
use expressvpn_container.Uplink.Routes.{detect_gateway, ip_route, apply_routes, redirect_resolver}
use expressvpn_container.Uplink.Manager.Outcome.{Inv}
use expressvpn_container.Uplink.Manager.Applied.{apply-Inv, stale_probe}
use expressvpn_container.Uplink.Manager.Reported.{Reported, Sound, new-Sound, apply-Reported}

abbrev willing : System
willing = record {
  run = λ log args. (true, "default via 172.17.0.1 dev eth0");
  resolve = λ log host. some "10.0.0.2";
  reachable = λ log ip port. true;
  config_written = λ log. true;
  launched = λ log. true;
  alive = λ log. true;
  old_resolver = λ log. some "nameserver 127.0.0.11";
  default_via = λ out. some "172.17.0.1";
  endpoint = λ host port. host;
}

abbrev first_state : State
unfolding initial
first_state = initial "1.0" 0

abbrev through : String → Config.Uplink
through host = record {
  mode = "socks5";
  socks5 = record { host = host; port = pos 1080; username = ""; password = ""; udp = "auto" };
}

new-Inv : Inv (new first_state)
new-Inv = record { numbered = λ r e. cc e; probed = λ r e. cc e }

abbrev probing : Manager
unfolding apply
probing = (apply willing (through "a") (new first_state)).1

probing-Inv : Inv probing
unfolding probing apply
probing-Inv = apply-Inv willing (through "a") (new first_state) new-Inv

has_gateway : (out gw : String) → willing.default_via out ≡ some gw → gw ≢ ""
has_gateway out gw e k =
    let shown : some "172.17.0.1" ≡ some gw = e in
    let clash : "172.17.0.1" ≡ gw = cc shown in cc (clash, k)

probing-Sound : Sound probing
unfolding probing apply
probing-Sound =
    (apply-Reported willing (through "a") (new first_state) has_gateway new-Inv
      (new-Sound first_state)).1

apply-Reported_example :
    Reported (through "b") probing (apply willing (through "b") probing)
    × Sound (apply willing (through "b") probing).1
apply-Reported_example =
    apply-Reported willing (through "b") probing has_gateway probing-Inv probing-Sound

-- An engine that does not start leaves the default route alone.
abbrev engineless : System
engineless = record willing { launched = λ log. false }

engine_failed : (apply engineless (through "b") (new first_state)).0.1 ≡ some "engine_failed"
unfolding apply build detect_gateway ip_route
engine_failed = refl

stale_probe_example :
    publish_probe 0 true (apply willing (through "b") probing).1
    ≡ (apply willing (through "b") probing).1
unfolding probing build detect_gateway ip_route apply_routes start_probe Config.uplink_eq
    redirect_resolver
stale_probe_example = stale_probe willing (through "b") probing 0 true probing-Inv refl refl refl
