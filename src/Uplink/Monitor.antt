-- ===== src/Uplink/Monitor.antt =====
-- The health monitor and the manual probe of image/agent/internal/uplink/manager.go.
use expressvpn_container.Base.{
  ap, ◌∙◌, sym, subst, if_either, eq_iff, String, Bool, true, false, not, ◌||◌, Option, none, some,
  ◌≡◌, ◌≢◌, ◌↔◌, refl, str_eq, if◌then◌else◌,
}
use expressvpn_container.Config
use expressvpn_container.State.{State, UplinkStatus, unknown, up, down, degraded, set_udp}
use expressvpn_container.Uplink.System.{System, Manager, did, proxy_check}
use expressvpn_container.Uplink.Routes.{tun_iface, link_exists}
use expressvpn_container.Uplink.Manager.{proc_alive, in_socks5_state, tri_of}

-- The status and its reason, from the proxy's answer and the state of the tunnel.
unfoldable pub health : Bool → Bool → UplinkStatus × String
health true true = (up, "")
health false true = (down, "proxy_unreachable")
health _ false = (degraded, "engine_not_running")

unfoldable pub status_eq : UplinkStatus → UplinkStatus → Bool
status_eq unknown unknown = true
status_eq up up = true
status_eq down down = true
status_eq degraded degraded = true
status_eq _ _ = false

set_status : UplinkStatus → String → State → State
set_status u reason s = record s { uplink = record s.uplink { status = u; reason = reason } }

-- What is published, and whether the owner hears of a recovery.
unfoldable pub report : UplinkStatus × String → Manager → Bool × Manager
unfolding set_status status_eq
report (u, reason) m =
    if status_eq m.st.uplink.status u
    then (false, m)
    else (status_eq u up, record m { st = set_status u reason m.st })

probe_with : Bool → Option Config.Uplink → Manager → Bool × Manager
probe_with supported none m = (true, m)
probe_with supported (some c) m =
    if not (str_eq c.mode "socks5")
    then (true, m)
    else if str_eq c.socks5.udp "on" || str_eq c.socks5.udp "off"
    then (false, m)
    else if in_socks5_state m.st
    then (false, record m { st = set_udp (tri_of supported) m.st })
    else (false, m)

abbrev OnRise : Manager → Bool × Manager → Type 0
OnRise m r = (r.0 ≡ true) ↔ ((m.st.uplink.status ≢ up) × (r.1.st.uplink.status ≡ up))

is_up : (u : UplinkStatus) → status_eq u up ≡ true → u ≡ up
unfolding status_eq
is_up unknown e = cc e
is_up up e = refl
is_up down e = cc e
is_up degraded e = cc e

both_up : (s u : UplinkStatus) → s ≡ up → u ≡ up → status_eq s u ≡ true
unfolding status_eq
both_up s u a b = ap (λ x. status_eq x u) a ∙ ap (status_eq up) b

same_up : (s u : UplinkStatus) → status_eq s u ≡ true → u ≡ up → s ≡ up
same_up s u e k = is_up s (ap (status_eq s) (sym k) ∙ e)

report-OnRise : (r : UplinkStatus × String) (m : Manager) → OnRise m (report r m)
unfolding report set_status
report-OnRise (u, reason) m =
    if_either (OnRise m) (status_eq m.st.uplink.status u) (λ e. (λ k. cc k, λ (n, k). absurd (n k)))
      (λ e.
        (λ k. (λ s. cc (both_up _ _ s (is_up u k), e), is_up u k), λ (n, k). both_up u up k refl))

module _ (sys : System) where
  -- `procAlive() && linkExists(...)`
  tunnel_ok : Manager → Bool × Manager
  tunnel_ok m = if proc_alive sys m then link_exists sys tun_iface m else (false, m)

  observe : Config.Uplink → Manager → Bool × Manager
  unfolding tunnel_ok
  observe c m =
      let ok = sys.reachable m.log m.proxy_ip c.socks5.port in
      let (tun, m') = tunnel_ok (did (proxy_check m.proxy_ip c.socks5.port) m) in
      report (health ok tun) m'

  watch : Option Config.Uplink → Manager → Bool × Manager
  unfolding observe
  watch none m = (false, m)
  watch (some c) m = if str_eq c.mode "socks5" then observe c m else (false, m)

  -- One round of `Monitor`.
  unfoldable pub monitor : Manager → Bool × Manager
  unfolding watch
  monitor m = watch m.applied m

  -- `ProbeAction`: whether it is refused, with `supported` the answer of `ProbeUDP`.
  unfoldable pub probe_action : Bool → Manager → Bool × Manager
  unfolding probe_with
  probe_action supported m = probe_with supported m.applied m

  observe-OnRise : (c : Config.Uplink) (m : Manager) → OnRise m (observe c m)
  unfolding observe tunnel_ok link_exists
  observe-OnRise c m =
      if_either
        (λ (x : Bool × Manager).
          OnRise m (report (health (sys.reachable m.log m.proxy_ip c.socks5.port) x.0) x.1))
        (proc_alive sys (did (proxy_check m.proxy_ip c.socks5.port) m)) (λ _. report-OnRise _ _)
        (λ _. report-OnRise _ _)

  watch-OnRise :
      (c : Config.Uplink) (m : Manager)
      → str_eq c.mode "socks5" ≡ true
      → OnRise m (watch (some c) m)
  unfolding watch
  watch-OnRise c m mode =
      if_either (OnRise m) (str_eq c.mode "socks5") (λ _. observe-OnRise c m) (λ e. cc (mode, e))

  -- While a socks5 uplink is applied, a round of `Monitor` tells the owner of a recovery exactly if
  -- the published status was not up and is up after the round.
  pub monitor_recovers :
      (c : Config.Uplink) (m : Manager)
      → m.applied ≡ some c
      → c.mode ≡ "socks5"
      → ((monitor m).0 ≡ true) ↔ ((m.st.uplink.status ≢ up) × ((monitor m).1.st.uplink.status ≡ up))
  unfolding monitor
  monitor_recovers c m e mode =
      subst (λ o. OnRise m (watch o m)) (sym e) (watch-OnRise c m ((eq_iff c.mode "socks5").1 mode))
