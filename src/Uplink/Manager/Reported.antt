-- ===== src/Uplink/Manager/Reported.antt =====
-- What `Apply` of image/agent/internal/uplink/manager.go reports, and what it leaves behind.
use expressvpn_container.Base.{
  ℕ, String, Bool, true, false, not, ◌&&◌, Option, none, some, List, ◌≡◌, ◌≢◌, refl, sym, ap, ◌∙◌,
  subst, str_eq, eq_iff, if◌then◌else◌, if_both, if_either,
}
use expressvpn_container.Config
use expressvpn_container.Config.{uplink_eq_iff}
use expressvpn_container.State
use expressvpn_container.State.{up}
use expressvpn_container.Uplink.System.{System, Manager, Step, Action, go, wrong, did, proxy_check}
use expressvpn_container.Uplink.Routes.{tun_iface, link_exists}
use expressvpn_container.Uplink.Manager.{
  teardown, in_socks5, same_as, down_state, leave_socks5, start_probe, with_udp, built, status,
  apply_host, apply_socks5, apply, proc_alive, new,
}
use expressvpn_container.Uplink.Manager.Outcome.{
  Inv, Standing, Leaves, build-Leaves, leave_socks5-Idle,
}
use expressvpn_container.Uplink.Manager.Engine.{tunnelled, Off, On, teardown-Off}
use expressvpn_container.Uplink.Manager.Engine.Steps.{Reaches, build-Reaches}

-- Exactly while a socks5 uplink is applied the tunnel program runs and has the default route.
pub record Sound (m : Manager) : Type 0 where
  pub standing : in_socks5 m.applied ≡ true → On m
  pub idle : in_socks5 m.applied ≡ false → Off m

pub new-Sound : (s : State.State) → Sound (new s)
new-Sound s = record { standing = λ e. cc e; idle = λ e. record { stopped = refl; direct = refl } }

abbrev Answer : Type 0
Answer = (State.Uplink × Option String) × Manager

-- Without an error the configuration is the applied one, and the tunnel program runs and has the
-- default route where it is a socks5 one, and neither where it is not. With an error the published
-- uplink is not up; a socks5 uplink that was asked for is not applied, and the program neither runs
-- nor has the default route; and where the mode is unknown the manager is as before.
pub data Reported (c : Config.Uplink) (m : Manager) (r : Answer) : Type 0 where
  tunnel : r.0.1 ≡ none → c.mode ≡ "socks5" → r.1.applied ≡ some c → On r.1 → Reported c m r
  host : r.0.1 ≡ none → c.mode ≡ "host" → r.1.applied ≡ some c → Off r.1 → Reported c m r
  failed :
      (why : String)
      → r.0.1 ≡ some why
      → r.0.0.status ≢ up
      → c.mode ≡ "socks5"
      → in_socks5 r.1.applied ≡ false
      → Off r.1
      → Reported c m r
  unknown :
      (why : String)
      → r.0.1 ≡ some why
      → r.0.0.status ≢ up
      → c.mode ≢ "socks5"
      → c.mode ≢ "host"
      → r.1 ≡ m
      → Reported c m r

down_not_up : (c : Config.Uplink) (endpoint why : String) → (down_state c endpoint why).status ≢ up
unfolding down_state
down_not_up c endpoint why = λ e. cc e

and_left : (a b : Bool) → (a && b) ≡ true → a ≡ true
and_left true b e = refl
and_left false b e = e

as_applied : (o : Option Config.Uplink) (c : Config.Uplink) → same_as o c ≡ true → o ≡ some c
as_applied none c e = cc e
as_applied (some a) c e = let same : a ≡ c = (uplink_eq_iff a c).0 e in cc same

is_mode : (c : Config.Uplink) (k : String) → str_eq c.mode k ≡ true → c.mode ≡ k
is_mode c k e = (eq_iff c.mode k).0 e

not_mode : (c : Config.Uplink) (k : String) → str_eq c.mode k ≡ false → c.mode ≢ k
not_mode c k e = λ h. cc (e, (eq_iff c.mode k).1 h)

module _ (sys : System) where
  leave_Off :
      (b : Bool) (m : Manager)
      → in_socks5 m.applied ≡ b
      → Sound m
      → Off (if b then teardown sys m else m)
  leave_Off true m e v = teardown-Off sys m (v.standing e).gateway
  leave_Off false m e v = v.idle e

  leave_socks5-Off : (m : Manager) → Sound m → Off (leave_socks5 sys m)
  leave_socks5-Off m v = leave_Off (in_socks5 m.applied) m refl v

  module _ (c : Config.Uplink) (m : Manager) (mode : str_eq c.mode "socks5" ≡ true) where
    with_udp-Reported :
        (endpoint : String) (m' : Manager)
        → m'.applied ≡ some c
        → On m'
        → Reported c m (with_udp sys c endpoint m')
    unfolding with_udp start_probe
    with_udp-Reported endpoint m' e v =
        let s = is_mode c "socks5" mode in
        if_both (Reported c m) (str_eq c.socks5.udp "on") (tunnel refl s e v) (
          if_both (Reported c m) (str_eq c.socks5.udp "off") (tunnel refl s e v) (
            tunnel refl s e
              (record { running = v.running; through = v.through; gateway = v.gateway })))

    built-Reported :
        (n : ℕ) (endpoint : String) (r : Step (Unit {0})) (m' : Manager)
        → Leaves sys n (Standing sys c n) (r, m')
        → Reaches sys (λ _. On) (r, m')
        → Reported c m (built sys c endpoint (r, m'))
    unfolding built
    built-Reported n endpoint (go _) m' v w = with_udp-Reported endpoint m' v.applied w
    built-Reported n endpoint (wrong why) m' v w =
        failed why refl (down_not_up c endpoint why) (is_mode c "socks5" mode) v.not_socks5 w

    status-Reported :
        (endpoint : String) → m.applied ≡ some c → On m → Reported c m (status sys c endpoint m)
    unfolding status link_exists
    status-Reported endpoint e v =
        let s = is_mode c "socks5" mode in
        let still : (l : List Action) → tunnelled l ≡ true → On (record m { log = l }) =
          λ l k. record { running = v.running; through = k; gateway = v.gateway } in
        if_both (Reported c m) (not (sys.reachable m.log m.proxy_ip c.socks5.port))
          (tunnel refl s e (still _ v.through))
          (if_both (Reported c m)
            (link_exists sys tun_iface (did (proxy_check m.proxy_ip c.socks5.port) m)).0
            (tunnel refl s e (still _ v.through)) (tunnel refl s e (still _ v.through)))

    module _ (named : (out gw : String) → sys.default_via out ≡ some gw → gw ≢ "") where
      apply_socks5-Reported : Inv m → Sound m → Reported c m (apply_socks5 sys c m)
      unfolding apply_socks5
      apply_socks5-Reported v w =
          if_either (Reported c m) (same_as m.applied c && proc_alive sys m)
            (λ e.
              let there = as_applied m.applied c (and_left _ _ e) in
              status-Reported _ there (w.standing (ap in_socks5 there ∙ mode)))
            (λ _.
              built-Reported m.probes _ _ _
                (build-Leaves sys c m.probes (leave_socks5 sys m) (leave_socks5-Idle sys m v))
                (build-Reaches sys named c (leave_socks5 sys m) (leave_socks5-Off m w)))

  apply_host-Reported :
      (c : Config.Uplink) (m : Manager)
      → c.mode ≡ "host"
      → Sound m
      → Reported c m (apply_host sys c m)
  unfolding apply_host
  apply_host-Reported c m e w =
      let off = leave_socks5-Off m w in
      host refl e refl (record { stopped = off.stopped; direct = off.direct })

  Reported-Sound :
      (c : Config.Uplink) (m : Manager) (r : Answer) → Sound m → Reported c m r → Sound r.1
  Reported-Sound c m r w (tunnel _ s e v) = record {
    standing = λ _. v;
    idle = λ k. cc (k, ap in_socks5 e, (eq_iff c.mode "socks5").1 s);
  }
  Reported-Sound c m r w (host _ s e v) = record {
    standing = λ k.
        (let mode : c.mode ≡ "socks5" = is_mode c "socks5" (sym (ap in_socks5 e) ∙ k) in
          let clash : "host" ≡ c.mode = sym s in cc (clash, mode));
    idle = λ _. v;
  }
  Reported-Sound c m r w (failed why _ _ _ e v) = record {
    standing = λ k. cc (k, e);
    idle = λ _. v;
  }
  Reported-Sound c m r w (unknown why _ _ _ _ e) = subst Sound (sym e) w

  -- From a manager that keeps the invariant of its probes, and in which the tunnel program runs and
  -- has the default route exactly while a socks5 uplink is applied, every answer of `Apply` is
  -- `Reported`, and the second condition holds again: without an error the configuration asked for is
  -- the applied one; with an error the published uplink is not up and, if a socks5 uplink was asked
  -- for, none is applied, the program does not run and the last command for the default route did
  -- not lead it to the program. No gateway that the system prints has an empty name.
  pub apply-Reported :
      (c : Config.Uplink) (m : Manager)
      → ((out gw : String) → sys.default_via out ≡ some gw → gw ≢ "")
      → Inv m
      → Sound m
      → Reported c m (apply sys c m) × Sound (apply sys c m).1
  unfolding apply
  apply-Reported c m named v w =
      let P : Answer → Type 0 = λ r. Reported c m r × Sound r.1 in
      let both : (r : Answer) → Reported c m r → P r = λ r k. (k, Reported-Sound c m r w k) in
      if_either P (str_eq c.mode "host")
        (λ h. both _ (apply_host-Reported c m (is_mode c "host" h) w))
        (λ h.
          if_either P (str_eq c.mode "socks5") (λ s. both _ (apply_socks5-Reported c m s named v w))
            (λ s. both _ (
              unknown "unknown uplink mode" refl (λ k. cc k) (not_mode c "socks5" s)
                (not_mode c "host" h) refl)))
