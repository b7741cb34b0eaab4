-- ===== src/Uplink/Manager/Applied.antt =====
-- Whose probes count after `Apply` of image/agent/internal/uplink/manager.go.
use expressvpn_container.Config.{uplink_eq_iff, Socks5}
use expressvpn_container.State.{up}
use expressvpn_container.Base.{
  List, ◌<◌, ◌&&◌, ◌||◌, not, if_either, Bool, Bool, refl, ◌∙◌, ap, arith, str_eq, if_both, ◌≤◌,
  some, none, ◌≡◌, Option, ℕ, String, true, false,
}
use expressvpn_container.Config
use expressvpn_container.State
use expressvpn_container.Uplink.System.{Action, System, Manager, Step, go, wrong}
use expressvpn_container.Uplink.Routes.{link_exists}
use expressvpn_container.Uplink.Manager.{
  proxy_check, did, tun_iface, link_exists, in_socks5, same_as, leave_socks5, build, start_probe,
  with_udp, built, status, apply_host, apply_socks5, apply, is_current, publish_probe, proc_alive,
}
use expressvpn_container.Uplink.Manager.Outcome.{
  Inv, Standing, Leaves, build-Leaves, leave_socks5-Idle,
}

-- The number of the probe that counts is at least `n` and below the counter, and it probes a
-- socks5 uplink.
pub record Recent (n : ℕ) (m : Manager) : Type 0 where
  pub inv : Inv m
  pub recent : (r : ℕ) → m.probe_run ≡ some r → n ≤ r

abbrev Answer : Type 0
Answer = (State.Uplink × Option String) × Manager

none_Recent : (n : ℕ) (m : Manager) → m.probe_run ≡ none → Recent n m
none_Recent n m e = record {
  inv = record { numbered = λ r k. cc (e, k); probed = λ r k. cc (e, k) };
  recent = λ r k. cc (e, k);
}

module _ (sys : System) where
  started :
      (c : Config.Uplink) (n : ℕ) (m : Manager)
      → str_eq c.mode "socks5" ≡ true
      → Standing sys c n m
      → Recent n (start_probe sys m)
  unfolding start_probe
  started c n m e v = record {
    inv = record {
      numbered = λ r k. (let same : m.probes ≡ r = cc k in omega arith);
      probed = λ r k. ap in_socks5 v.applied ∙ e;
    };
    recent = λ r k. (let same : m.probes ≡ r = cc k in let c = v.count in omega arith);
  }

  with_udp-Recent :
      (c : Config.Uplink) (n : ℕ) (endpoint : String) (m : Manager)
      → str_eq c.mode "socks5" ≡ true
      → Standing sys c n m
      → Recent n (with_udp sys c endpoint m).1
  unfolding with_udp start_probe
  with_udp-Recent c n endpoint m e v =
      let P : Answer → Type 0 = λ r. Recent n r.1 in
      if_both P (str_eq c.socks5.udp "on") (none_Recent n m v.no_probe)
        (if_both P (str_eq c.socks5.udp "off") (none_Recent n m v.no_probe) (started c n m e v))

  built-Recent :
      (c : Config.Uplink) (n : ℕ) (endpoint : String) (r : Step (Unit {0})) (m : Manager)
      → str_eq c.mode "socks5" ≡ true
      → Leaves sys n (Standing sys c n) (r, m)
      → Recent n (built sys c endpoint (r, m)).1
  unfolding built
  built-Recent c n endpoint (go _) m e v = with_udp-Recent c n endpoint m e v
  built-Recent c n endpoint (wrong why) m e v = none_Recent n m v.no_probe

  rebuilt :
      (c : Config.Uplink) (m : Manager)
      → Inv m
      → Leaves sys m.probes (Standing sys c m.probes) (build sys c (leave_socks5 sys m))
  rebuilt c m v = build-Leaves sys c m.probes (leave_socks5 sys m) (leave_socks5-Idle sys m v)

  status-Inv :
      (c : Config.Uplink) (endpoint : String) (m : Manager)
      → Inv m
      → Inv (status sys c endpoint m).1
  unfolding status link_exists
  status-Inv c endpoint m v =
      let P : Answer → Type 0 = λ r. Inv r.1 in
      let kept : (l : List Action) → Inv (record m { log = l }) =
        λ l. record { numbered = v.numbered; probed = v.probed } in
      if_both P (not (sys.reachable m.log m.proxy_ip c.socks5.port)) (kept _) (
        if_both P (link_exists sys tun_iface (did (proxy_check m.proxy_ip c.socks5.port) m)).0
          (kept _) (kept _))

  -- Whether `Apply` finds the uplink in place.
  abbrev pub in_place : Config.Uplink → Manager → Bool
  in_place c m = same_as m.applied c && proc_alive sys m

  apply_socks5-Recent :
      (c : Config.Uplink) (m : Manager)
      → str_eq c.mode "socks5" ≡ true
      → Inv m
      → in_place c m ≡ false
      → Recent m.probes (apply_socks5 sys c m).1
  unfolding apply_socks5
  apply_socks5-Recent c m mode v e =
      if_either (λ (r : Answer). Recent m.probes r.1) (in_place c m) (λ k. cc (e, k))
        (λ _. built-Recent c m.probes _ _ _ mode (rebuilt c m v))

  apply-Recent :
      (c : Config.Uplink) (m : Manager)
      → Inv m
      → in_place c m ≡ false
      → (str_eq c.mode "host" || str_eq c.mode "socks5") ≡ true
      → Recent m.probes (apply sys c m).1
  unfolding apply apply_host
  apply-Recent c m v e known =
      let P : Answer → Type 0 = λ r. Recent m.probes r.1 in
      if_either P (str_eq c.mode "host") (λ _. none_Recent m.probes _ refl)
        λ h.
          if_either P (str_eq c.mode "socks5") (λ k. apply_socks5-Recent c m k v e)
            λ k. cc (h, k, known)

  -- `Apply` keeps the invariant of the manager's probes, whatever the mode is.
  pub apply-Inv : (c : Config.Uplink) (m : Manager) → Inv m → Inv (apply sys c m).1
  unfolding apply apply_host apply_socks5
  apply-Inv c m v =
      let P : Answer → Type 0 = λ r. Inv r.1 in
      if_both P (str_eq c.mode "host") (none_Recent 0 _ refl).inv (
        if_either P (str_eq c.mode "socks5")
          (λ mode.
            if_either P (in_place c m) (λ _. status-Inv c _ m v)
              (λ e. (built-Recent c m.probes _ _ _ mode (rebuilt c m v)).inv))
          (λ _. v))

  not_current :
      (o : Option ℕ) (n r : ℕ) → ((k : ℕ) → o ≡ some k → n ≤ k) → r < n → is_current o r ≡ false
  not_current none n r f l = refl
  not_current (some k) n r f l = ground (f k refl, arith)

  -- A probe that was started before `Apply` built another uplink, or before it went to host mode,
  -- publishes nothing when it ends: the manager is as `Apply` left it. The manager's probes keep
  -- their invariant before, the mode is a known one, and the uplink was not in place.
  pub stale_probe :
      (c : Config.Uplink) (m : Manager) (run : ℕ) (supported : Bool)
      → Inv m
      → in_place c m ≡ false
      → (str_eq c.mode "host" || str_eq c.mode "socks5") ≡ true
      → m.probe_run ≡ some run
      → publish_probe run supported (apply sys c m).1 ≡ (apply sys c m).1
  unfolding publish_probe
  stale_probe c m run supported v e known k =
      let after = apply-Recent c m v e known in
      let old : is_current (apply sys c m).1.probe_run run ≡ false =
        not_current _ m.probes run after.recent (v.numbered run k) in
      ground arith
