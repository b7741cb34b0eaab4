-- ===== src/Selfcheck.antt =====
-- The self check of image/agent/internal/selfcheck/selfcheck.go: `Run` and `waitSettled`.
pub mod Verdicts
use expressvpn_container.Base.{
  ℕ, zero, suc, ◌+◌, ◌-◌, ◌*◌, ◌%◌, ◌≤◌, ◌<◌, String, Bool, true, false, not, ◌&&◌, ◌||◌, Option,
  none, some, List, [], ◌∷◌, ◌++◌, map, reverse, ◌≡◌, ◌≢◌, ◌↔◌, ◌⊎◌, inl, inr, refl, sym, ap, ◌∙◌,
  subst, ◌==◌, ltb, leb, str_eq, eq_iff, if◌then◌else◌, arith, Bool-cases, Option-cases, if_both,
  if_either, length, take, drop, get_or, set, replicate, filter,
}
use expressvpn_container.State
use expressvpn_container.State.{State, conn, is_connected, wants_connected, up, UplinkStatus}

-- What a run does; the answers to it may depend on all that was done before, newest first.
pub data Action : Type 0 where
  wait read_state read_mode ask_proxy ask_uplink ask_dns : Action

-- One look of `waitSettled`: the snapshot, and whether the time is over after it.
pub record Look : Type 0 where
  pub seen : State
  pub over : Bool

-- The snapshots, the configured mode, the address and the country that the services report through
-- the proxy, the address on the way of the uplink, and, where they are set, the resolver of the
-- tunnel and the text of its address.
pub record Outside : Type 0 where
  pub looks : List Action → List Look
  pub state : List Action → State
  pub mode : List Action → String
  pub via_proxy : List Action → Option (String × String)
  pub via_uplink : List Action → Option String
  pub resolves : Option (List Action → Bool)
  pub tunnel_ns : Option String

abbrev pub is_up : UplinkStatus → Bool
is_up up = true
is_up _ = false

abbrev pub settled : State → Bool
settled s = is_connected (conn s) && is_up s.uplink.status

-- `waitSettled` with the number of good looks in a row; the context ends with the looks.
unfoldable pub wait_from : ℕ → List Look → Bool
wait_from stable [] = false
wait_from stable (l ∷ ls) =
    let count = if settled l.seen then stable + 1 else 0 in
    let rest = wait_from count ls in if leb 3 count then true else if l.over then false else rest

abbrev pub wait_settled : List Look → Bool
wait_settled = wait_from 0

-- What `Run` publishes but for the time, and its reasons so far.
pub record Report : Type 0 where
  pub verdict : String
  pub reasons : List String
  pub proxy_ip : String
  pub proxy_country : String
  pub uplink_ip : String
  pub dns : List String

abbrev pub blank : Report
blank = record {
  verdict = "";
  reasons = [];
  proxy_ip = "";
  proxy_country = "";
  uplink_ip = "";
  dns = [];
}

abbrev pub failed : List String → Report
failed reasons = record blank { verdict = "fail"; reasons = reasons }

abbrev pub add_if : Bool → String → List String → List String
add_if b reason reasons = if b then reasons ++ (reason ∷ []) else reasons

abbrev pub is_none {ℓ} : {A : Type ℓ} → Option A → Bool
is_none none = true
is_none (some _) = false

grade : List String → Report → Report
grade [] r = record r { verdict = "ok" }
grade (_ ∷ _) r = record r { verdict = "warning" }

-- The verdict, from whether the way through the proxy failed.
unfoldable pub judge : Bool → Report → Report
unfolding grade
judge proxy_failed r =
    if proxy_failed
    then record r { verdict = "fail" }
    else if not (str_eq r.uplink_ip "") && str_eq r.proxy_ip r.uplink_ip
    then record r { verdict = "fail"; reasons = r.reasons ++ ("same_ip" ∷ []) }
    else grade r.reasons r

module _ (out : Outside) where
  -- (c) DNS through the tunnel.
  add_dns : Bool → List Action → Report → Report
  add_dns proxy_failed h r = elim out.resolves [
    | none ↦ r
    | some ok ↦
        if not (ok h)
        then record r { reasons = add_if (not proxy_failed) "dns_check_failed" r.reasons }
        else (elim out.tunnel_ns [ none ↦ r | some ns ↦ record r { dns = ns ∷ [] } ])
  ]

  add_uplink : Option String → Report → Report
  add_uplink none r = record r { reasons = r.reasons ++ ("uplink_ip_unknown" ∷ []) }
  add_uplink (some ip) r = record r { uplink_ip = ip }

  -- (b) The address of the uplink, and what follows.
  finish : Bool → List Action → Report → Report
  unfolding add_dns add_uplink
  finish proxy_failed h r =
      if str_eq (out.mode h) "socks5"
      then judge proxy_failed (
          add_dns proxy_failed (ask_uplink ∷ read_mode ∷ h)
            (add_uplink (out.via_uplink (read_mode ∷ h)) r))
      else judge proxy_failed (add_dns proxy_failed (read_mode ∷ h) r)

  with_proxy : List Action → Option (String × String) → Report
  unfolding finish
  with_proxy h (some (ip, country)) =
      finish false h (record blank { proxy_ip = ip; proxy_country = country })
  with_proxy h none =
      let reason =
        if not (is_connected (conn (out.state h))) then "tunnel_down" else "proxy_check_failed" in
      finish true (read_state ∷ h) (record blank { reasons = reason ∷ [] })

  -- (a) The way of a client, tried again once the state has settled.
  measure : List Action → Option (String × String) → Report
  unfolding with_proxy
  measure h (some x) = with_proxy h (some x)
  measure h none =
      if wait_settled (out.looks h)
      then with_proxy (ask_proxy ∷ wait ∷ h) (out.via_proxy (wait ∷ h))
      else with_proxy (wait ∷ h) none

  unsettled : State → Report
  unsettled s = failed (
      add_if (not (is_connected (conn s))) "tunnel_down"
        (add_if (not (is_up s.uplink.status)) "uplink_down" []))

  -- `Run`
  unfoldable pub run : List Action → Report
  unfolding measure unsettled
  run h =
      if not (wants_connected (out.state h).desired)
      then failed ("tunnel_down" ∷ [])
      else if not (wait_settled (out.looks (read_state ∷ h)))
      then unsettled (out.state (wait ∷ read_state ∷ h))
      else measure (ask_proxy ∷ wait ∷ read_state ∷ h) (out.via_proxy (wait ∷ read_state ∷ h))
