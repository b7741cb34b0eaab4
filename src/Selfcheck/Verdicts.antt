-- ===== src/Selfcheck/Verdicts.antt =====
-- What a verdict of image/agent/internal/selfcheck/selfcheck.go vouches for.
use expressvpn_container.Base.{
  String, Bool, true, false, not, ◌&&◌, Option, none, some, List, [], ◌∷◌, ◌≡◌, ◌≢◌, ◌⊎◌, inl, inr,
  refl, sym, ap, ◌∙◌, str_eq, eq_iff, arith, Bool-cases, if_both, if_either,
}
use expressvpn_container.State.{wants_connected}
use expressvpn_container.Selfcheck.{
  Action, grade, read_mode, ask_uplink, wait, read_state, ask_proxy, Outside, wait_settled, Report,
  blank, judge, add_dns, add_uplink, finish, with_proxy, measure, unsettled, run,
}

-- The report fails, or the address of the proxy is what the services reported at some moment, it is
-- not the address of the uplink, if that is known, and the verdict is "ok" exactly without reasons.
pub data Vouched (out : Outside) (r : Report) : Type 0 where
  fails : r.verdict ≡ "fail" → Vouched out r
  measured :
      (h : List Action)
      → out.via_proxy h ≡ some (r.proxy_ip, r.proxy_country)
      → (r.uplink_ip ≡ "") ⊎ (r.proxy_ip ≢ r.uplink_ip)
      → ((r.verdict ≡ "ok") × (r.reasons ≡ [])) ⊎ ((r.verdict ≡ "warning") × (r.reasons ≢ []))
      → Vouched out r

module _ (out : Outside) where
  grade-Vouched :
      (h : List Action) (r : Report) (rs : List String)
      → r.reasons ≡ rs
      → out.via_proxy h ≡ some (r.proxy_ip, r.proxy_country)
      → (r.uplink_ip ≡ "") ⊎ (r.proxy_ip ≢ r.uplink_ip)
      → Vouched out (grade rs r)
  unfolding grade
  grade-Vouched h r [] same e u = measured h e u (inl (refl, same))
  grade-Vouched h r (x ∷ xs) same e u = measured h e u (inr (refl, λ k. cc (same, k)))

  apart :
      (uplink proxy : String)
      → (not (str_eq uplink "") && str_eq proxy uplink) ≡ false
      → (uplink ≡ "") ⊎ (proxy ≢ uplink)
  apart uplink proxy e = elim (Bool-cases (str_eq uplink "")) [
    | inl k ↦ inl ((eq_iff uplink "").0 k)
    | inr k ↦ inr (λ same. ground (arith, eq_iff proxy uplink))
  ]

  judge-Vouched :
      (h : List Action) (r : Report)
      → out.via_proxy h ≡ some (r.proxy_ip, r.proxy_country)
      → Vouched out (judge false r)
  unfolding judge
  judge-Vouched h r e =
      if_either (Vouched out) (not (str_eq r.uplink_ip "") && str_eq r.proxy_ip r.uplink_ip)
        (λ _. fails refl) (λ k. grade-Vouched h r r.reasons refl e (apart r.uplink_ip r.proxy_ip k))

  -- Two reports name the same way of a client.
  record Same (r r' : Report) : Type 0 where
    same_ip : r'.proxy_ip ≡ r.proxy_ip
    same_country : r'.proxy_country ≡ r.proxy_country

  add_uplink-Same : (o : Option String) (r : Report) → Same r (add_uplink out o r)
  unfolding add_uplink
  add_uplink-Same none r = record { same_ip = refl; same_country = refl }
  add_uplink-Same (some ip) r = record { same_ip = refl; same_country = refl }

  add_dns-Same : (b : Bool) (h : List Action) (r : Report) → Same r (add_dns out b h r)
  unfolding add_dns
  add_dns-Same b h r = record { same_ip = ground arith; same_country = ground arith }

  finish-Vouched :
      (h h' : List Action) (r : Report)
      → out.via_proxy h ≡ some (r.proxy_ip, r.proxy_country)
      → Vouched out (finish out false h' r)
  unfolding finish
  finish-Vouched h h' r e =
      let h1 = ask_uplink ∷ read_mode ∷ h' in
      let r1 = add_uplink out (out.via_uplink (read_mode ∷ h')) r in
      let s1 = add_uplink-Same (out.via_uplink (read_mode ∷ h')) r in
      let s2 = add_dns-Same false h1 r1 in
      let s3 = add_dns-Same false (read_mode ∷ h') r in
      if_both (Vouched out) (str_eq (out.mode h') "socks5")
        (judge-Vouched h (add_dns out false h1 r1) (
          e
          ∙ ap some
              (λ i. (sym (s2.same_ip ∙ s1.same_ip) i, sym (s2.same_country ∙ s1.same_country) i))))
        (judge-Vouched h (add_dns out false (read_mode ∷ h') r)
          (e ∙ ap some (λ i. (sym s3.same_ip i, sym s3.same_country i))))

  finish-fail : (h : List Action) (r : Report) → (finish out true h r).verdict ≡ "fail"
  unfolding finish judge
  finish-fail h r =
      if_both (λ (x : Report). x.verdict ≡ "fail") (str_eq (out.mode h) "socks5") refl refl

  with_proxy-Vouched :
      (h h' : List Action) (o : Option (String × String))
      → out.via_proxy h ≡ o
      → Vouched out (with_proxy out h' o)
  unfolding with_proxy
  with_proxy-Vouched h h' (some (ip, country)) e =
      finish-Vouched h h' (record blank { proxy_ip = ip; proxy_country = country }) e
  with_proxy-Vouched h h' none e = fails (finish-fail (read_state ∷ h') _)

  measure-Vouched :
      (h h' : List Action) (o : Option (String × String))
      → out.via_proxy h ≡ o
      → Vouched out (measure out h' o)
  unfolding measure
  measure-Vouched h h' (some x) e = with_proxy-Vouched h h' (some x) e
  measure-Vouched h h' none e =
      if_both (Vouched out) (wait_settled (out.looks h'))
        (with_proxy-Vouched (wait ∷ h') (ask_proxy ∷ wait ∷ h') (out.via_proxy (wait ∷ h')) refl)
        (with_proxy-Vouched h (wait ∷ h') none e)

  -- A self check fails, or its report is true: the address and the country of the proxy are what a
  -- service reported through the proxy, the address differs from that of the uplink where one is
  -- given, and the verdict is "ok" without any reason or "warning" with one.
  pub run-Vouched : (h : List Action) → Vouched out (run out h)
  unfolding run unsettled
  run-Vouched h = if_both (Vouched out) (not (wants_connected (out.state h).desired)) (fails refl) (
      if_both (Vouched out) (not (wait_settled (out.looks (read_state ∷ h)))) (fails refl) (
        measure-Vouched (wait ∷ read_state ∷ h) (ask_proxy ∷ wait ∷ read_state ∷ h)
          (out.via_proxy (wait ∷ read_state ∷ h)) refl))
