-- ===== src/Proxy/Relay/Idle.antt =====
-- When the UDP relay of image/agent/internal/proxy/udp.go forgets a client.
use expressvpn_container.Base.{
  ℕ, String, Bool, true, false, not, Option, none, some, List, [], ◌∷◌, ◌≡◌, ◌≢◌, inl, inr, sym,
  ◌∙◌, subst, str_eq, eq_iff, Bool-cases, if_both,
}
use expressvpn_container.Base.{All}
use expressvpn_container.Base.Dict.{Dict, lookup, insert, lookup-insert, lookup-insert_other}
use expressvpn_container.Base.Text.{Bytes}
use expressvpn_container.Proxy.Address.{Ip, Endpoint}
use expressvpn_container.Proxy.Datagram.{parse_udp_header}
use expressvpn_container.Proxy.Relay.{
  Flow, Relay, Event, read_failed, datagram, find_flow, send, give_back, pass_on, open_flow,
  from_stranger, go_on, by_sender, step, run,
}

abbrev pub is_datagram : Event → Bool
is_datagram (datagram now gate from body) = true
is_datagram (read_failed now) = false

insert_keeps :
    (key k : String) (f : Flow) (d : Dict Flow)
    → lookup key d ≢ none
    → lookup key (insert k f d) ≢ none
insert_keeps key k f d old e = elim (Bool-cases (str_eq key k)) [
  | inl h ↦
      let same : key ≡ k = (eq_iff key k).0 h in
      cc (subst (λ x. lookup x (insert k f d) ≡ none) same e, lookup-insert k f d)
  | inr h ↦
      let other : key ≢ k = (λ same. cc (h, (eq_iff key k).1 same)) in
      old (sym (lookup-insert_other k key f d other) ∙ e)
]

-- The client of a key is not forgotten.
abbrev Keeps : String → Relay → Relay → Type 0
Keeps key r r' = lookup key r.flows ≢ none → lookup key r'.flows ≢ none

module _ (show : Endpoint → String) (resolver : Bytes → Option Ip) (key : String) where
  module _ (now : ℕ) (gate : Bool) (from : Endpoint) (body : Bytes) (r : Relay) where
    open_flow-Keeps :
        (o : Option (ℕ × Endpoint)) → Keeps key r (open_flow show resolver now from body o r)
    unfolding open_flow pass_on send
    open_flow-Keeps none old = old
    open_flow-Keeps (some (n, target)) old = insert_keeps key (show from) _ r.flows old

    go_on-Keeps :
        (f : Flow) (o : Option (ℕ × Endpoint))
        → Keeps key r (go_on show resolver now from body f o r)
    unfolding go_on pass_on send
    go_on-Keeps f none old = old
    go_on-Keeps f (some (n, target)) old = insert_keeps key (show from) _ r.flows old

    from_stranger-Keeps :
        (o : Option (Flow × Bytes))
        → Keeps key r (from_stranger show resolver now gate from body o r)
    unfolding from_stranger give_back send
    from_stranger-Keeps (some found) old = old
    from_stranger-Keeps none old =
        if_both (λ (x : Relay). lookup key x.flows ≢ none) (not gate) old
          (open_flow-Keeps (parse_udp_header resolver body) old)

    by_sender-Keeps :
        (o : Option Flow) → Keeps key r (by_sender show resolver now gate from body o r)
    unfolding by_sender
    by_sender-Keeps none old = from_stranger-Keeps (find_flow (show from) r.flows) old
    by_sender-Keeps (some f) old =
        if_both (λ (x : Relay). lookup key x.flows ≢ none) (not gate) old
          (go_on-Keeps f (parse_udp_header resolver body) old)

  step-Keeps : (e : Event) (r : Relay) → is_datagram e ≡ true → Keeps key r (step show resolver e r)
  unfolding step
  step-Keeps (read_failed now) r d old = cc d
  step-Keeps (datagram now gate from body) r d old =
      by_sender-Keeps now gate from body r (lookup (show from) r.flows) old

  -- Only a failed read lets a client go: in any run of datagrams, however much time passes between
  -- them, no flow of the table is dropped.
  pub datagrams_keep_flows :
      (es : List Event) (r : Relay)
      → All (λ (e : Event). is_datagram e ≡ true) es
      → lookup key r.flows ≢ none
      → lookup key (run show resolver es r).flows ≢ none
  unfolding run
  datagrams_keep_flows [] r v old = old
  datagrams_keep_flows (e ∷ es) r v old =
      datagrams_keep_flows es (step show resolver e r) v.1 (step-Keeps e r v.0 old)
