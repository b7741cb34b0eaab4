-- ===== src/Proxy/Relay/Flows.antt =====
-- What the UDP relay of image/agent/internal/proxy/udp.go sends, and to whom.
use expressvpn_container.Base.{
  ℕ, ◌-◌, String, Bool, true, false, not, Option, none, some, List, [], ◌∷◌, ◌++◌, ◌≡◌, ◌⊎◌, inl,
  inr, refl, sym, ap, ◌∙◌, subst, ltb, arith, Option-cases, if_both, if_either, drop,
}
use expressvpn_container.Base.{All}
use expressvpn_container.Base.Dict.{Dict, lookup, All-insert, All-lookup}
use expressvpn_container.Base.Text.{Bytes}
use expressvpn_container.Proxy.Address.{Ip, Endpoint}
use expressvpn_container.Proxy.Datagram.{parse_udp_header, pack_udp_header}
use expressvpn_container.Proxy.Relay.{
  flow_idle, minute, Flow, Relay, Event, read_failed, datagram, new, expire, find_flow, send,
  give_back, pass_on, know, open_flow, from_stranger, known_target, go_on, by_sender, step, run,
}

-- An event is one of those so far.
abbrev pub Among : Event → List Event → Type 0
Among e [] = ⊥
Among e (x ∷ xs) = (e ≡ x) ⊎ Among e xs

Among-All : (P : Event → Type 0) (es : List Event) → ((e : Event) → Among e es → P e) → All P es
Among-All P [] f = tt
Among-All P (e ∷ es) f = (f e (inl refl), Among-All P es (λ x k. f x (inr k)))

module _ (show : Endpoint → String) where
  module _ (resolver : Bytes → Option Ip) where
    -- A client, by the text of its address, has sent a datagram to the target, with the tunnel up.
    abbrev pub Asked : List Event → String → Endpoint → Type 0
    Asked es key t =
        (now : ℕ) × (from : Endpoint) × (body : Bytes) × (n : ℕ) × Among
          (datagram now true from body) es
        × (show from ≡ key)
        × (parse_udp_header resolver body ≡ some (n, t))

    -- A round in which nothing is to be sent: the read failed, or the sender is a client or a
    -- stranger whom no client asked, and the tunnel is down or the header cannot be read.
    pub data Quiet (e : Event) (r : Relay) : Type 0 where
      no_datagram : (now : ℕ) → e ≡ read_failed now → Quiet e r
      dropped :
          (now : ℕ) (gate : Bool) (from : Endpoint) (body : Bytes)
          → e ≡ datagram now gate from body
          → ((f : Flow) × (lookup (show from) r.flows ≡ some f))
            ⊎ (find_flow (show from) r.flows ≡ none)
          → (gate ≡ false) ⊎ (parse_udp_header resolver body ≡ none)
          → Quiet e r

    -- What a round after the events `es` sends: nothing, where it is quiet; while the tunnel is up, the payload of a
    -- datagram to the target that its header names; or a datagram whose sender is no client, behind
    -- the sender's own header, to a client that asked this sender before.
    pub data Relayed (es : List Event) (e : Event) (r r' : Relay) : Type 0 where
      silent : Quiet e r → r'.sent ≡ r.sent → Relayed es e r r'
      forwarded :
          (now : ℕ) (gate : Bool) (from target : Endpoint) (body : Bytes) (n : ℕ)
          → e ≡ datagram now gate from body
          → gate ≡ true
          → parse_udp_header resolver body ≡ some (n, target)
          → r'.sent ≡ record { body = drop n body; dest = target } ∷ r.sent
          → Relayed es e r r'
      returned :
          (now : ℕ) (gate : Bool) (from t client : Endpoint) (body : Bytes)
          → e ≡ datagram now gate from body
          → lookup (show from) r.flows ≡ none
          → show t ≡ show from
          → Asked es (show client) t
          → r'.sent ≡ record { body = pack_udp_header t ++ body; dest = client } ∷ r.sent
          → Relayed es e r r'

    module _ (es : List Event) where
      -- A target of a client by the text of its address, with the header for its replies.
      abbrev pub IsTarget : String → String × Bytes → Type 0
      IsTarget key x = (t : Endpoint) × (x.0 ≡ show t) × (x.1 ≡ pack_udp_header t) × Asked es key t

      abbrev pub IsFlow : String × Flow → Type 0
      IsFlow x = (x.0 ≡ show x.1.client) × All (IsTarget x.0) x.1.targets

      -- The headers of all flows are those of targets that their clients asked.
      abbrev pub IsSound : Relay → Type 0
      IsSound r = All IsFlow r.flows

      expire-IsFlow : (now : ℕ) (d : Dict Flow) → All IsFlow d → All IsFlow (expire now d)
      unfolding expire
      expire-IsFlow now [] v = v
      expire-IsFlow now ((k, f) ∷ d) v =
          if_both (All IsFlow) (ltb flow_idle (now - f.last)) (expire-IsFlow now d v.1)
            (v.0, expire-IsFlow now d v.1)

      find_flow-IsTarget :
          (key : String) (d : Dict Flow) (f : Flow) (hdr : Bytes)
          → All IsFlow d
          → find_flow key d ≡ some (f, hdr)
          → IsTarget (show f.client) (key, hdr)
      unfolding find_flow
      find_flow-IsTarget key [] f hdr v e = cc e
      find_flow-IsTarget key ((k, g) ∷ d) f hdr v e = elim (Option-cases (lookup key g.targets)) [
        | inl h ↦ find_flow-IsTarget key d f hdr v.1 (rw (h, find_flow) at e)
        | inr (b, h) ↦
            let found : some (g, b) ≡ some (f, hdr) = rw (h, find_flow) at e in
            let same : b ≡ hdr = cc found in
            let owner : g ≡ f = cc found in
            subst (λ (x : Flow). IsTarget (show x.client) (key, hdr)) owner
              (subst (λ i. IsTarget i (key, hdr)) v.0.0
                (All-lookup (IsTarget k) key g.targets hdr v.0.1 (h ∙ ap some same)))
      ]

      -- A round keeps the headers sound where it is one of the events, and sends what it may.
      record Round (e : Event) (r r' : Relay) : Type 0 where
        kept : Among e es → IsSound r'
        relayed : Relayed es e r r'

      know-IsFlow :
          (target : Endpoint) (f : Flow) (k : String)
          → Asked es k target
          → IsFlow (k, f)
          → IsFlow (k, know show resolver target f)
      unfolding know
      know-IsFlow target f k asked v = (
        v.0,
        All-insert (IsTarget k) (show target) (pack_udp_header target) f.targets
            (target, refl, refl, asked) v.1,
      )

      module _ (now : ℕ) (gate : Bool) (from : Endpoint) (body : Bytes) (r : Relay)
          (v : IsSound r) where
        asked_now :
            (n : ℕ) (target : Endpoint)
            → gate ≡ true
            → parse_udp_header resolver body ≡ some (n, target)
            → Among (datagram now gate from body) es
            → Asked es (show from) target
        asked_now n target g e m =
            (now, from, body, n, subst (λ b. Among (datagram now b from body) es) g m, refl, e)

        shut_out :
            ((f : Flow) × (lookup (show from) r.flows ≡ some f))
              ⊎ (find_flow (show from) r.flows ≡ none)
            → gate ≡ false
            → Round (datagram now gate from body) r r
        shut_out who g = record {
          kept = λ _. v;
          relayed = silent (dropped now gate from body refl who (inl g)) refl;
        }

        open_flow-Round :
            (o : Option (ℕ × Endpoint))
            → find_flow (show from) r.flows ≡ none
            → gate ≡ true
            → parse_udp_header resolver body ≡ o
            → Round (datagram now gate from body) r (open_flow show resolver now from body o r)
        unfolding open_flow pass_on send
        open_flow-Round none new g e = record {
          kept = λ _. v;
          relayed = silent (dropped now gate from body refl (inr new) (inr e)) refl;
        }
        open_flow-Round (some (n, target)) new g e = record {
          kept = λ m.
              All-insert IsFlow (show from) _ r.flows
                (know-IsFlow target (record { client = from; targets = []; last = now }) (show from)
                  (asked_now n target g e m) (refl, tt))
                v;
          relayed = forwarded now gate from target body n refl g e refl;
        }

        known_target-IsFlow :
            (target : Endpoint) (o : Option Bytes) (f : Flow) (k : String)
            → Asked es k target
            → IsFlow (k, f)
            → IsFlow (k, known_target show resolver target o f)
        unfolding known_target
        known_target-IsFlow target (some _) f k asked w = w
        known_target-IsFlow target none f k asked w = know-IsFlow target f k asked w

        go_on-Round :
            (f : Flow) (o : Option (ℕ × Endpoint))
            → lookup (show from) r.flows ≡ some f
            → gate ≡ true
            → parse_udp_header resolver body ≡ o
            → Round (datagram now gate from body) r (go_on show resolver now from body f o r)
        unfolding go_on pass_on send
        go_on-Round f none h g e = record {
          kept = λ _. v;
          relayed = silent (dropped now gate from body refl (inl (f, h)) (inr e)) refl;
        }
        go_on-Round f (some (n, target)) h g e = record {
          kept = λ m.
              All-insert IsFlow (show from) _ r.flows
                (known_target-IsFlow target (lookup (show target) f.targets)
                  (record f { last = now }) (show from) (asked_now n target g e m)
                  (All-lookup IsFlow (show from) r.flows f v h))
                v;
          relayed = forwarded now gate from target body n refl g e refl;
        }

        from_stranger-Round :
            (o : Option (Flow × Bytes))
            → lookup (show from) r.flows ≡ none
            → find_flow (show from) r.flows ≡ o
            → Round
                (datagram now gate from body)
                r
                (from_stranger show resolver now gate from body o r)
        unfolding from_stranger give_back send
        from_stranger-Round (some (f, hdr)) unknown e =
            let (t, same, header, asked) = find_flow-IsTarget (show from) r.flows f hdr v e in
            record {
              kept = λ _. v;
              relayed =
                  returned now gate from t f.client body refl unknown (sym same) asked
                    (ap (λ h. record { body = h ++ body; dest = f.client } ∷ r.sent) header);
            }
        from_stranger-Round none unknown e =
            if_either (Round (datagram now gate from body) r) (not gate)
              (λ shut. shut_out (inr e) (ground arith))
              (λ up. open_flow-Round (parse_udp_header resolver body) e (ground arith) refl)

        by_sender-Round :
            (o : Option Flow)
            → lookup (show from) r.flows ≡ o
            → Round (datagram now gate from body) r (by_sender show resolver now gate from body o r)
        unfolding by_sender
        by_sender-Round none e = from_stranger-Round (find_flow (show from) r.flows) e refl
        by_sender-Round (some f) e =
            if_either (Round (datagram now gate from body) r) (not gate)
              (λ shut. shut_out (inl (f, e)) (ground arith))
              (λ up. go_on-Round f (parse_udp_header resolver body) e (ground arith) refl)

      step-Round : (e : Event) (r : Relay) → IsSound r → Round e r (step show resolver e r)
      unfolding step
      step-Round (read_failed now) r v =
          if_both (Round (read_failed now) r) (ltb minute (now - r.last_cleanup))
            (record {
              kept = λ _. expire-IsFlow now r.flows v;
              relayed = silent (no_datagram now refl) refl;
            })
            (record { kept = λ _. v; relayed = silent (no_datagram now refl) refl })
      step-Round (datagram now gate from body) r v =
          by_sender-Round now gate from body r v (lookup (show from) r.flows) refl

      run-IsSound :
          (xs : List Event) (r : Relay)
          → All (λ x. Among x es) xs
          → IsSound r
          → IsSound (run show resolver xs r)
      unfolding run
      run-IsSound [] r m v = v
      run-IsSound (x ∷ xs) r m v =
          run-IsSound xs (step show resolver x r) m.1 ((step-Round x r v).kept m.0)

    -- From the start of the relay, after any datagrams and failed reads, each further round is
    -- `Relayed`: it sends nothing, and then the read failed, or the sender is a client or a stranger
    -- whom no flow knows as a target and the tunnel is down or the header cannot be read; or it sends
    -- one datagram, the payload of what a client sent to the target that
    -- its header names while the tunnel is up, or what came from a sender that is no client, behind
    -- the header of a target whose address reads as that of the sender, to a client; and a datagram
    -- from an address that reads as this client's was for this target while the tunnel was up.
    pub step-Relayed :
        (start : ℕ) (es : List Event) (e : Event)
        → let r = run show resolver es (new start) in Relayed es e r (step show resolver e r)
    step-Relayed start es e =
        let sound = run-IsSound es es (new start) (Among-All (λ x. Among x es) es (λ x m. m)) tt in
        (step-Round es e (run show resolver es (new start)) sound).relayed
