-- ===== src/Proxy/Relay.antt =====
-- The UDP relay of image/agent/internal/proxy/udp.go: the loop over datagrams and its table of
-- flows.
pub mod Flows
pub mod Idle
use expressvpn_container.Base.Dict.{Dict, lookup, insert}
use expressvpn_container.Base.{
  ℕ, zero, suc, ◌+◌, ◌-◌, ◌*◌, ◌%◌, ◌≤◌, ◌<◌, String, Bool, true, false, not, ◌&&◌, ◌||◌, Option,
  none, some, List, [], ◌∷◌, ◌++◌, map, reverse, ◌≡◌, ◌≢◌, ◌↔◌, ◌⊎◌, inl, inr, refl, sym, ap, ◌∙◌,
  subst, ◌==◌, ltb, leb, str_eq, eq_iff, if◌then◌else◌, arith, Bool-cases, Option-cases, if_both,
  if_either, length, take, drop, get_or, set, replicate, filter,
}
use expressvpn_container.Base.Text.{Bytes}
use expressvpn_container.Proxy.Address.{Ip, Endpoint}
use expressvpn_container.Proxy.Datagram.{parse_udp_header, pack_udp_header}

-- `targets` holds, for the text of each target's address, the header of its replies.
pub record Flow : Type 0 where
  pub client : Endpoint
  pub targets : Dict Bytes
  pub last : ℕ

-- A datagram that the relay sent.
pub record Sent : Type 0 where
  pub body : Bytes
  pub dest : Endpoint

-- The table by the text of the client's address, what was sent (newest first), the two counters and
-- the time of the last cleanup.
pub record Relay : Type 0 where
  pub flows : Dict Flow
  pub sent : List Sent
  pub bytes_in : ℕ
  pub bytes_out : ℕ
  pub last_cleanup : ℕ

-- One round of the loop: a read that failed, or a datagram, with the time. `gate` says whether the
-- tunnel is up at that moment.
pub data Event : Type 0 where
  read_failed : ℕ → Event
  datagram : ℕ → Bool → Endpoint → Bytes → Event

-- `newUDPRelayOn`, at the time when its loop starts
abbrev pub new : ℕ → Relay
new now = record { flows = []; sent = []; bytes_in = 0; bytes_out = 0; last_cleanup = now }

abbrev pub minute : ℕ
minute = 60 * 1000000000

abbrev pub flow_idle : ℕ
flow_idle = 5 * minute

-- `expire`
unfoldable pub expire : ℕ → Dict Flow → Dict Flow
expire now [] = []
expire now ((k, f) ∷ fs) =
    let rest = expire now fs in if ltb flow_idle (now - f.last) then rest else (k, f) ∷ rest

-- The first flow that knows the address, with the header for it. Go visits the table in any order.
unfoldable pub find_flow : String → Dict Flow → Option (Flow × Bytes)
find_flow key [] = none
find_flow key ((k, f) ∷ fs) = elim (lookup key f.targets) [
  | some hdr ↦ some (f, hdr)
  | none ↦ find_flow key fs
]

-- `show` is the text of an address, and `resolver` that of the proxy.
module _ (show : Endpoint → String) (resolver : Bytes → Option Ip) where
  send : Bytes → Endpoint → Relay → Relay
  send body dest r = record r { sent = record { body = body; dest = dest } ∷ r.sent }

  -- A reply of a target goes to the client behind its header.
  give_back : Bytes → Flow × Bytes → Relay → Relay
  unfolding send
  give_back body (f, hdr) r = record (send (hdr ++ body) f.client r) {
    bytes_out = r.bytes_out + length body;
  }

  pass_on : Bytes → ℕ → Endpoint → Relay → Relay
  unfolding send
  pass_on body n target r = record (send (drop n body) target r) {
    bytes_in = r.bytes_in + (length body - n);
  }

  know : Endpoint → Flow → Flow
  know target f = record f { targets = insert (show target) (pack_udp_header target) f.targets }

  -- A new client's first datagram.
  open_flow : ℕ → Endpoint → Bytes → Option (ℕ × Endpoint) → Relay → Relay
  unfolding pass_on know
  open_flow now from body none r = r
  open_flow now from body (some (n, target)) r =
      let f = know target (record { client = from; targets = []; last = now }) in
      pass_on body n target (record r { flows = insert (show from) f r.flows })

  from_stranger : ℕ → Bool → Endpoint → Bytes → Option (Flow × Bytes) → Relay → Relay
  unfolding give_back open_flow
  from_stranger now gate from body (some found) r = give_back body found r
  from_stranger now gate from body none r =
      if not gate then r else open_flow now from body (parse_udp_header resolver body) r

  known_target : Endpoint → Option Bytes → Flow → Flow
  unfolding know
  known_target target (some _) f = f
  known_target target none f = know target f

  -- A datagram of a known client.
  go_on : ℕ → Endpoint → Bytes → Flow → Option (ℕ × Endpoint) → Relay → Relay
  unfolding pass_on known_target
  go_on now from body f none r = r
  go_on now from body f (some (n, target)) r =
      let f' = known_target target (lookup (show target) f.targets) (record f { last = now }) in
      pass_on body n target (record r { flows = insert (show from) f' r.flows })

  by_sender : ℕ → Bool → Endpoint → Bytes → Option Flow → Relay → Relay
  unfolding from_stranger go_on
  by_sender now gate from body none r =
      from_stranger now gate from body (find_flow (show from) r.flows) r
  by_sender now gate from body (some f) r =
      if not gate then r else go_on now from body f (parse_udp_header resolver body) r

  -- One round of `run`
  unfoldable pub step : Event → Relay → Relay
  unfolding by_sender
  step (read_failed now) r =
      if ltb minute (now - r.last_cleanup)
      then record r { flows = expire now r.flows; last_cleanup = now }
      else r
  step (datagram now gate from body) r = by_sender now gate from body (lookup (show from) r.flows) r

  unfoldable pub run : List Event → Relay → Relay
  unfolding step
  run [] r = r
  run (e ∷ es) r = run es (step e r)
