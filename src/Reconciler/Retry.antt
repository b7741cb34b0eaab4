-- ===== src/Reconciler/Retry.antt =====
-- When the loop of image/agent/internal/reconciler/reconciler.go connects again, and when it rests.
use native.Mathlib.Nat.{pow-succ'}
use expressvpn_container.Base.{
  ℕ, zero, suc, ◌+◌, ◌-◌, ◌*◌, ◌^◌, ◌≤◌, ◌<◌, String, Option, none, some, List, ◌∷◌, ◌≡◌, refl, ◌⊎◌,
  inl, inr, ltb, leb, eq_iff, str_eq, ◌&&◌, if_both, if◌then◌else◌, arith,
}
use expressvpn_container.Config.{Config}
use expressvpn_container.State.{Error, TriState, conn, connected, error, is_unknown}
use expressvpn_container.Xvpn.Protocol.{effective_protocol}
use expressvpn_container.Xvpn.Errors.{Err}
use expressvpn_container.Reconciler.World.{
  update, Reconciler, Call, connect, disconnect, World, Drivers, fail, err_code, wait_udp,
}
use expressvpn_container.Reconciler.Connecting.{
  mark_connecting, after_connected, second, max_reconnect_failures, backoff_of, count_failure,
  on_connect_failure, finish_connect, attempt, want_connection, must_wait, spec_of, settle_udp,
  set_protocol,
}

power : (n : ℕ) → 2 ^ suc n ≡ 2 * 2 ^ n
power n = pow-succ' 2 n

sub_one : (n : ℕ) → (suc (suc n) - 1 ≡ suc n) × (suc n - 1 ≡ n)
sub_one n = omega arith

-- The first pause is a second; each later one is twice the one before it, up to a minute.
pub backoff_doubles :
    (n : ℕ)
    → (backoff_of 1 ≡ second)
      × (backoff_of (suc (suc n)) ≡ (
          if ltb (60 * second) (2 * backoff_of (suc n))
          then 60 * second
          else 2 * backoff_of (suc n)))
unfolding backoff_of
backoff_doubles n = (refl, ground (arith, sub_one n, power n))

power_pos : (n : ℕ) → 1 ≤ 2 ^ n
power_pos zero = omega arith
power_pos (suc n) = omega (arith, power n, power_pos n)

-- A pause lasts from a second to a minute.
backoff_bounds : (n : ℕ) → (second ≤ backoff_of n) × (backoff_of n ≤ 60 * second)
unfolding backoff_of
backoff_bounds n = ground (arith, power_pos (n - 1))

-- After a failure that is not the tenth in a row the next attempt is due between a second and a
-- minute later.
pub count_failure_due :
    (now : ℕ) (r : Reconciler)
    → r.connect_failures + 1 < max_reconnect_failures
    → ((count_failure now r).connect_failures ≡ r.connect_failures + 1)
      × (now + second ≤ (count_failure now r).next_retry_at)
      × ((count_failure now r).next_retry_at ≤ now + 60 * second)
unfolding count_failure
count_failure_due now r h = ground (arith, backoff_bounds (r.connect_failures + 1))

-- The requested protocol, and the one handed to the driver where UDP stands as told.
abbrev pub requested_by : Config → String
requested_by c = if str_eq c.expressvpn.protocol "" then "auto" else c.expressvpn.protocol

abbrev pub protocol_for : Config → TriState → String
protocol_for c udp = (effective_protocol (requested_by c) c.uplink.mode udp).0

module _ (d : Drivers) where
  -- While no attempt is forced, and the failures have reached ten or the time of the next attempt
  -- has not come, a pass that wants a connection calls no driver and leaves the snapshot alone.
  pub want_connection_waits :
      (c : Config) (w : World)
      → w.r.force_reason ≡ ""
      → (max_reconnect_failures ≤ w.r.connect_failures) ⊎ (d.now w.calls ≤ w.r.next_retry_at)
      → want_connection d c w ≡ w
  unfolding want_connection must_wait
  want_connection_waits c w f h = ground (arith, eq_iff w.r.force_reason "")

  -- The protocol that the driver is handed, the snapshot and the history, at the moment when an
  -- attempt calls `Connect`.
  abbrev pub at_connect : Config → World → String × World
  at_connect c w =
      let (udp, w1) = settle_udp d c (update mark_connecting w) in
      (
        protocol_for c udp,
        update
            (set_protocol (requested_by c) (effective_protocol (requested_by c) c.uplink.mode udp))
            w1,
      )

  -- What `Connect` of the driver answers to the configured location and this protocol.
  abbrev pub connect_answer : Config → World → Option Err
  connect_answer c w =
      let (protocol, w1) = at_connect c w in
      (d.connection w1.calls c.expressvpn.location protocol w1.st).0

  -- The history of an attempt up to the answer of `Connect`: one question about UDP at most, and
  -- one call of `Connect`.
  abbrev pub Called : Config → World → List Call → Type 0
  Called c w cs =
      (before : List Call) × ((before ≡ w.calls) ⊎ (before ≡ wait_udp ∷ w.calls))
      × (cs ≡ connect c.expressvpn.location (at_connect c w).0 ∷ before)

  -- What an attempt from `w` leaves behind when it succeeded.
  pub record Succeeded (c : Config) (w w' : World) : Type 0 where
    pub shown : conn w'.st ≡ connected
    pub no_failures : (w'.r.connect_failures ≡ 0) × (w'.r.next_retry_at ≡ 0)
    pub no_error : w'.st.last_error ≡ none
    pub remembered : w'.r.applied_conn ≡ some (spec_of c)
    pub made : Called c w w'.calls

  -- And when it failed by `e`: the driver is told to disconnect, and the error is published under
  -- the code of an exhausted counter from the tenth failure on.
  pub record Failed (c : Config) (e : Err) (w w' : World) : Type 0 where
    pub shown : conn w'.st ≡ error
    pub counted : w'.r.connect_failures ≡ w.r.connect_failures + 1
    pub published :
        (x : Error) × (w'.st.last_error ≡ some x)
        × (x.message ≡ d.error_text e)
        × (x.code ≡ (
            if leb max_reconnect_failures (w.r.connect_failures + 1)
            then "reconnect_exhausted"
            else err_code e "connect_failed"))
    pub made : (cs : List Call) × Called c w cs × (w'.calls ≡ disconnect ∷ cs)

  -- By the driver's answer.
  abbrev pub Outcome : Config → Option Err → World → World → Type 0
  Outcome c none w w' = Succeeded c w w'
  Outcome c (some e) w w' = Failed c e w w'

  settle_udp-failures :
      (c : Config) (w : World) → (settle_udp d c w).1.r.connect_failures ≡ w.r.connect_failures
  unfolding settle_udp
  settle_udp-failures c w = ground arith

  settle_udp-calls :
      (c : Config) (w : World)
      → ((settle_udp d c w).1.calls ≡ w.calls) ⊎ ((settle_udp d c w).1.calls ≡ wait_udp ∷ w.calls)
  unfolding settle_udp
  settle_udp-calls c w =
      let asks =
        str_eq c.uplink.mode "socks5"
        && str_eq c.uplink.socks5.udp "auto"
        && is_unknown w.st.uplink.udp_supported in
      let P : TriState × World → Type 0 =
        λ x. (x.1.calls ≡ w.calls) ⊎ (x.1.calls ≡ wait_udp ∷ w.calls) in
      if_both P asks (if_both P (is_unknown (d.udp w.calls w.st).0) (inr refl) (inr refl))
        (inl refl)

  on_connect_failure-Failed :
      (c : Config) (e : Err) (w w1 : World)
      → Called c w w1.calls
      → w1.r.connect_failures ≡ w.r.connect_failures
      → Failed c e w (on_connect_failure d e w1)
  unfolding on_connect_failure count_failure fail
  on_connect_failure-Failed c e w w1 h n = record {
    shown = ground arith;
    counted = ground arith;
    published = (
      record {
        code =
            if leb max_reconnect_failures (w.r.connect_failures + 1)
            then "reconnect_exhausted"
            else err_code e "connect_failed";
        message = d.error_text e;
        at = d.now (disconnect ∷ w1.calls);
      },
      ground arith,
      refl,
      refl,
    );
    made = (w1.calls, h, ground arith);
  }

  finish_connect-Outcome :
      (c : Config) (o : Option Err) (w w1 : World)
      → Called c w w1.calls
      → w1.r.connect_failures ≡ w.r.connect_failures
      → Outcome c o w (finish_connect d (spec_of c) o w1)
  unfolding finish_connect after_connected
  finish_connect-Outcome c none w w1 h n = record {
    shown = refl;
    no_failures = (refl, refl);
    no_error = refl;
    remembered = refl;
    made = h;
  }
  finish_connect-Outcome c (some e) w w1 h n = on_connect_failure-Failed c e w w1 h n

  -- An attempt asks about UDP once at most and then calls `Connect` once, with the configured
  -- location and the protocol chosen for the configuration, and its end is the one that the driver's
  -- answer calls for. If that is no error, the attempt ends connected, with the counter, the time of
  -- the next attempt and the published error cleared, and calls nothing more. If it is an error, the
  -- attempt tells the driver to disconnect and ends in the error state, with one more failure and
  -- this error published.
  pub attempt-Outcome : (c : Config) (w : World) → Outcome c (connect_answer c w) w (attempt d c w)
  unfolding attempt spec_of
  attempt-Outcome c w =
      let w0 = update mark_connecting w in
      finish_connect-Outcome c (connect_answer c w) w _ (_, settle_udp-calls c w0, refl)
        (settle_udp-failures c w0)
