-- ===== src/Xvpn/Manager/Waits.antt =====
-- The waits of image/agent/internal/xvpn/manager.go end.
use expressvpn_container.Base.{
  inr, inl, [], Bool-cases, String, ℕ, suc, zero, ◌+◌, ◌*◌, ◌/◌, ◌≤◌, ◌<◌, Bool, List, ◌∷◌, ◌≢◌,
  ltb, arith,
}
use expressvpn_container.Xvpn.Cli.{
  ctl, raw_at, raw_connection_state_lem, state_asked, Host, Session, Command, pause, Result,
}
use expressvpn_container.Xvpn.Manager.{
  out_of_rounds, paused, poll, connect_timeout, connect_poll, disconnect_timeout, disconnect_poll,
  reads_connected, reads_disconnected,
}

-- What `time` documents: the clock does not go back, and a pause lasts as long as it is asked to.
pub record ClockRuns (h : Host) : Type 0 where
  pub forward : (c : Command) (log : List Command) → h.now log ≤ h.now (c ∷ log)
  pub pauses : (d : ℕ) (log : List Command) → h.now log + d ≤ h.now (pause d ∷ log)

module _ (h : Host) (clock : ClockRuns h) where
  -- What follows a round that did not end the wait.
  round :
      (enough : Result String → Bool) (gap deadline n : ℕ) (w : Session)
      → (h.now w.log ≤ deadline
          → (poll h enough gap deadline n (paused gap (state_asked h w))).0 ≢ out_of_rounds)
      → (poll h enough gap deadline (suc n) w).0 ≢ out_of_rounds
  unfolding poll
  round enough gap deadline n w rest =
      rw (raw_connection_state_lem h w) (elim (Bool-cases (enough (raw_at h w.log))) [
        | inl e ↦ rw e (λ k. cc k)
        | inr e ↦ rw e (elim (Bool-cases (ltb deadline (h.now (state_asked h w).log))) [
          | inl e ↦ rw e (λ k. cc k)
          | inr early ↦ rw early (elim (Bool-cases (h.cancelled (state_asked h w).log)) [
            | inl e ↦ rw e (λ k. cc k)
            | inr e ↦ rw e (
                rest (
                  ground (
                    arith,
                    clock.forward (ctl "get" ("get" ∷ "connectionstate" ∷ []) 15) w.log,
                    early,
                  )))
          ])
        ])
      ])

  poll_within :
      (enough : Result String → Bool) (gap deadline k : ℕ) (w : Session)
      → deadline < h.now w.log + k * gap
      → (poll h enough gap deadline (suc k) w).0 ≢ out_of_rounds
  poll_within enough gap deadline zero w lt =
      round enough gap deadline zero w (λ le. absurd (omega (arith, lt, le)))
  poll_within enough gap deadline (suc k) w lt = round enough gap deadline (suc k) w (λ _.
      poll_within enough gap deadline k (paused gap (state_asked h w)) (
        ground (
          arith,
          lt,
          clock.forward (ctl "get" ("get" ∷ "connectionstate" ∷ []) 15) w.log,
          clock.pauses gap (state_asked h w).log,
        )))

  -- If the clock runs, the waits for Connected and for Disconnected end within their rounds: the
  -- daemon says so, the time is up or the context is cancelled.
  pub poll_ends :
      (w : Session)
      → ((poll h reads_connected connect_poll
            (h.now w.log + connect_timeout)
            (connect_timeout / connect_poll + 2)
            w).0
          ≢ out_of_rounds)
        × ((poll h reads_disconnected disconnect_poll
              (h.now w.log + disconnect_timeout)
              (disconnect_timeout / disconnect_poll + 2)
              w).0
            ≢ out_of_rounds)
  poll_ends w = (
    poll_within reads_connected connect_poll _ 91 w (omega arith),
    poll_within reads_disconnected disconnect_poll _ 51 w (omega arith),
  )
