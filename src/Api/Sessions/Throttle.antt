-- ===== src/Api/Sessions/Throttle.antt =====
-- Guessing the password: the throttling of image/agent/internal/api/sessions.go.
use expressvpn_container.Base.{
  ◌∙◌, sym, subst, ℕ, ◌+◌, ◌≤◌, ◌<◌, String, false, some, List, [], ◌∷◌, ◌++◌, ◌≡◌, length, All,
  arith,
}
use expressvpn_container.Api.Sessions.{
  SessionManager, PasswordFile, Hasher, throttled, throttle_after, throttle_for, verify_password,
  read_and_judge, judge, count_failure,
}

module _ (hasher : Hasher) where
  -- Guesses with their times, one after the other.
  abbrev pub guess_all : List (String × ℕ) → SessionManager → SessionManager
  guess_all [] m = m
  guess_all ((p, t) ∷ gs) m = guess_all gs (verify_password hasher p t m).1

  -- A wrong guess, at a time at or after `free`.
  abbrev pub Wrong : PasswordFile → ℕ → String × ℕ → Type 0
  Wrong f free (p, t) = (hasher.check f.phc p ≡ false) × (free ≤ t)

  bad_guess :
      (f : PasswordFile) (p : String) (t : ℕ) (m : SessionManager)
      → m.password ≡ some f
      → Wrong f m.blocked_to (p, t)
      → (verify_password hasher p t m).1 ≡ count_failure t m
  unfolding verify_password read_and_judge judge
  bad_guess f p t m h w = ground (arith, w.0, w.1)

  count_failure_below :
      (t : ℕ) (m : SessionManager)
      → m.failures + 1 < throttle_after
      → count_failure t m ≡ record m { failures = m.failures + 1 }
  unfolding count_failure
  count_failure_below t m h = ground arith

  verify_password-failures :
      (p : String) (t : ℕ) (m : SessionManager)
      → m.failures < throttle_after
      → (verify_password hasher p t m).1.failures < throttle_after
  unfolding verify_password read_and_judge judge count_failure
  verify_password-failures p t m h = ground arith

  -- The wrong guess that fills the counter closes the door for half a minute.
  pub guess_all_throttles :
      (f : PasswordFile) (gs : List (String × ℕ)) (p q : String) (t u : ℕ) (m : SessionManager)
      → m.password ≡ some f
      → All (Wrong f m.blocked_to) gs
      → Wrong f m.blocked_to (p, t)
      → m.failures + length gs + 1 ≡ throttle_after
      → u < t + throttle_for
      → (verify_password hasher q u (guess_all (gs ++ ((p, t) ∷ [])) m)).0 ≡ (false, some throttled)
  unfolding verify_password count_failure
  guess_all_throttles f [] p q t u m h ws w n soon = rw (bad_guess f p t m h w) (ground arith)
  guess_all_throttles f ((a, s) ∷ gs) p q t u m h (wa, ws) w n soon =
      subst
        (λ x.
          (verify_password hasher q u (guess_all (gs ++ ((p, t) ∷ [])) x)).0
          ≡ (false, some throttled))
        (sym (bad_guess f a s m h wa ∙ count_failure_below s m (omega (arith, n))))
        (guess_all_throttles f gs p q t u (record m { failures = m.failures + 1 }) h ws w
          (omega (arith, n)) soon)

  -- The counter stays below five whatever is guessed.
  pub guess_all-failures :
      (gs : List (String × ℕ)) (m : SessionManager)
      → m.failures < throttle_after
      → (guess_all gs m).failures < throttle_after
  guess_all-failures [] m h = h
  guess_all-failures ((p, t) ∷ gs) m h = guess_all-failures gs _ (verify_password-failures p t m h)
