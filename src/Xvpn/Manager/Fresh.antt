-- ===== src/Xvpn/Manager/Fresh.antt =====
-- Sessions begin at a disconnected daemon and end at a connected one, for
-- image/agent/internal/xvpn/manager.go.
pub mod Established
use expressvpn_container.Base.{
  ap, ◌∙◌, sym, subst, ltb, if_both, ℕ, suc, zero, String, Bool, true, false, Option, none, some,
  List, [], ◌∷◌, ◌≡◌, refl, ◌⊎◌, inl, inr, str_eq, if◌then◌else◌, arith, Bool-cases, ◌*◌, ◌==◌,
}
use expressvpn_container.Xvpn.Errors.{Err}
use expressvpn_container.Xvpn.Parse.{parse_value}
use expressvpn_container.Xvpn.Cli
use expressvpn_container.Xvpn.Cli.{
  pure, ◌>>=◌, ◌>>◌, after, Host, Session, Command, ctl, pause, M, Result, good, bad, raw_at,
  state_asked, raw_connection_state_lem, run_ctl, raw_connection_state,
}
use expressvpn_container.Xvpn.Manager.{
  retry_delay, connect_retries, hopeless, attempts, judge, try_once, after_command, after_wait,
  value_or_empty, protocol_to_cli, after_connect, set_protocol, wait_connected, ensure_disconnected,
  wait_disconnected, disconnect, Wait, connected_result, disconnected_result, paused, poll, reached,
  reads_connected, reads_disconnected, connect,
}

abbrev pub state_query : Command
state_query = ctl "get" ("get" ∷ "connectionstate" ∷ []) 15

good_inj : {A : Type 0} {a b : A} → good a ≡ good b → a ≡ b
good_inj e = cc e

module _ (h : Host) where
  -- The newest command asked the daemon for its state, and the answer passes the test.
  abbrev pub Read : (Result String → Bool) → List Command → Type 0
  Read test log = (rest : List Command) × (log ≡ state_query ∷ rest) × (test (raw_at h rest) ≡ true)

  -- A session may start: the daemon has just been seen disconnected, but for the choice of the
  -- protocol.
  abbrev pub MayStart : List Command → Type 0
  MayStart log =
      Read reads_disconnected log
      ⊎ ((p : String) × (rest : List Command) × (log
            ≡ ctl "set" ("set" ∷ "protocol" ∷ p ∷ []) 15 ∷ rest)
          × Read reads_disconnected rest)

  -- Every `connect` of the history was given when a session might start.
  abbrev pub Fresh : List Command → Type 0
  Fresh [] = Unit
  Fresh (pause d ∷ log) = Fresh log
  Fresh (ctl action args t ∷ log) = (str_eq action "connect" ≡ true → MayStart log) × Fresh log

  -- What a command leaves: a fresh history, and what holds of a good result.
  abbrev Ends : {A : Type 0} → (A → List Command → Type 0) → Result A × Session → Type 0
  Ends {A} P p = Fresh p.1.log × ((a : A) → p.0 ≡ good a → P a p.1.log)

  after-Ends :
      {A B : Type 0} (P : A → List Command → Type 0) (Q : B → List Command → Type 0) (f : A → M B)
      (r : Result A) (w : Session)
      → Ends P (r, w)
      → ((a : A) (w' : Session) → Fresh w'.log → P a w'.log → Ends Q (f a w'))
      → Ends Q (after f r w)
  after-Ends P Q f (good a) w (v, p) k = k a w v (p a refl)
  after-Ends P Q f (bad e) w (v, p) k = (v, λ b x. cc x)

  run_ctl-Ends :
      (action : String) (t : ℕ) (args : List String) (w : Session)
      → str_eq action "connect" ≡ false
      → Fresh w.log
      → Ends (λ _ log. log ≡ ctl action args t ∷ w.log) (run_ctl h action t args w)
  unfolding run_ctl
  run_ctl-Ends action t args w e v = (((λ k. cc (e, k)), v), λ a k. refl)

  -- Going on after a command with a step that does nothing but change the result or the snapshot.
  run_ctl_then :
      {B : Type 0} (action : String) (t : ℕ) (args : List String) (f : String → M B) (w : Session)
      → str_eq action "connect" ≡ false
      → ((s : String) (x : Session) → (f s x).1.log ≡ x.log)
      → Fresh w.log
      → Ends (λ _ log. log ≡ ctl action args t ∷ w.log) ((run_ctl h action t args >>= f) w)
  run_ctl_then action t args f w e same v =
      after-Ends (λ _ log. log ≡ ctl action args t ∷ w.log)
        (λ _ log. log ≡ ctl action args t ∷ w.log) f (run_ctl h action t args w).0
        (run_ctl h action t args w).1 (run_ctl-Ends action t args w e v)
        (λ s x u k.
          let e : (f s x).1.log ≡ ctl action args t ∷ w.log = same s x ∙ k in
          (subst Fresh (sym (same s x)) u, λ b _. e))

  poll-Fresh :
      (enough : Result String → Bool) (gap deadline n : ℕ) (w : Session)
      → Fresh w.log
      → Fresh (poll h enough gap deadline n w).1.log
        × ((poll h enough gap deadline n w).0 ≡ reached
            → Read enough (poll h enough gap deadline n w).1.log)
  unfolding poll
  poll-Fresh enough gap deadline zero w v = (v, λ k. cc k)
  poll-Fresh enough gap deadline (suc n) w v =
      let asked : Fresh (state_asked h w).log = ((λ k. cc k), v) in
      let ih = poll-Fresh enough gap deadline n (paused gap (state_asked h w)) asked in
      rw (raw_connection_state_lem h w) (elim (Bool-cases (enough (raw_at h w.log))) [
        | inl e ↦ rw e (asked, λ _. (w.log, refl, e))
        | inr e ↦ rw e (
            if_both (λ (p : Wait × Session). Fresh p.1.log × (p.0 ≡ reached → Read enough p.1.log))
              (ltb deadline (h.now (state_asked h w).log)) (asked, λ k. cc k)
              (if_both
                (λ (p : Wait × Session). Fresh p.1.log × (p.0 ≡ reached → Read enough p.1.log))
                (h.cancelled (state_asked h w).log) (asked, λ k. cc k) ih))
      ])

  connected_result-Ends :
      (x : Wait) (w : Session)
      → Fresh w.log × (x ≡ reached → Read reads_connected w.log)
      → Ends (λ _ log. Read reads_connected log) (connected_result h (x, w))
  unfolding connected_result
  connected_result-Ends reached w (v, k) = (v, λ _ _. k refl)
  connected_result-Ends _ w (v, k) = (v, λ _ e. cc e)

  disconnected_result-Ends :
      (x : Wait) (w : Session)
      → Fresh w.log × (x ≡ reached → Read reads_disconnected w.log)
      → Ends (λ _ log. Read reads_disconnected log) (disconnected_result h (x, w))
  unfolding disconnected_result
  disconnected_result-Ends reached w (v, k) = (v, λ _ _. k refl)
  disconnected_result-Ends _ w (v, k) = (v, λ _ e. cc e)

  wait_disconnected-Ends :
      (w : Session)
      → Fresh w.log
      → Ends (λ _ log. Read reads_disconnected log) (wait_disconnected h w)
  unfolding wait_disconnected
  wait_disconnected-Ends w v =
      disconnected_result-Ends _ _ (poll-Fresh reads_disconnected _ _ _ w v)

  wait_connected-Ends :
      (w : Session) → Fresh w.log → Ends (λ _ log. Read reads_connected log) (wait_connected h w)
  unfolding wait_connected
  wait_connected-Ends w v = connected_result-Ends _ _ (poll-Fresh reads_connected _ _ _ w v)

  disconnect-Ends :
      (w : Session) → Fresh w.log → Ends (λ _ log. Read reads_disconnected log) (disconnect h w)
  unfolding disconnect Cli.disconnect
  disconnect-Ends w v =
      after-Ends (λ _ log. log ≡ ctl "disconnect" ("disconnect" ∷ []) 15 ∷ w.log)
        (λ _ log. Read reads_disconnected log) _ (Cli.disconnect h w).0 (Cli.disconnect h w).1
        (run_ctl_then "disconnect" 15 ("disconnect" ∷ []) (λ _. pure tt) w refl (λ s x. refl) v)
        (λ a w' u _. wait_disconnected-Ends _ u)

  ensure_disconnected-Ends :
      (w : Session)
      → Fresh w.log
      → Ends (λ _ log. Read reads_disconnected log) (ensure_disconnected h w)
  unfolding ensure_disconnected
  ensure_disconnected-Ends w v =
      let asked : Fresh (state_asked h w).log = ((λ k. cc k), v) in
      rw (raw_connection_state_lem h w) (elim (Bool-cases (reads_disconnected (raw_at h w.log))) [
        | inl e ↦ rw e (asked, λ _ _. (w.log, refl, e))
        | inr e ↦ rw e (disconnect-Ends (state_asked h w) asked)
      ])

  set_protocol-Ends :
      (protocol : String) (w : Session)
      → Fresh w.log
      → Read reads_disconnected w.log
      → Ends (λ _ log. MayStart log) (set_protocol h protocol w)
  unfolding set_protocol Cli.set
  set_protocol-Ends protocol w v seen = elim (Bool-cases (str_eq protocol "")) [
    | inl e ↦ rw e (v, λ _ _. inl seen)
    | inr e ↦
        let (u, k) =
          run_ctl_then "set" 15 ("set" ∷ "protocol" ∷ protocol_to_cli protocol ∷ []) (λ _. pure tt)
            w refl (λ s x. refl) v in
        rw e (u, λ a g. inr (protocol_to_cli protocol, w.log, k a g, seen))
  ]
