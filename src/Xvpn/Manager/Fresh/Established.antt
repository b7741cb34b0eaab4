-- ===== src/Xvpn/Manager/Fresh/Established.antt =====
-- What `Connect` of image/agent/internal/xvpn/manager.go leaves in the history of commands.
use expressvpn_container.Base.{
  ap, ◌∙◌, sym, subst, if_both, ℕ, suc, zero, String, Option, none, some, List, [], ◌∷◌, ◌≡◌, refl,
  str_eq, if◌then◌else◌, ◌*◌, ◌==◌,
}
use expressvpn_container.Xvpn.Errors.{Err}
use expressvpn_container.Xvpn.Parse.{parse_value}
use expressvpn_container.Xvpn.Cli
use expressvpn_container.Xvpn.Cli.{
  pure, ◌>>=◌, ◌>>◌, after, Host, Session, Command, ctl, pause, M, Result, good, bad, raw_at,
  state_asked, raw_connection_state_lem, run_ctl, raw_connection_state,
}
use expressvpn_container.Xvpn.Manager.{
  retry_delay, connect_retries, hopeless, attempts, judge, try_once, after_command, after_wait,
  value_or_empty, after_connect, set_protocol, ensure_disconnected, paused, reads_connected,
  reads_disconnected, connect,
}
use expressvpn_container.Xvpn.Manager.Fresh.{
  Read, MayStart, Fresh, Ends, after-Ends, good_inj, wait_connected-Ends, ensure_disconnected-Ends,
  set_protocol-Ends,
}

module _ (h : Host) where
  -- What a session that was reported as established leaves in the history.
  abbrev pub Confirmed : List Command → Type 0
  Confirmed log =
      (rest : List Command) × (log
        ≡ ctl "get" ("get" ∷ "pubip" ∷ []) 15 ∷ ctl "get" ("get" ∷ "region" ∷ []) 15 ∷ rest)
      × Read h reads_connected rest

  after-log :
      {A B : Type 0} (f : A → B) (r : Result A) (w : Session)
      → (after (λ a. pure (f a)) r w).1.log ≡ w.log
  after-log f (good a) w = refl
  after-log f (bad e) w = refl

  get-log :
      (what : String) (w : Session)
      → (Cli.get h what w).1.log ≡ ctl "get" ("get" ∷ what ∷ []) 15 ∷ w.log
  unfolding Cli.get run_ctl
  get-log what w = after-log parse_value _ _

  after_connect-log :
      (w : Session)
      → (after_connect h w).1.log
        ≡ ctl "get" ("get" ∷ "pubip" ∷ []) 15 ∷ ctl "get" ("get" ∷ "region" ∷ []) 15 ∷ w.log
  unfolding after_connect value_or_empty
  after_connect-log w =
      get-log "pubip" _ ∙ ap (◌∷◌ (ctl "get" ("get" ∷ "pubip" ∷ []) 15)) (get-log "region" w)

  after_connect-Confirmed :
      (w : Session)
      → Fresh h w.log
      → Read h reads_connected w.log
      → Fresh h (after_connect h w).1.log × Confirmed (after_connect h w).1.log
  after_connect-Confirmed w v seen = (
    subst (Fresh h) (sym (after_connect-log w)) ((λ k. cc k), ((λ k. cc k), v)),
    (w.log, after_connect-log w, seen),
  )

  abbrev Established : Option Err → List Command → Type 0
  Established none log = Confirmed log
  Established (some e) log = Unit

  after_wait-Ends :
      (r : Result (Unit {0})) (w : Session)
      → Ends h (λ _ log. Read h reads_connected log) (r, w)
      → Ends h Established (after_wait h (r, w))
  unfolding after_wait
  after_wait-Ends (good _) w (v, k) =
      let (u, c) = after_connect-Confirmed w v (k tt refl) in
      (u, λ o e. subst (λ o. Established o (after_connect h w).1.log) (good_inj e) c)
  after_wait-Ends (bad x) w (v, k) = (v, λ o e. subst (λ o. Established o w.log) (good_inj e) tt)

  after_command-Ends :
      (r : Result (Unit {0})) (w : Session)
      → Fresh h w.log
      → Ends h Established (after_command h (r, w))
  unfolding after_command
  after_command-Ends (good _) w v = after_wait-Ends _ _ (wait_connected-Ends h w v)
  after_command-Ends (bad x) w v = (v, λ o e. subst (λ o. Established o w.log) (good_inj e) tt)

  connect-log :
      (location : String) (w : Session)
      → (Cli.connect h location 45 w).1.log
        ≡ ctl "connect" ("connect" ∷ (if str_eq location "" then [] else location ∷ [])) 45 ∷ w.log
  unfolding Cli.connect run_ctl
  connect-log location w = after-log {A = String} (λ _. tt) _ _

  connect_command-Fresh :
      (location : String) (w : Session)
      → Fresh h w.log
      → MayStart h w.log
      → Fresh h (Cli.connect h location 45 w).1.log
  connect_command-Fresh location w v start =
      let given : Fresh h (
          ctl "connect" ("connect" ∷ (if str_eq location "" then [] else location ∷ [])) 45
          ∷ w.log) =
        ((λ _. start), v) in
      subst (Fresh h) (sym (connect-log location w)) given

  try_once-Ends :
      (location protocol : String) (w : Session)
      → Fresh h w.log
      → Ends h Established (try_once h location protocol w)
  unfolding try_once
  try_once-Ends location protocol w v =
      after-Ends h (λ _ log. Read h reads_disconnected log) Established _
        (ensure_disconnected h w).0 (ensure_disconnected h w).1 (ensure_disconnected-Ends h w v)
        (λ _ w1 v1 seen.
          after-Ends h (λ _ log. MayStart h log) Established _ (set_protocol h protocol w1).0
            (set_protocol h protocol w1).1 (set_protocol-Ends h protocol w1 v1 seen)
            (λ _ w2 v2 start. after_command-Ends _ _ (connect_command-Fresh location w2 v2 start)))

  abbrev Done : Result (Unit {0}) × Session → Type 0
  Done p = Ends h (λ _ log. Confirmed log) p

  judge-Done :
      (left delay : ℕ) (again : M (Unit {0})) (r : Result (Option Err)) (w : Session)
      → Ends h Established (r, w)
      → ((x : Session) → Fresh h x.log → Done (again x))
      → Done (judge h left delay again (r, w))
  unfolding judge
  judge-Done left delay again (bad e) w (v, k) f = (v, λ a x. cc x)
  judge-Done left delay again (good none) w (v, k) f = (v, λ a x. k none refl)
  judge-Done left delay again (good (some e)) w (v, k) f =
      if_both Done (hopeless e) (v, λ a x. cc x)
        (if_both Done (left == 0) (v, λ a x. cc x)
          (if_both Done (h.cancelled w.log) (v, λ a x. cc x) (f (paused delay w) v)))

  attempts-Done :
      (location protocol : String) (n delay : ℕ) (w : Session)
      → Fresh h w.log
      → Done (attempts h location protocol n delay w)
  unfolding attempts
  attempts-Done location protocol zero delay w v = (v, λ a x. cc x)
  attempts-Done location protocol (suc n) delay w v =
      judge-Done n delay (attempts h location protocol n (delay * 2))
        (try_once h location protocol w).0 (try_once h location protocol w).1
        (try_once-Ends location protocol w v) (attempts-Done location protocol n (delay * 2))

  -- Every `connect` that `Connect` gives to the daemon comes right after the daemon reported that
  -- it is disconnected, but for the choice of the protocol; and when `Connect` reports success,
  -- the daemon has reported that it is connected, after which only the region and the public
  -- address were asked for.
  pub connect-Fresh :
      (location protocol : String) (w : Session)
      → Fresh h w.log
      → Fresh h (connect h location protocol w).1.log
        × ((connect h location protocol w).0 ≡ good tt
            → Confirmed (connect h location protocol w).1.log)
  unfolding connect
  connect-Fresh location protocol w v =
      let (u, k) = attempts-Done location protocol connect_retries retry_delay w v in
      (u, λ e. k tt e)
