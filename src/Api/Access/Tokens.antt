-- ===== src/Api/Access/Tokens.antt =====
-- `requireAuth` of image/agent/internal/api/server.go leaves the token and the password
-- alone.
use expressvpn_container.Base.{
  ℕ, String, Bool, true, false, not, Option, none, some, ◌≡◌, refl, sym, subst, ap, ◌∙◌, str_eq,
  if_both, arith,
}
use expressvpn_container.Api.Access.{
  Call, Access, Decision, by_session, authorized, unprotected, decide, require_auth,
}
use expressvpn_container.Api.Sessions.{
  SessionManager, PasswordFile, Request, auth_disabled, drop_marker, verify_request, drop_session,
}

module _ (url_host : String → Option String) (equal_fold : String → String → Bool) where
  pub authorized-tokens :
      (c : Call) (now : ℕ) (a : Access)
      → (authorized url_host equal_fold c now a).1.tokens ≡ a.tokens
  unfolding authorized
  authorized-tokens c now a =
      if_both (λ (x : Bool × Access). x.1.tokens ≡ a.tokens) (not (str_eq c.authorization "")) refl
        refl

  decide_keeps : (x : Bool × Access) → (decide url_host equal_fold x).1 ≡ x.1
  unfolding decide
  decide_keeps (true, a) = refl
  decide_keeps (false, a) = refl

  pub require_auth-tokens :
      (c : Call) (now : ℕ) (a : Access)
      → (require_auth url_host equal_fold c now a).1.tokens ≡ a.tokens
  unfolding require_auth
  require_auth-tokens c now a =
      let (off, ms) = unprotected url_host equal_fold a.sessions in
      let a1 = record a { sessions = ms } in
      if_both (λ (x : Decision × Access). x.1.tokens ≡ a.tokens) off refl
        (ap (λ (x : Access). x.tokens) (decide_keeps (authorized url_host equal_fold c now a1))
          ∙ authorized-tokens c now a1)

-- There is a session manager, and its password file is this one.
abbrev pub HasFile : PasswordFile → Option SessionManager → Type 0
HasFile f none = ⊥
HasFile f (some m) = m.password ≡ some f

pub auth_disabled-password : (m : SessionManager) → (auth_disabled m).1.password ≡ m.password
unfolding auth_disabled drop_marker
auth_disabled-password m = ground arith

verify_request-password :
    (r : Request) (now : ℕ) (m : SessionManager) → (verify_request r now m).1.password ≡ m.password
unfolding verify_request drop_session
verify_request-password r now m = ground arith

module _ (url_host : String → Option String) (equal_fold : String → String → Bool)
    (f : PasswordFile) where
  by_session-HasFile :
      (o : Option SessionManager) (r : Request) (now : ℕ)
      → HasFile f o
      → HasFile f (by_session url_host equal_fold o r now).1
  unfolding by_session
  by_session-HasFile none r now h = h
  by_session-HasFile (some m) r now h = verify_request-password r now m ∙ h

  pub authorized-HasFile :
      (c : Call) (now : ℕ) (a : Access)
      → HasFile f a.sessions
      → HasFile f (authorized url_host equal_fold c now a).1.sessions
  unfolding authorized
  authorized-HasFile c now a h =
      if_both (λ (x : Bool × Access). HasFile f x.1.sessions) (not (str_eq c.authorization "")) h
        (by_session-HasFile a.sessions c.request now h)

  unprotected-HasFile :
      (o : Option SessionManager) → HasFile f o → HasFile f (unprotected url_host equal_fold o).1
  unfolding unprotected
  unprotected-HasFile none h = h
  unprotected-HasFile (some m) h = auth_disabled-password m ∙ h

  pub require_auth-HasFile :
      (c : Call) (now : ℕ) (a : Access)
      → HasFile f a.sessions
      → HasFile f (require_auth url_host equal_fold c now a).1.sessions
  unfolding require_auth
  require_auth-HasFile c now a h =
      let (off, ms) = unprotected url_host equal_fold a.sessions in
      let a1 = record a { sessions = ms } in
      let kept = unprotected-HasFile a.sessions h in
      if_both (λ (x : Decision × Access). HasFile f x.1.sessions) off kept
        (subst (λ (x : Access). HasFile f x.sessions)
          (sym (decide_keeps url_host equal_fold (authorized url_host equal_fold c now a1)))
          (authorized-HasFile c now a1 kept))
