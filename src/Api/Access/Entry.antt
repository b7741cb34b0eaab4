-- ===== src/Api/Access/Entry.antt =====
-- On what grounds a request passes `requireAuth` (image/agent/internal/api/server.go).
use expressvpn_container.Base.{
  ◌⊎◌, ℕ, String, Bool, true, false, Option, none, some, ◌≡◌, refl, sym, subst, inl, inr, str_eq,
  eq_iff, arith, Bool-cases,
}
use expressvpn_container.Base.Strings.{trim_space, cut_prefix}
use expressvpn_container.Api.Sessions.{SessionManager, auth_disabled}
use expressvpn_container.Api.Sessions.Guard.{LetIn, verify_request_iff}
use expressvpn_container.Api.Access.{
  TokenStore, verify_token, Call, Access, passed, cross_site_blocked, bearer, by_session,
  authorized, unprotected, decide, require_auth,
}

some_inj : {A : Type 0} {a b : A} → some a ≡ some b → a ≡ b
some_inj e = cc e

module _ (url_host : String → Option String) (equal_fold : String → String → Bool) where
  -- The protection is switched off, there is no password, and no other site's page sent the
  -- request; or the request bears the current token; or it bears no token and a live session.
  pub data Grounds (c : Call) (now : ℕ) (a : Access) : Type 0 where
    protection_off :
        (m : SessionManager)
        → a.sessions ≡ some m
        → m.password ≡ none
        → m.disabled ≡ true
        → cross_site_blocked url_host equal_fold c ≡ false
        → Grounds c now a
    by_token :
        (t : String)
        → cut_prefix c.authorization "Bearer " ≡ some t
        → trim_space t ≡ a.tokens.token
        → Grounds c now a
    by_live_session :
        (m : SessionManager)
        → a.sessions ≡ some m
        → c.authorization ≡ ""
        → LetIn c.request now (auth_disabled m).1
        → Grounds c now a

  bearer_token :
      (o : Option String) (s : TokenStore)
      → bearer url_host equal_fold o s ≡ true
      → (t : String) × (o ≡ some t) × (trim_space t ≡ s.token)
  unfolding bearer verify_token
  bearer_token none s h = cc h
  bearer_token (some t) s h = (t, refl, ground (arith, eq_iff s.token (trim_space t)))

  decide_passed :
      (b : Bool) (a : Access) → (decide url_host equal_fold (b, a)).0 ≡ passed → b ≡ true
  unfolding decide
  decide_passed true a h = refl
  decide_passed false a h = cc h

  -- The sessions that `authorized` looks at are those of `m`, if there are any.
  abbrev Seen : Option SessionManager → ℕ → Call → Type 0
  Seen none now c = ⊥
  Seen (some m) now c = LetIn c.request now m

  by_session-Seen :
      (o : Option SessionManager) (c : Call) (now : ℕ)
      → (by_session url_host equal_fold o c.request now).0 ≡ true
      → Seen o now c
  unfolding by_session
  by_session-Seen none c now h = cc h
  by_session-Seen (some m) c now h = (verify_request_iff c.request now m).0 h

  authorized_grounds :
      (c : Call) (now : ℕ) (a : Access)
      → (authorized url_host equal_fold c now a).0 ≡ true
      → ((t : String) × (cut_prefix c.authorization "Bearer " ≡ some t)
          × (trim_space t ≡ a.tokens.token))
        ⊎ ((c.authorization ≡ "") × Seen a.sessions now c)
  unfolding authorized
  authorized_grounds c now a h = elim (Bool-cases (str_eq c.authorization "")) [
    | inl e ↦ inr ((eq_iff _ _).0 e, by_session-Seen a.sessions c now (ground arith))
    | inr e ↦ inl (bearer_token _ a.tokens (ground arith))
  ]

  -- What `authorized` is given stems from the manager `n` of the server.
  abbrev Stems : Access → SessionManager → Type 0
  Stems a m = (n : SessionManager) × (a.sessions ≡ some n) × ((auth_disabled n).1 ≡ m)

  live :
      (c : Call) (now : ℕ) (a : Access) (o : Option SessionManager)
      → c.authorization ≡ ""
      → ((m : SessionManager) → o ≡ some m → Stems a m)
      → Seen o now c
      → Grounds c now a
  live c now a none e back seen = absurd seen
  live c now a (some m) e back seen =
      let (n, k, same) = back m refl in
      by_live_session n k e (subst (λ x. LetIn c.request now x) (sym same) seen)

  decided :
      (c : Call) (now : ℕ) (a : Access) (o : Option SessionManager)
      → ((m : SessionManager) → o ≡ some m → Stems a m)
      → (authorized url_host equal_fold c now (record a { sessions = o })).0 ≡ true
      → Grounds c now a
  decided c now a o back h = elim (authorized_grounds c now (record a { sessions = o }) h) [
    | inl (t, e, k) ↦ by_token t e k
    | inr (e, seen) ↦ live c now a o e back seen
  ]

  auth_disabled_on :
      (m : SessionManager) → (auth_disabled m).0 ≡ true → (m.password ≡ none) × (m.disabled ≡ true)
  unfolding auth_disabled
  auth_disabled_on m h = ground arith

  by_manager :
      (c : Call) (now : ℕ) (a : Access) (o : Option SessionManager)
      → a.sessions ≡ o
      → (require_auth url_host equal_fold c now (record a { sessions = o })).0 ≡ passed
      → Grounds c now a
  unfolding require_auth unprotected
  by_manager c now a none e h = decided c now a none (λ m k. cc k) (decide_passed _ _ h)
  by_manager c now a (some m) e h = elim (Bool-cases (auth_disabled m).0) [
    | inl on ↦
        let (nothing, marked) = auth_disabled_on m on in
        protection_off m e nothing marked (ground arith)
    | inr off ↦
        decided c now a (some (auth_disabled m).1) (λ x k. (m, e, some_inj k))
          (decide_passed _ _ (rw off at h))
  ]

  -- A request passes `requireAuth` only on one of these grounds.
  pub require_auth-Grounds :
      (c : Call) (now : ℕ) (a : Access)
      → (require_auth url_host equal_fold c now a).0 ≡ passed
      → Grounds c now a
  require_auth-Grounds c now a h = by_manager c now a a.sessions refl h
