-- ===== src/Api/Sessions/Guard.antt =====
-- Whom `VerifyRequest` lets in, and what setting and removing the password does to it
-- (image/agent/internal/api/sessions.go).
use expressvpn_container.Base.{
  ◌∙◌, sym, ℕ, String, true, false, Option, none, some, ◌≡◌, ◌≢◌, refl, ◌↔◌, ◌⊎◌, inl, inr, ◌≤◌,
  eq_iff, arith, Bool-cases, Option-cases,
}
use expressvpn_container.Base.Dict.{lookup}
use expressvpn_container.Api.Sessions.{
  PasswordFile, [], SessionInfo, SessionManager, Hasher, Version, version_eq, pw_version, Request,
  reads_only, csrf_matches, check_session, verify_request, verify_password, read_and_judge, judge,
  count_failure, set_password, clear_marker, disable, after_check, mark_and_remove, remove_password,
  write_marker,
}

version_eq_iff : (a b : Version) → (version_eq a b ≡ true) ↔ (a ≡ b)
version_eq_iff none b = ground arith
version_eq_iff (some a) none = ground arith
version_eq_iff (some a) (some b) = ground arith

-- The request carries a live session, and for a method that changes something the token against
-- forgery as well.
pub record LetIn (r : Request) (now : ℕ) (m : SessionManager) : Type 0 where
  pub token : String
  pub info : SessionInfo
  pub carried : r.session ≡ some token
  pub known : lookup token m.sessions ≡ some info
  pub fresh : now ≤ info.expires
  pub current : info.pw_version ≡ pw_version m
  pub unforged : (reads_only r.method ≡ true) ⊎ (r.csrf ≡ some r.csrf_header)

csrf_matches_iff : (c : Option String) (h : String) → (csrf_matches c h ≡ true) ↔ (c ≡ some h)
csrf_matches_iff none h = ground arith
csrf_matches_iff (some c) h = ground (arith, eq_iff c h)

check_session-LetIn :
    (token : String) (o : Option SessionInfo) (r : Request) (now : ℕ) (m : SessionManager)
    → r.session ≡ some token
    → lookup token m.sessions ≡ o
    → (check_session token o r now m).0 ≡ true
    → LetIn r now m
unfolding check_session
check_session-LetIn token none r now m c k h = cc
check_session-LetIn token (some i) r now m c k h = record {
  token = token;
  info = i;
  carried = c;
  known = k;
  fresh = ground arith;
  current = (version_eq_iff _ _).0 (ground arith);
  unforged = ground (arith, csrf_matches_iff r.csrf r.csrf_header);
}

LetIn-check_session :
    (r : Request) (now : ℕ) (m : SessionManager) (v : LetIn r now m)
    → (check_session v.token (some v.info) r now m).0 ≡ true
unfolding check_session
LetIn-check_session r now m v = ground (
  arith,
  v.fresh,
  version_eq_iff v.info.pw_version (pw_version m),
  v.current,
  v.unforged,
  csrf_matches_iff r.csrf r.csrf_header,
)

verify_request-carried :
    (token : String) (r : Request) (now : ℕ) (m : SessionManager)
    → r.session ≡ some token
    → (verify_request r now m).0 ≡ (check_session token (lookup token m.sessions) r now m).0
unfolding verify_request
verify_request-carried token r now m c = rw c refl

verify_request-none :
    (r : Request) (now : ℕ) (m : SessionManager)
    → r.session ≡ none
    → (verify_request r now m).0 ≡ false
unfolding verify_request
verify_request-none r now m c = rw c refl

verify_request-LetIn :
    (r : Request) (now : ℕ) (m : SessionManager) → (verify_request r now m).0 ≡ true → LetIn r now m
verify_request-LetIn r now m h = elim (Option-cases r.session) [
  | inl c ↦ cc (verify_request-none r now m c, h)
  | inr (token, c) ↦
      check_session-LetIn token _ r now m c refl (sym (verify_request-carried token r now m c) ∙ h)
]

-- `VerifyRequest` accepts a request exactly if it carries the token of a session that is known,
-- not past its time and of the present version of the password file, and, unless the method is
-- GET, HEAD or OPTIONS, has the forgery token of its cookie in its header.
pub verify_request_iff :
    (r : Request) (now : ℕ) (m : SessionManager)
    → ((verify_request r now m).0 ≡ true) ↔ LetIn r now m
verify_request_iff r now m = (
  verify_request-LetIn r now m,
  λ v.
      verify_request-carried v.token r now m v.carried ∙ rw v.known (LetIn-check_session r now m v),
)

module _ (hasher : Hasher) where
  -- What a password that was set leaves behind.
  record SetTo (salt : ℕ) (p : String) (now size : ℕ) (m m' : SessionManager) : Type 0 where
    file : m'.password ≡ some (record { phc = hasher.make salt p; modified = now; size = size })
    enabled : m'.disabled ≡ false
    sessions_same : m'.sessions ≡ m.sessions
    blocked_same : m'.blocked_to ≡ m.blocked_to

  set_password-SetTo :
      (salt : ℕ) (p : String) (now size : ℕ) (m : SessionManager) {m' : SessionManager}
      → set_password hasher salt p now size m ≡ (none, m')
      → SetTo salt p now size m m'
  unfolding set_password clear_marker
  set_password-SetTo salt p now size m h = ground arith

  -- After `SetPassword` succeeded the new password is accepted, from the moment that no pause for
  -- wrong guesses runs any more.
  pub verify_password-set_password :
      (salt : ℕ) (p : String) (now size t : ℕ) (m : SessionManager) {m' : SessionManager}
      → set_password hasher salt p now size m ≡ (none, m')
      → m.blocked_to ≤ t
      → (verify_password hasher p t m').0 ≡ (true, none)
  unfolding verify_password read_and_judge judge
  verify_password-set_password salt p now size t m h free =
      let v = set_password-SetTo salt p now size m h in
      ground (arith, v.file, v.blocked_same, hasher.check-make salt p)

  -- After `SetPassword` succeeded no request gets in by a session that was opened under another
  -- version of the password file.
  pub verify_request-set_password :
      (salt : ℕ) (p : String) (now size t : ℕ) (m : SessionManager) {m' : SessionManager}
      (r : Request) (token : String) (i : SessionInfo)
      → set_password hasher salt p now size m ≡ (none, m')
      → r.session ≡ some token
      → lookup token m.sessions ≡ some i
      → i.pw_version ≢ some (now, size)
      → (verify_request r t m').0 ≡ false
  verify_request-set_password salt p now size t m {m'} r token i h c k old =
      elim (Bool-cases (verify_request r t m').0) [
        | inl ok ↦
            let s = set_password-SetTo salt p now size m h in
            let v = verify_request-LetIn r t m' ok in
            absurd (old (ground (arith, s.file, s.sessions_same, v.carried, v.known, v.current)))
        | inr shut ↦ shut
      ]

  -- `Disable` either succeeds, and then there is no password, the protection is marked as off and
  -- no session is left; or it reports a refusal or an error, and then the password file and the
  -- sessions are what they were.
  pub disable_outcome :
      (guess : String) (now : ℕ) (m : SessionManager)
      → (((disable hasher guess now m).0 ≡ (true, none))
          × ((disable hasher guess now m).1.password ≡ none)
          × ((disable hasher guess now m).1.disabled ≡ true)
          × ((disable hasher guess now m).1.sessions ≡ []))
        ⊎ (((disable hasher guess now m).0.0 ≡ false)
            × ((disable hasher guess now m).1.password ≡ m.password)
            × ((disable hasher guess now m).1.sessions ≡ m.sessions))
  unfolding disable after_check verify_password read_and_judge judge count_failure mark_and_remove
      remove_password write_marker
  disable_outcome guess now m = ground arith

  -- `VerifyPassword` says yes only to the password whose hash is in the file, and leaves the file.
  pub verify_password_lem :
      (guess : String) (now : ℕ) (m : SessionManager)
      → ((verify_password hasher guess now m).1.password ≡ m.password)
        × ((f : PasswordFile)
            → m.password ≡ some f
            → (verify_password hasher guess now m).0.0 ≡ true
            → hasher.check f.phc guess ≡ true)
  unfolding verify_password read_and_judge judge count_failure
  verify_password_lem guess now m = (ground arith, λ f h k. ground arith)

  -- So does `Disable`.
  pub disable_lem :
      (guess : String) (now : ℕ) (m : SessionManager) (f : PasswordFile)
      → m.password ≡ some f
      → (disable hasher guess now m).0.0 ≡ true
      → hasher.check f.phc guess ≡ true
  unfolding disable after_check mark_and_remove remove_password write_marker verify_password
      read_and_judge judge count_failure
  disable_lem guess now m f h k = ground arith
