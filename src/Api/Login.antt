-- ===== src/Api/Login.antt =====
-- The handlers of image/agent/internal/api/auth_handlers.go, as what they do to the sessions and
-- what they answer.
use expressvpn_container.Base.Text.{byte_len}
use expressvpn_container.Base.{
  ℕ, String, Bool, true, false, not, ◌&&◌, Option, none, some, ltb, if◌then◌else◌,
}
use expressvpn_container.Api.Sessions.{
  SessionManager, Failure, password_set, throttled, no_file, io, Hasher, has_password,
  auth_disabled, skip, disable, set_password, verify_password, create_session, drop_session,
  drop_all_sessions, Request,
}
pub mod Outcomes
pub mod Opened

abbrev pub min_password_len : ℕ
min_password_len = 8

-- The status, the error's name, the session that a cookie sets, and whether the cookies are
-- cleared.
pub record Reply : Type 0 where
  pub status : ℕ
  pub error : String
  pub session : Option String
  pub cleared : Bool

abbrev pub refusal : ℕ → String → Reply
refusal status error = record { status = status; error = error; session = none; cleared = false }

abbrev pub welcome : String → Reply
welcome token = record { status = 200; error = ""; session = some token; cleared = false }

abbrev pub done : Reply
done = record { status = 200; error = ""; session = none; cleared = false }

abbrev pub goodbye : Reply
goodbye = record { status = 200; error = ""; session = none; cleared = true }

-- What a handler is given besides the request: the clock, the token that `CreateSession` draws,
-- the salt, and the size of a password file that is written.
pub record Draw : Type 0 where
  pub now : ℕ
  pub token : String
  pub salt : ℕ
  pub size : ℕ

-- A JSON body that could not be read is refused with its error.
module _ (hasher : Hasher) (draw : Draw) where
  enter : SessionManager → Reply × SessionManager
  enter m = (welcome draw.token, create_session draw.token draw.now m)

  after_set : Option Failure × SessionManager → Reply × SessionManager
  unfolding enter
  after_set (none, m) = enter m
  after_set (some _, m) = (refusal 500 "internal", m)

  set_new : String → SessionManager → Reply × SessionManager
  unfolding after_set
  set_new p m =
      if ltb (byte_len p) min_password_len
      then (refusal 400 "password_too_short", m)
      else after_set (set_password hasher draw.salt p draw.now draw.size m)

  set_first : Option String → SessionManager → Reply × SessionManager
  unfolding set_new
  set_first none m = (refusal 400 "invalid JSON", m)
  set_first (some p) m = set_new p m

  -- `handleAuthSetup`; `foreign` is what `crossSiteBlocked` says of the request.
  unfoldable pub handle_setup : Bool → Option String → SessionManager → Reply × SessionManager
  unfolding set_first
  handle_setup foreign body m =
      let (off, m1) = auth_disabled m in
      if off && foreign
      then (refusal 403 "cross_site_blocked", m1)
      else if has_password m1
      then (refusal 409 "password already set", m1)
      else set_first body m1

  after_skip : Option Failure × SessionManager → Reply × SessionManager
  after_skip (none, m) = (done, m)
  after_skip (some _, m) = (refusal 500 "internal", m)

  -- `handleAuthSkip`
  unfoldable pub handle_skip : SessionManager → Reply × SessionManager
  unfolding after_skip
  handle_skip m =
      let (off, m1) = auth_disabled m in
      if has_password m
      then (refusal 409 "password already set", m)
      else if off
      then (refusal 409 "already disabled", m1)
      else after_skip (skip m1)

  -- The refusals that the password checks share.
  unchecked : Option Failure → Reply
  unchecked none = refusal 401 "wrong_password"
  unchecked (some throttled) = refusal 429 "too_many_attempts"
  unchecked (some _) = refusal 500 "internal"

  after_disable : (Bool × Option Failure) × SessionManager → Reply × SessionManager
  unfolding unchecked
  after_disable ((true, none), m) = (goodbye, m)
  after_disable ((_, e), m) = (unchecked e, m)

  disable_by : Option String → SessionManager → Reply × SessionManager
  unfolding after_disable
  disable_by none m = (refusal 400 "invalid JSON", m)
  disable_by (some p) m = after_disable (disable hasher p draw.now m)

  -- `handleAuthDisable`
  unfoldable pub handle_disable : Option String → SessionManager → Reply × SessionManager
  unfolding disable_by
  handle_disable body m =
      if not (has_password m) then (refusal 409 "no password set", m) else disable_by body m

  after_login : (Bool × Option Failure) × SessionManager → Reply × SessionManager
  unfolding unchecked enter
  after_login ((true, none), m) = enter m
  after_login ((_, e), m) = (unchecked e, m)

  login_by : Option String → SessionManager → Reply × SessionManager
  unfolding after_login
  login_by none m = (refusal 400 "invalid JSON", m)
  login_by (some p) m = after_login (verify_password hasher p draw.now m)

  -- `handleAuthLogin`
  unfoldable pub handle_login : Option String → SessionManager → Reply × SessionManager
  unfolding login_by
  handle_login body m =
      if not (has_password m) then (refusal 409 "setup_required", m) else login_by body m

  change_checked : String → (Bool × Option Failure) × SessionManager → Reply × SessionManager
  unfolding set_new
  change_checked new ((true, none), m) = set_new new m
  change_checked new ((_, some throttled), m) = (refusal 429 "too_many_attempts", m)
  change_checked new (_, m) = (refusal 401 "wrong_password", m)

  -- `handleAuthPassword`, with the current and the new password.
  unfoldable pub handle_password :
      Option (String × String) → SessionManager → Reply × SessionManager
  unfolding change_checked
  handle_password none m = (refusal 400 "invalid JSON", m)
  handle_password (some (current, new)) m =
      change_checked new (verify_password hasher current draw.now m)

-- `handleAuthLogout`
unfoldable pub handle_logout : Request → SessionManager → Reply × SessionManager
handle_logout r m = elim r.session [
  | none ↦ (goodbye, m)
  | some token ↦ (goodbye, drop_session token m)
]

-- `handleAuthLogoutAll`
unfoldable pub handle_logout_all : SessionManager → Reply × SessionManager
handle_logout_all m = (goodbye, drop_all_sessions m)
