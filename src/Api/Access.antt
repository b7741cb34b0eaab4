-- ===== src/Api/Access.antt =====
-- Who may call the API: `requireAuth`, `crossSiteBlocked` and `authorized` of
-- image/agent/internal/api/server.go, and the token of token.go.
use Prim.Native.String.{◌++◌ as cat}
use expressvpn_container.Base.{
  ℕ, String, Bool, true, false, not, ◌&&◌, ◌||◌, Option, none, some, ltb, str_eq, if◌then◌else◌,
}
use expressvpn_container.Base.Text.{byte_len}
use expressvpn_container.Base.Strings.{trim_space, cut_prefix}
use expressvpn_container.Api.Sessions.{
  SessionManager, Request, reads_only, auth_disabled, verify_request,
}
pub mod Entry
pub mod Tokens

-- The token in memory and in its file.
pub record TokenStore : Type 0 where
  pub token : String
  pub file : Option String

-- What reading the token's file gives.
pub data Reading : Type 0 where
  content : String → Reading
  missing unreadable : Reading

-- `generate`, with the random digits and whether the file could be written; a failed write leaves
-- the old file.
unfoldable pub generate : String → Bool → TokenStore → Bool × TokenStore
generate digits written s =
    let token = cat "dtr_" digits in
    if written then (true, record { token = token; file = some (cat token "\n") }) else (false, s)

started : Bool × TokenStore → Option TokenStore
started (true, s) = some s
started (false, s) = none

abbrev with_file : Option String → TokenStore
with_file f = record { token = ""; file = f }

-- `NewTokenStore`; none is an error.
unfoldable pub new_token_store : Reading → String → Bool → Option TokenStore
unfolding started
new_token_store (content raw) digits written =
    if ltb (byte_len (trim_space raw)) 32
    then started (generate digits written (with_file (some raw)))
    else some (record { token = trim_space raw; file = some raw })
new_token_store missing digits written = started (generate digits written (with_file none))
new_token_store unreadable digits written = none

-- `Verify`
unfoldable pub verify_token : String → TokenStore → Bool
verify_token presented s =
    if str_eq s.token "" || str_eq presented "" then false else str_eq s.token presented

-- `Rotate`
abbrev pub rotate : String → Bool → TokenStore → Bool × TokenStore
rotate = generate

-- A request as the guards read it; an absent header is empty.
pub record Call : Type 0 where
  pub request : Request
  pub authorization : String
  pub sec_fetch_site : String
  pub origin : String
  pub host : String

-- A server may have no session manager.
pub record Access : Type 0 where
  pub tokens : TokenStore
  pub sessions : Option SessionManager

pub data Decision : Type 0 where
  passed cross_site unauthorized : Decision

-- `url_host` is the host of a URL that parses, `equal_fold` is `strings.EqualFold`.
module _ (url_host : String → Option String) (equal_fold : String → String → Bool) where
  foreign_origin : Option String → String → Bool
  foreign_origin none host = true
  foreign_origin (some h) host = not (equal_fold h host)

  -- `crossSiteBlocked`
  unfoldable pub cross_site_blocked : Call → Bool
  unfolding foreign_origin
  cross_site_blocked c =
      if reads_only c.request.method
      then false
      else if not (str_eq c.sec_fetch_site "")
      then str_eq c.sec_fetch_site "cross-site"
      else if not (str_eq c.origin "")
      then foreign_origin (url_host c.origin) c.host
      else false

  bearer : Option String → TokenStore → Bool
  bearer none s = false
  bearer (some t) s = verify_token (trim_space t) s

  by_session : Option SessionManager → Request → ℕ → Bool × Option SessionManager
  by_session none r now = (false, none)
  by_session (some m) r now = let (let_in, m') = verify_request r now m in (let_in, some m')

  -- `authorized`
  unfoldable pub authorized : Call → ℕ → Access → Bool × Access
  unfolding bearer by_session
  authorized c now a =
      let (let_in, ms) = by_session a.sessions c.request now in
      if not (str_eq c.authorization "")
      then (bearer (cut_prefix c.authorization "Bearer ") a.tokens, a)
      else (let_in, record a { sessions = ms })

  unprotected : Option SessionManager → Bool × Option SessionManager
  unprotected none = (false, none)
  unprotected (some m) = let (off, m') = auth_disabled m in (off, some m')

  decide : Bool × Access → Decision × Access
  decide (true, a) = (passed, a)
  decide (false, a) = (unauthorized, a)

  -- `requireAuth`
  unfoldable pub require_auth : Call → ℕ → Access → Decision × Access
  unfolding unprotected decide
  require_auth c now a =
      let (off, ms) = unprotected a.sessions in
      let a' = record a { sessions = ms } in
      if off
      then (if cross_site_blocked c then cross_site else passed, a')
      else decide (authorized c now a')
