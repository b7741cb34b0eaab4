-- ===== src/Api/Server/Routing.antt =====
-- `New` of image/agent/internal/api/server.go: which handler a request reaches, and whether it passes
-- `requireAuth` before. `handleAuthStatus` is that of auth_handlers.go.
use expressvpn_container.Base.{
  String, Bool, true, false, not, ◌&&◌, ◌||◌, Option, none, some, if◌then◌else◌,
}
use expressvpn_container.Config.{redacted}
use expressvpn_container.Config.Json.{Json}
use expressvpn_container.Config.Store.{Library}
use expressvpn_container.Api.Sessions.{SessionManager, Hasher, has_password, auth_disabled}
use expressvpn_container.Api.Access.{
  Access, Call, Decision, passed, cross_site, unauthorized, cross_site_blocked, authorized,
  require_auth,
}
use expressvpn_container.Api.Login
use expressvpn_container.Api.Login.{
  handle_setup, handle_skip, handle_disable, handle_login, handle_password, handle_logout,
  handle_logout_all,
}
use expressvpn_container.Api.Server.{
  Server, Reply, reply, problem, standing, signed, shown, token, healthy, snapshot, versions,
  locations, streamed, archive, page, ActionBody, LogsRequest, Draw, Texts, handle_action,
  handle_logs, handle_config_patch, handle_operation, handle_token_rotate,
}

-- A request by the pattern of `New` that it fits, as it is read; `other` fits none but the one of
-- the pages. A body of a patch may be unreadable, or no JSON, and one of the password's handlers
-- may be unreadable.
pub data Request : Type 0 where
  healthz state_get events_get config_get version_get locations_get : Request
  logs_stream token_get token_rotate diagnostics_get : Request
  config_patch : Option (Option Json) → Request
  action : String → ActionBody → Request
  operation_get : String → Request
  logs_get : LogsRequest → Request
  auth_status auth_skip auth_logout auth_logout_all : Request
  auth_setup auth_disable auth_login : Option String → Request
  auth_password : Option (String × String) → Request
  other : Request

-- The patterns that `New` adds where there is a session manager.
abbrev pub needs_sessions : Request → Bool
needs_sessions auth_status = true
needs_sessions auth_skip = true
needs_sessions auth_logout = true
needs_sessions auth_logout_all = true
needs_sessions (auth_setup body) = true
needs_sessions (auth_disable body) = true
needs_sessions (auth_login body) = true
needs_sessions (auth_password body) = true
needs_sessions _ = false

-- `New` wraps every handler but these in `requireAuth`.
abbrev pub is_open : Request → Bool
is_open healthz = true
is_open auth_status = true
is_open auth_skip = true
is_open (auth_setup body) = true
is_open (auth_login body) = true
is_open other = true
is_open _ = false

abbrev pub has_sessions : Option SessionManager → Bool
has_sessions none = false
has_sessions (some m) = true

-- The pattern that is there for a request.
unfoldable pub routed : Server → Request → Request
routed s r = if needs_sessions r && not (has_sessions s.access.sessions) then other else r

abbrev pub with_manager : SessionManager → Server → Server
with_manager m s = record s { access = record s.access { sessions = some m } }

module _ (url_host : String → Option String) (equal_fold : String → String → Bool)
    (hasher : Hasher) where
  -- `spaHandler`, or without pages the answer of the mux; that of a known path with another method,
  -- 405, is not told apart.
  unfoldable pub other_page : Server → Reply × Server
  other_page s = (if s.pages then reply 200 page else reply 404 (problem "page not found"), s)

  -- A handler of the password.
  unfoldable pub by_manager :
      (SessionManager → Login.Reply × SessionManager)
      → Option SessionManager
      → Server
      → Reply × Server
  unfolding other_page
  by_manager f none s = other_page s
  by_manager f (some m) s = let (a, m') = f m in (reply a.status (signed a), with_manager m' s)

  unfoldable pub status_by : Call → Draw → Option SessionManager → Server → Reply × Server
  unfolding other_page
  status_by c draw none s = other_page s
  status_by c draw (some m) s =
      let (off, m1) = auth_disabled m in
      let a1 = record s.access { sessions = some m1 } in
      let (let_in, a2) = authorized url_host equal_fold c draw.now a1 in
      (
        reply 200 (standing (has_password m1) off (off || let_in)),
        record s { access = if off then a1 else a2 },
      )

  -- `handleAuthStatus`
  unfoldable pub handle_status : Call → Draw → Server → Reply × Server
  unfolding status_by
  handle_status c draw s = status_by c draw s.access.sessions s

  abbrev pub answer_by : (SessionManager → Login.Reply × SessionManager) → Server → Reply × Server
  answer_by f s = by_manager f s.access.sessions s

  module _ (lib : Library) (texts : Texts) where
    -- The handler of a pattern.
    unfoldable pub handle : Draw → Call → Request → Server → Reply × Server
    unfolding by_manager
    handle draw c healthz s = (reply 200 healthy, s)
    handle draw c state_get s = (reply 200 snapshot, s)
    handle draw c events_get s = (reply 200 streamed, s)
    handle draw c config_get s = (reply 200 (shown (redacted s.config.cur)), s)
    handle draw c version_get s = (reply 200 versions, s)
    handle draw c locations_get s =
        (if s.actions then reply 200 locations else reply 503 (problem "actions unavailable"), s)
    handle draw c logs_stream s = (reply 200 streamed, s)
    handle draw c token_get s = (reply 200 (token s.access.tokens.token), s)
    handle draw c token_rotate s = handle_token_rotate draw s
    handle draw c diagnostics_get s = (reply 200 archive, s)
    handle draw c (config_patch body) s = handle_config_patch lib draw body s
    handle draw c (action name body) s = handle_action texts draw name body s
    handle draw c (operation_get id) s = (handle_operation id s, s)
    handle draw c (logs_get q) s = (handle_logs texts q s, s)
    handle draw c auth_status s = handle_status c draw s
    handle draw c auth_skip s = answer_by (handle_skip hasher draw.login) s
    handle draw c auth_logout s = answer_by (handle_logout c.request) s
    handle draw c auth_logout_all s = answer_by handle_logout_all s
    handle draw c (auth_setup body) s =
        answer_by (handle_setup hasher draw.login (cross_site_blocked url_host equal_fold c) body) s
    handle draw c (auth_disable body) s = answer_by (handle_disable hasher draw.login body) s
    handle draw c (auth_login body) s = answer_by (handle_login hasher draw.login body) s
    handle draw c (auth_password body) s = answer_by (handle_password hasher draw.login body) s
    handle draw c other s = other_page s

    unfoldable pub admit : Draw → Call → Request → Decision × Access → Server → Reply × Server
    unfolding handle
    admit draw c r (passed, a) s = handle draw c r (record s { access = a })
    admit draw c r (cross_site, a) s =
        (reply 403 (problem "cross_site_blocked"), record s { access = a })
    admit draw c r (unauthorized, a) s =
        (reply 401 (problem "unauthorized"), record s { access = a })

    unfoldable pub by_pattern : Draw → Call → Request → Server → Reply × Server
    unfolding admit
    by_pattern draw c r s =
        if is_open r
        then handle draw c r s
        else admit draw c r (require_auth url_host equal_fold c draw.now s.access) s

    -- A request from its arrival on.
    unfoldable pub serve : Draw → Call → Request → Server → Reply × Server
    unfolding by_pattern
    serve draw c r s = by_pattern draw c (routed s r) s
