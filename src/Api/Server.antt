-- ===== src/Api/Server.antt =====
-- The handlers of image/agent/internal/api/server.go, as what they answer and what they change.
pub mod Routing
pub mod Entered
pub mod Secrets
pub mod Journal
use expressvpn_container.Base.{
  ℕ, zero, suc, ◌+◌, ◌-◌, ◌*◌, ◌%◌, ◌≤◌, ◌<◌, String, Bool, true, false, not, ◌&&◌, ◌||◌, Option,
  none, some, List, [], ◌∷◌, ◌++◌, map, reverse, ◌≡◌, ◌≢◌, ◌↔◌, ◌⊎◌, inl, inr, refl, sym, ap, ◌∙◌,
  subst, ◌==◌, ltb, leb, str_eq, eq_iff, if◌then◌else◌, arith, Bool-cases, Option-cases, if_both,
  if_either, length, take, drop, get_or, set, replicate, filter,
}
use Prim.Native.String.{◌++◌ as cat}
use expressvpn_container.Base.{any}
use expressvpn_container.Base.Dict.{Dict, lookup}
use expressvpn_container.Base.Int.{ℤ, pos, negsuc}
use expressvpn_container.Config.{Config, FieldError, redacted}
use expressvpn_container.Config.Json.{Json}
use expressvpn_container.Config.Store.{
  Store, Library, Patched, applied, refused, save_failed, apply_merge_patch,
}
use expressvpn_container.Logs.Buffer.{Buffer, Entry, query}
use expressvpn_container.Logs.Redactor.{add}
use expressvpn_container.Api.Operations.{
  OpManager, Operation, Started, conflict, operation, start, get,
}
use expressvpn_container.Api.Access.{Access, rotate}
use expressvpn_container.Api.Login

-- What an operation runs.
pub data Task : Type 0 where
  connect : String → Task
  disconnect reconnect : Task
  login : String → Task
  logout refresh_locations selfcheck probe_uplink : Task

-- The parts that the handlers use, the operations started so far with what they run (none is a
-- nil function), and whether there are actions and pages.
pub record Server : Type 0 where
  pub access : Access
  pub config : Store
  pub logs : Buffer
  pub ops : OpManager
  pub tasks : List (String × Option Task)
  pub actions : Bool
  pub pages : Bool

-- The bodies of the answers.
pub data Body : Type 0 where
  problem : String → Body
  invalid : FieldError → Body
  conflicting accepted token : String → Body
  found : Operation → Body
  patched : List String → Body
  shown : Config → Body
  entries : List Entry → Body
  standing : Bool → Bool → Bool → Body
  signed : Login.Reply → Body
  healthy snapshot versions locations streamed archive page : Body

pub record Reply : Type 0 where
  pub status : ℕ
  pub body : Body

abbrev pub reply : ℕ → Body → Reply
reply status body = record { status = status; body = body }

-- `actionResources`
abbrev pub action_resources : Dict String
action_resources =
    ("connect", "connection")
    ∷ ("disconnect", "connection")
    ∷ ("reconnect", "connection")
    ∷ ("login", "account")
    ∷ ("logout", "account")
    ∷ ("refresh-locations", "locations")
    ∷ ("selfcheck", "selfcheck")
    ∷ ("probe-uplink", "uplink")
    ∷ []

pub record Sent : Type 0 where
  pub location : String
  pub activation_code : String

-- A body that is missing, empty or cannot be read is taken as empty.
pub data ActionBody : Type 0 where
  empty malformed : ActionBody
  sent : Sent → ActionBody

abbrev pub decoded : ActionBody → Option Sent
decoded empty = some (record { location = ""; activation_code = "" })
decoded malformed = none
decoded (sent b) = some b

-- The switch of `handleAction`.
unfoldable pub task_of : String → Sent → Option Task
task_of name b =
    if str_eq name "connect"
    then some (connect b.location)
    else if str_eq name "disconnect"
    then some disconnect
    else if str_eq name "reconnect"
    then some reconnect
    else if str_eq name "login"
    then some (login b.activation_code)
    else if str_eq name "logout"
    then some logout
    else if str_eq name "refresh-locations"
    then some refresh_locations
    else if str_eq name "selfcheck"
    then some selfcheck
    else if str_eq name "probe-uplink"
    then some probe_uplink
    else none

abbrev pub components : List String
components = "agent" ∷ "expressvpn" ∷ "uplink" ∷ "proxy" ∷ "killswitch" ∷ []

-- The parameters of a request for log entries; an absent one is empty.
pub record LogsRequest : Type 0 where
  pub component : String
  pub since : String
  pub limit : String

pub data Parsed : Type 0 where
  bad : String → Parsed
  query_of : String → ℕ → ℕ → Parsed

abbrev pub default_log_limit : ℕ
default_log_limit = 500

-- What the environment adds: the clock, the drawn id and digits, whether a file is written, and what
-- the handlers of auth_handlers.go are given.
pub record Draw : Type 0 where
  pub now : ℕ
  pub id : String
  pub digits : String
  pub written : Bool
  pub login : Login.Draw

-- `time.Parse` and `strconv.Atoi`, and the number of bytes of a text.
pub record Texts : Type 0 where
  pub time_of : String → Option ℕ
  pub int_of : String → Option ℤ
  pub quoted : String → String
  pub len : String → ℕ

module _ (texts : Texts) where
  limit_in : Option ℤ → Option ℕ
  limit_in none = none
  limit_in (some (pos n)) = if ltb n 1 || ltb 5000 n then none else some n
  limit_in (some (negsuc n)) = none

  with_limit : Option ℕ → String → ℕ → Parsed
  with_limit none component since = bad "limit must be 1..5000"
  with_limit (some n) component since = query_of component since n

  with_since : Option ℕ → LogsRequest → Parsed
  unfolding limit_in with_limit
  with_since none q = bad "since must be RFC3339"
  with_since (some t) q =
      with_limit
        (if not (str_eq q.limit "")
          then limit_in (texts.int_of q.limit)
          else some default_log_limit)
        q.component t

  -- `parseLogsQuery`
  unfoldable pub parse_logs_query : LogsRequest → Parsed
  unfolding with_since
  parse_logs_query q =
      if not (str_eq q.component "") && not (any (str_eq q.component) components)
      then bad (cat "unknown component " (texts.quoted q.component))
      else with_since (if not (str_eq q.since "") then texts.time_of q.since else some 0) q

  logs_by : Parsed → Server → Reply
  logs_by (bad e) s = reply 400 (problem e)
  logs_by (query_of component since limit) s =
      reply 200 (entries (query component since limit s.logs))

  -- `handleLogs`
  unfoldable pub handle_logs : LogsRequest → Server → Reply
  unfolding logs_by
  handle_logs q s = logs_by (parse_logs_query q) s

  -- The code is registered as a secret before anything else is done with it.
  unfoldable pub register : String → Server → Server
  register code s =
      if not (str_eq code "")
      then record s { logs = record s.logs { red = add texts.len code s.logs.red } }
      else s

  by_start : Option Task → Started × OpManager → Server → Reply × Server
  by_start task (conflict id, ops) s = (reply 409 (conflicting id), record s { ops = ops })
  by_start task (operation op, ops) s =
      (reply 202 (accepted op.id), record s { ops = ops; tasks = (op.id, task) ∷ s.tasks })

  launch : Draw → String → String → Sent → Server → Reply × Server
  unfolding by_start
  launch draw name resource b s =
      if s.actions
      then by_start (task_of name b) (start draw.id name resource draw.now s.ops) s
      else (reply 503 (problem "actions unavailable"), s)

  by_body : Draw → String → String → Option Sent → Server → Reply × Server
  unfolding launch
  by_body draw name resource none s = (reply 400 (problem "invalid JSON body"), s)
  by_body draw name resource (some b) s = launch draw name resource b (register b.activation_code s)

  by_resource : Draw → String → Option String → ActionBody → Server → Reply × Server
  unfolding by_body
  by_resource draw name none body s = (reply 404 (problem (cat "unknown action " name)), s)
  by_resource draw name (some resource) body s = by_body draw name resource (decoded body) s

  -- `handleAction`
  unfoldable pub handle_action : Draw → String → ActionBody → Server → Reply × Server
  unfolding by_resource
  handle_action draw name body s = by_resource draw name (lookup name action_resources) body s

after_patch : Patched × Store → Server → Reply × Server
after_patch (applied ks, c) s = (reply 200 (patched ks), record s { config = c })
after_patch (refused e, c) s = (reply 400 (invalid e), record s { config = c })
after_patch (save_failed, c) s = (reply 500 (problem "save"), record s { config = c })

-- `handleConfigPatch`
unfoldable pub handle_config_patch : Library → Draw → Option (Option Json) → Server → Reply × Server
unfolding after_patch
handle_config_patch lib draw none s = (reply 400 (problem "read body"), s)
handle_config_patch lib draw (some body) s =
    after_patch (apply_merge_patch lib draw.written body s.config) s

by_operation : Option Operation → Reply
by_operation none = reply 404 (problem "unknown operation")
by_operation (some op) = reply 200 (found op)

-- `handleOperation`
unfoldable pub handle_operation : String → Server → Reply
unfolding by_operation
handle_operation id s = by_operation (get id s.ops)

-- `handleTokenRotate`
unfoldable pub handle_token_rotate : Draw → Server → Reply × Server
handle_token_rotate draw s =
    let (done, t) = rotate draw.digits draw.written s.access.tokens in
    (
      if done then reply 200 (token t.token) else reply 500 (problem "write"),
      record s { access = record s.access { tokens = t } },
    )
