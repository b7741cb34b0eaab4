-- ===== src/Tests/Server.antt =====
-- Requests to the handlers of image/agent/internal/api/server.go.
use expressvpn_container.Base.{◌≤◌, true, none, some, [], ◌∷◌, ◌≡◌, ◌⊎◌, refl, str_eq, length}
use Prim.Native.String.{len}
use expressvpn_container.Base.Dict.{lookup, insert}
use expressvpn_container.Logs.Buffer.{Buffer, Entry, append}
use expressvpn_container.Logs.Buffer
use expressvpn_container.Api.Operations
use expressvpn_container.Api.Access.Entry.{Grounds}
use expressvpn_container.Api.Server.{
  Server, reply, entries, accepted, conflicting, signed, ActionBody, sent, Draw, Texts, LogsRequest,
  handle_action, handle_logs, register, parse_logs_query,
}
use expressvpn_container.Api.Server.Routing.{Request, serve, routed}
use expressvpn_container.Api.Sessions.{verify_password}
use expressvpn_container.Api.Login.{refusal, handle_login}
use expressvpn_container.Tests.Api.{plain, fresh_manager}
use expressvpn_container.Tests.Entry
use expressvpn_container.Logs.Redactor.{redact, add}
use expressvpn_container.Base.Strings.{replace_all}
use expressvpn_container.Api.Server.Entered.{Outside, serve-Grounds}
use expressvpn_container.Api.Server.Journal.{handle_logs_bounded}
use expressvpn_container.Api.Server.Secrets.{AllHidden, handle_action-AllHidden}
use expressvpn_container.Tests.Store.{library, closed}
use expressvpn_container.Tests.Entry.{whole, open_access, foreign}

abbrev texts : Texts
texts = record { time_of = λ t. none; int_of = λ t. none; quoted = λ t. t; len = len }

abbrev draw : Draw
draw = record { now = 20; id = "op_1"; digits = "00"; written = true; login = Entry.draw }

abbrev server : Server
server = record {
  access = open_access;
  config = closed;
  logs = Buffer.new 3 [];
  ops = Operations.new;
  tasks = [];
  actions = true;
  pages = true;
}

abbrev locked : Server
locked = record server { access = record open_access { sessions = some fresh_manager } }

abbrev code : ActionBody
code = sent (record { location = ""; activation_code = "ABCDEF" })

abbrev logged_in : Server
logged_in = (handle_action texts draw "login" code server).1

login_accepted : (handle_action texts draw "login" code server).0 ≡ reply 202 (accepted "op_1")
unfolding handle_action lookup register Operations.start
login_accepted = refl

-- The account is held until the login ends.
logout_refused :
    (handle_action texts draw "logout" ActionBody.empty logged_in).0
    ≡ reply 409 (conflicting "op_1")
unfolding handle_action lookup register Operations.start insert
logout_refused = refl

handle_action-AllHidden_example : AllHidden len logged_in.logs.red logged_in.tasks
handle_action-AllHidden_example = handle_action-AllHidden texts draw "login" code server tt

code_hidden :
    (append 30 "agent" "info" "code ABCDEF" logged_in.logs).entries
    ≡ record { time = 30; level = "info"; component = "agent"; message = "code ***" }
      ∷ Buffer.blank
      ∷ Buffer.blank
      ∷ []
unfolding append handle_action lookup register Operations.start Buffer.new Buffer.entry_of redact
    add replace_all
code_hidden = refl

serve-Grounds_example :
    Grounds whole str_eq foreign 20 open_access
    ⊎ Outside plain draw server Request.token_rotate
        (serve whole str_eq plain library texts draw foreign Request.token_rotate server)
serve-Grounds_example =
    serve-Grounds plain draw whole str_eq library texts foreign Request.token_rotate server

-- Without grounds nobody opens a session by a wrong password.
login_refused :
    (serve whole str_eq plain library texts draw foreign
      (Request.auth_login (some "guess"))
      locked).0
    ≡ reply 401 (signed (refusal 401 "wrong_password"))
unfolding serve routed handle_login verify_password plain
login_refused = refl

abbrev all_logs : LogsRequest
all_logs = record { component = "agent"; since = ""; limit = "" }

abbrev one_line : Server
one_line = record server { logs = append 30 "agent" "info" "up" server.logs }

abbrev up_line : Entry
up_line = record { time = 30; level = "info"; component = "agent"; message = "up" }

one_entry : handle_logs texts all_logs one_line ≡ reply 200 (entries (up_line ∷ []))
unfolding handle_logs parse_logs_query Buffer.query Buffer.collect append Buffer.new Buffer.wanted
    Buffer.entry_of redact
one_entry = refl

handle_logs_bounded_example : length (up_line ∷ []) ≤ 5000
handle_logs_bounded_example = handle_logs_bounded texts all_logs one_line (up_line ∷ []) one_entry
