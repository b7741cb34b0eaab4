-- ===== src/Tests/Entry.antt =====
-- Requests to the API and their grounds, for image/agent/internal/api.
use expressvpn_container.Base.{String, true, Option, none, some, [], ◌≡◌, ◌⊎◌, refl, str_eq}
use expressvpn_container.Api.Sessions.{SessionManager, auth_disabled}
use expressvpn_container.Api.Access.{Access, Call, cross_site, require_auth, cross_site_blocked}
use expressvpn_container.Api.Access.Entry.{Grounds, require_auth-Grounds}
use expressvpn_container.Api.Login.{Draw}
use expressvpn_container.Api.Login.Outcomes.{changing, handle, Knows, handle_keeps_password}
use expressvpn_container.Tests.Api.{plain, file, fresh_manager}

abbrev pub whole : String → Option String
whole url = some url

abbrev pub open_manager : SessionManager
open_manager = record {
  password = none;
  disabled = true;
  faults = [];
  sessions = [];
  failures = 0;
  blocked_to = 0;
}

abbrev pub open_access : Access
open_access = record {
  tokens = record { token = "dtr_1"; file = none };
  sessions = some open_manager;
}

abbrev pub post : Call
post = record {
  request = record { session = none; csrf = none; csrf_header = ""; method = "POST" };
  authorization = "";
  sec_fetch_site = "same-origin";
  origin = "";
  host = "agent";
}

require_auth-Grounds_example : Grounds whole str_eq post 5 open_access
unfolding require_auth auth_disabled cross_site_blocked
require_auth-Grounds_example = require_auth-Grounds whole str_eq post 5 open_access refl

abbrev pub foreign : Call
foreign = record post { sec_fetch_site = "cross-site" }

foreign_refused : (require_auth whole str_eq foreign 5 open_access).0 ≡ cross_site
unfolding require_auth auth_disabled cross_site_blocked
foreign_refused = refl

abbrev pub draw : Draw
draw = record { now = 20; token = "s1"; salt = 7; size = 98 }

handle_keeps_password_example :
    ((handle plain draw (changing (some ("secret", "new password"))) fresh_manager).1.password
      ≡ some file)
    ⊎ Knows plain draw file (changing (some ("secret", "new password")))
handle_keeps_password_example =
    handle_keeps_password plain draw (changing (some ("secret", "new password"))) file fresh_manager
      refl
