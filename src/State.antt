-- ===== src/State.antt =====
-- The snapshot that the agent publishes: image/agent/internal/state/state.go. Times are numbers of
-- nanoseconds, and 0 is Go's zero time.
pub mod Store
use expressvpn_container.Base.{ℕ, String, Bool, true, false, Option, none, List}
use expressvpn_container.Base.Int.{ℤ, pos}

pub record Selfcheck : Type 0 where
  pub verdict : String
  pub reasons : List String
  pub proxy_ip : String
  pub proxy_country : String
  pub uplink_ip : String
  pub dns : List String
  pub at : ℕ

pub record Container : Type 0 where
  pub version : String
  pub started_at : ℕ
  pub published_socks_port : String
  pub published_http_port : String
  pub published_bind_addr : String

pub data Connection : Type 0 where
  disconnected connecting connected reconnecting error : Connection

pub data Auth : Type 0 where
  logged_in logged_out : Auth

pub record Protocol : Type 0 where
  pub requested : String
  pub effective : String
  pub reason : String

pub record ExpressVpn : Type 0 where
  pub auth : Auth
  pub connection : Connection
  pub location : String
  pub protocol : Protocol
  pub public_ip : String
  pub connected_at : Option ℕ

pub data UplinkStatus : Type 0 where
  unknown up down degraded : UplinkStatus

pub data TriState : Type 0 where
  tri_unknown tri_true tri_false : TriState

pub record Uplink : Type 0 where
  pub mode : String
  pub status : UplinkStatus
  pub udp_supported : TriState
  pub endpoint : String
  pub reason : String

-- The counters are `int64`.
pub record Proxy : Type 0 where
  pub listen : String
  pub status : String
  pub active_conns : ℤ
  pub bytes_in : ℕ
  pub bytes_out : ℕ

pub record Killswitch : Type 0 where
  pub active : Bool
  pub dropped : ℕ

pub record Error : Type 0 where
  pub code : String
  pub message : String
  pub at : ℕ

pub data Desired : Type 0 where
  want_connected want_disconnected : Desired

pub record State : Type 0 where
  pub container : Container
  pub expressvpn : ExpressVpn
  pub uplink : Uplink
  pub proxy : Proxy
  pub killswitch : Killswitch
  pub selfcheck : Option Selfcheck
  pub last_error : Option Error
  pub desired : Desired

-- `Initial` at time `now`.
unfoldable pub initial : String → ℕ → State
initial version now = record {
  container = record {
    version = version;
    started_at = now;
    published_socks_port = "";
    published_http_port = "";
    published_bind_addr = "";
  };
  expressvpn = record {
    auth = logged_out;
    connection = disconnected;
    location = "";
    protocol = record { requested = "auto"; effective = ""; reason = "" };
    public_ip = "";
    connected_at = none;
  };
  uplink = record {
    mode = "host";
    status = unknown;
    udp_supported = tri_unknown;
    endpoint = "";
    reason = "";
  };
  proxy = record {
    listen = "";
    status = "stopped";
    active_conns = pos 0;
    bytes_in = 0;
    bytes_out = 0;
  };
  killswitch = record { active = false; dropped = 0 };
  selfcheck = none;
  last_error = none;
  desired = want_disconnected;
}

-- What the writers of single fields do.
abbrev pub set_connection : Connection → State → State
set_connection c s = record s { expressvpn = record s.expressvpn { connection = c } }

abbrev pub set_active : Bool → State → State
set_active b s = record s { killswitch = record s.killswitch { active = b } }

abbrev pub set_udp : TriState → State → State
set_udp v s = record s { uplink = record s.uplink { udp_supported = v } }

abbrev pub set_desired : Desired → State → State
set_desired d s = record s { desired = d }

abbrev pub conn : State → Connection
conn s = s.expressvpn.connection

-- `==` on the string constants.
abbrev pub is_connected : Connection → Bool
is_connected connected = true
is_connected _ = false

abbrev pub is_disconnected : Connection → Bool
is_disconnected disconnected = true
is_disconnected _ = false

abbrev pub is_reconnecting : Connection → Bool
is_reconnecting reconnecting = true
is_reconnecting _ = false

abbrev pub is_connecting : Connection → Bool
is_connecting connecting = true
is_connecting _ = false

abbrev pub is_error : Connection → Bool
is_error error = true
is_error _ = false

abbrev pub is_unknown : TriState → Bool
is_unknown tri_unknown = true
is_unknown _ = false

abbrev pub wants_connected : Desired → Bool
wants_connected want_connected = true
wants_connected want_disconnected = false
