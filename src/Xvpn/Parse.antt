-- ===== src/Xvpn/Parse.antt =====
-- The output of expressvpnctl: image/agent/internal/xvpn/parse.go.
use expressvpn_container.Base.{
  inl, inr, subst, sym, All, ◌||◌, String, Bool, true, false, Option, none, some, List, [], ◌∷◌,
  ◌++◌, ◌≡◌, refl, str_eq, if◌then◌else◌,
}
use expressvpn_container.Base.Strings.{trim_space, lines, cut_prefix}
use expressvpn_container.Config.{known_protocols}
use expressvpn_container.Config.Validation.{OneOf}
use expressvpn_container.State.{Connection, disconnected, connecting, connected, reconnecting}

abbrev pub raw_disconnected : String
raw_disconnected = "Disconnected"

connection_of : String → Connection
connection_of s =
    if str_eq s "Disconnected" || str_eq s "Disconnecting"
    then disconnected
    else if str_eq s "Connecting"
    then connecting
    else if str_eq s "Connected"
    then connected
    else if str_eq s "Interrupted" || str_eq s "Reconnecting" || str_eq s "DisconnectingToReconnect"
    then reconnecting
    else disconnected

-- `ParseConnectionState`
unfoldable pub parse_connection_state : String → Connection
unfolding connection_of
parse_connection_state out = connection_of (trim_space out)

pub record Status : Type 0 where
  pub logged_in : Bool
  pub network_lock : String
  pub split_tunnel : String
  pub lines : List String

or_tunnel : Option String → String → Status → Status
or_tunnel (some v) line st = record st { split_tunnel = trim_space v }
or_tunnel none line st = record st { logged_in = true; lines = st.lines ++ (line ∷ []) }

or_lock : Option String → String → Status → Status
unfolding or_tunnel
or_lock (some v) line st = record st { network_lock = trim_space v }
or_lock none line st = or_tunnel (cut_prefix line "Split Tunnel:") line st

read_line : String → Status → Status
unfolding or_lock
read_line line st =
    if str_eq line ""
    then st
    else if str_eq line "Not logged in."
    then record st { logged_in = false }
    else or_lock (cut_prefix line "Network Lock:") line st

read_lines : List String → Status → Status
unfolding read_line
read_lines [] st = st
read_lines (l ∷ ls) st = read_lines ls (read_line (trim_space l) st)

-- `ParseStatus`
unfoldable pub parse_status : String → Status
unfolding read_lines
parse_status out =
    read_lines (lines out)
      (record { logged_in = false; network_lock = ""; split_tunnel = ""; lines = [] })

kept_lines : List String → List String
kept_lines [] = []
kept_lines (l ∷ ls) =
    let rest = kept_lines ls in if str_eq (trim_space l) "" then rest else trim_space l ∷ rest

-- `ParseRegions`
unfoldable pub parse_regions : String → List String
unfolding kept_lines
parse_regions out = kept_lines (lines out)

-- `ParseSmart`
unfoldable pub parse_smart : String → String
parse_smart out = if str_eq (trim_space out) "N/A" then "" else trim_space out

-- `ParseValue`
unfoldable pub parse_value : String → String
parse_value out = if str_eq (trim_space out) "Unknown" then "" else trim_space out

-- `cliToAPIProtocol`, each name of the program beside the name of the API.
abbrev pub protocol_names : List (String × String)
protocol_names =
    ("auto", "auto")
    ∷ ("lightwayudp", "lightway_udp")
    ∷ ("lightwaytcp", "lightway_tcp")
    ∷ ("openvpnudp", "openvpn_udp")
    ∷ ("openvpntcp", "openvpn_tcp")
    ∷ ("wireguard", "wireguard")
    ∷ []

api_name : List (String × String) → String → String
api_name [] s = s
api_name ((cli, api) ∷ ns) s = let rest = api_name ns s in if str_eq s cli then api else rest

cli_name : List (String × String) → String → String
cli_name [] s = s
cli_name ((cli, api) ∷ ns) s = let rest = cli_name ns s in if str_eq s api then cli else rest

-- `ProtocolToAPI`
unfoldable pub protocol_to_api : String → String
unfolding api_name
protocol_to_api cli = api_name protocol_names (trim_space cli)

-- `ProtocolToCLI`
unfoldable pub protocol_to_cli : String → String
unfolding cli_name
protocol_to_cli api = cli_name protocol_names api

abbrev Kept : String → Type 0
Kept p = protocol_to_api (protocol_to_cli p) ≡ p

by_member : (ps : List String) → All Kept ps → (p : String) → OneOf ps p → Kept p
by_member [] _ p h = absurd h
by_member (q ∷ qs) (k, ks) p (inl e) = subst Kept (sym e) k
by_member (q ∷ qs) (k, ks) p (inr h) = by_member qs ks p h

known_names : All Kept known_protocols
unfolding protocol_to_api protocol_to_cli trim_space
known_names = (refl, (refl, (refl, (refl, (refl, (refl, tt))))))

-- Every protocol that a configuration may name is read back from the name that the program gets.
pub protocol_to_api-protocol_to_cli :
    (p : String) → OneOf known_protocols p → protocol_to_api (protocol_to_cli p) ≡ p
protocol_to_api-protocol_to_cli p h = by_member known_protocols known_names p h
