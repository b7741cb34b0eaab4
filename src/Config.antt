-- ===== src/Config.antt =====
-- The configuration of the agent: image/agent/internal/config/config.go.

pub mod Validation
pub mod Json
pub mod Store
use expressvpn_container.Base.{
  String, Bool, true, false, not, ◌&&◌, ◌||◌, Option, none, some, List, [], ◌∷◌, ◌≡◌, ◌↔◌, leb,
  str_eq, eq_iff, any, if◌then◌else◌, arith,
}
use expressvpn_container.Base.Int.{ℤ, pos, negsuc, int_eq, int_eq_iff}

pub record Protections : Type 0 where
  pub ads : Bool
  pub trackers : Bool
  pub malicious : Bool
  pub adult : Bool

-- An empty location stands for the smart one.
pub record ExpressVpn : Type 0 where
  pub location : String
  pub protocol : String
  pub autoconnect : Bool
  pub protections : Protections

pub record Socks5 : Type 0 where
  pub host : String
  pub port : ℤ
  pub username : String
  pub password : String
  pub udp : String

pub record Uplink : Type 0 where
  pub mode : String
  pub socks5 : Socks5

pub record ProxyAuth : Type 0 where
  pub username : String
  pub password : String

pub record Proxy : Type 0 where
  pub auth : Option ProxyAuth

pub record Config : Type 0 where
  pub expressvpn : ExpressVpn
  pub uplink : Uplink
  pub proxy : Proxy

abbrev no_protections : Protections
no_protections = record { ads = false; trackers = false; malicious = false; adult = false }

-- `Default`.
unfoldable pub default : Config
default = record {
  expressvpn = record {
    location = "";
    protocol = "auto";
    autoconnect = false;
    protections = no_protections;
  };
  uplink = record {
    mode = "host";
    socks5 = record { host = ""; port = pos 0; username = ""; password = ""; udp = "auto" };
  };
  proxy = record { auth = none };
}

abbrev pub known_protocols : List String
known_protocols =
    "auto" ∷ "lightway_udp" ∷ "lightway_tcp" ∷ "openvpn_udp" ∷ "openvpn_tcp" ∷ "wireguard" ∷ []

pub record FieldError : Type 0 where
  pub field : String
  pub msg : String

abbrev pub field_error : String → String → Option FieldError
field_error f m = some (record { field = f; msg = m })

-- `port < 1 || port > 65535`
abbrev pub port_invalid : ℤ → Bool
port_invalid (pos n) = not (leb 1 n) || not (leb n 65535)
port_invalid (negsuc _) = true

unfoldable pub one_of : List String → String → Bool
one_of xs s = any (str_eq s) xs

unfoldable pub check_auth : Option ProxyAuth → Option FieldError
check_auth none = none
check_auth (some a) =
    if str_eq a.username "" || str_eq a.password ""
    then field_error "proxy.auth" "username and password are required when auth is set"
    else none

-- The messages quote the refused value by `%q`, which is left to a parameter.
module _ (unknown : String → String → String) where
  check_rest : Config → Option FieldError
  check_rest c =
      if not (one_of ("auto" ∷ "on" ∷ "off" ∷ []) c.uplink.socks5.udp)
      then field_error "uplink.socks5.udp" (unknown "value" c.uplink.socks5.udp)
      else check_auth c.proxy.auth

  -- `Validate`: the first refused field, or none.
  unfoldable pub validate : Config → Option FieldError
  unfolding check_rest
  validate c =
      if not (one_of known_protocols c.expressvpn.protocol)
      then field_error "expressvpn.protocol" (unknown "protocol" c.expressvpn.protocol)
      else if not (one_of ("host" ∷ "socks5" ∷ []) c.uplink.mode)
      then field_error "uplink.mode" (unknown "mode" c.uplink.mode)
      else if str_eq c.uplink.mode "socks5" && str_eq c.uplink.socks5.host ""
      then field_error "uplink.socks5.host" "host is required in socks5 mode"
      else if str_eq c.uplink.mode "socks5" && port_invalid c.uplink.socks5.port
      then field_error "uplink.socks5.port" "port must be 1..65535"
      else check_rest c

abbrev pub mask : String
mask = "***"

unfoldable pub mask_password : String → String
mask_password p = if not (str_eq p "") then mask else p

unfoldable pub redact_auth : Option ProxyAuth → Option ProxyAuth
unfolding mask_password
redact_auth none = none
redact_auth (some a) = some (record a { password = mask_password a.password })

-- `Redacted`: the copy that leaves the agent.
unfoldable pub redacted : Config → Config
unfolding mask_password redact_auth
redacted c = record c {
  uplink = record c.uplink {
    socks5 = record c.uplink.socks5 { password = mask_password c.uplink.socks5.password };
  };
  proxy = record { auth = redact_auth c.proxy.auth };
}

-- `reflect.DeepEqual` on the two parts that the reconciler compares.
unfoldable pub uplink_eq : Uplink → Uplink → Bool
uplink_eq a b =
    str_eq a.mode b.mode
    && str_eq a.socks5.host b.socks5.host
    && int_eq a.socks5.port b.socks5.port
    && str_eq a.socks5.username b.socks5.username
    && str_eq a.socks5.password b.socks5.password
    && str_eq a.socks5.udp b.socks5.udp

bool_eq : Bool → Bool → Bool
bool_eq a b = if a then b else not b

unfoldable pub expressvpn_eq : ExpressVpn → ExpressVpn → Bool
unfolding bool_eq
expressvpn_eq a b =
    str_eq a.location b.location
    && str_eq a.protocol b.protocol
    && bool_eq a.autoconnect b.autoconnect
    && bool_eq a.protections.ads b.protections.ads
    && bool_eq a.protections.trackers b.protections.trackers
    && bool_eq a.protections.malicious b.protections.malicious
    && bool_eq a.protections.adult b.protections.adult

pub uplink_eq_iff : (a b : Uplink) → (uplink_eq a b ≡ true) ↔ (a ≡ b)
unfolding uplink_eq
uplink_eq_iff a b = ground (
  arith,
  eq_iff a.mode b.mode,
  eq_iff a.socks5.host b.socks5.host,
  int_eq_iff a.socks5.port b.socks5.port,
  eq_iff a.socks5.username b.socks5.username,
  eq_iff a.socks5.password b.socks5.password,
  eq_iff a.socks5.udp b.socks5.udp,
)
