-- ===== src/Tests/Config.antt =====
-- Configurations that image/agent/internal/config/config.go accepts and refuses.
use expressvpn_container.Base.{false, true, String, none, some, ◌≡◌, refl, ◌↔◌}
use Prim.Native.String.{◌++◌ as cat}
use expressvpn_container.Base.Int.{pos}
use expressvpn_container.Config.{Config, default, validate, one_of, check_auth}
use expressvpn_container.Config.Validation.{IsValid, validate_iff}

abbrev quoted : String → String → String
quoted what value = cat "unknown " (cat what (cat " " value))

abbrev through_proxy : Config
through_proxy = record {
  expressvpn = record {
    location = "de";
    protocol = "wireguard";
    autoconnect = true;
    protections = record { ads = true; trackers = false; malicious = false; adult = false };
  };
  uplink = record {
    mode = "socks5";
    socks5 = record {
      host = "10.0.0.5";
      port = pos 1080;
      username = "u";
      password = "p";
      udp = "auto";
    };
  };
  proxy = record { auth = some (record { username = "a"; password = "b" }) };
}

default_valid : validate quoted default ≡ none
unfolding validate default one_of check_auth
default_valid = refl

through_proxy_valid : validate quoted through_proxy ≡ none
unfolding validate one_of check_auth
through_proxy_valid = refl

validate_iff_example : (validate quoted through_proxy ≡ none) ↔ IsValid through_proxy
validate_iff_example = validate_iff quoted through_proxy
