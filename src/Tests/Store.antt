-- ===== src/Tests/Store.antt =====
-- A decoder for configurations and patches of a stored one, for image/agent/internal/config/store.go.
mod Actions
use expressvpn_container.Base.{
  String, Bool, true, false, Option, none, some, [], ◌∷◌, ◌≡◌, refl, sym, ap,
}
use expressvpn_container.Base.Int.{ℤ, pos}
use expressvpn_container.Config.{
  one_of, check_auth, Config, ExpressVpn, Protections, Uplink, Socks5, ProxyAuth, validate,
}
use expressvpn_container.Config.Json.{
  Json, Fields, null, bool, int, str, obj, end, field, lookup, to_fields, fields_with, auth_json,
}
use expressvpn_container.Config.Store.{Store, Library, applied, apply_merge_patch}
use expressvpn_container.Config.Store.Patches.{
  Whole, apply_merge_patch-Whole, shown, patch-redacted, patch_reports_auth,
}

infixl 5 ◌>>=◌
abbrev ◌>>=◌ : {A B : Type 0} → Option A → (A → Option B) → Option B
none >>= f = none
some a >>= f = f a

-- The members by kind; one that is missing has Go's zero value.
abbrev text : Option Json → Option String
text none = some ""
text (some (str s)) = some s
text (some _) = none

abbrev flag : Option Json → Option Bool
flag none = some false
flag (some (bool b)) = some b
flag (some _) = none

abbrev number : Option Json → Option ℤ
number none = some (pos 0)
number (some (int n)) = some n
number (some _) = none

abbrev members : Option Json → Option Fields
members none = some end
members (some (obj fs)) = some fs
members (some _) = none

abbrev credentials : Option Json → Option (Option ProxyAuth)
credentials none = some none
credentials (some null) = some none
credentials (some (obj fs)) = do
  u ← text (lookup "username" fs)
  p ← text (lookup "password" fs)
  some (some (record { username = u; password = p }))
credentials (some _) = none

protections_of : Fields → Option Protections
protections_of fs = do
  a ← flag (lookup "ads" fs)
  t ← flag (lookup "trackers" fs)
  m ← flag (lookup "malicious" fs)
  d ← flag (lookup "adult" fs)
  some (record { ads = a; trackers = t; malicious = m; adult = d })

expressvpn_of : Fields → Option ExpressVpn
unfolding protections_of
expressvpn_of fs = do
  l ← text (lookup "location" fs)
  p ← text (lookup "protocol" fs)
  a ← flag (lookup "autoconnect" fs)
  inner ← members (lookup "protections" fs)
  r ← protections_of inner
  some (record { location = l; protocol = p; autoconnect = a; protections = r })

socks5_of : Fields → Option Socks5
socks5_of fs = do
  h ← text (lookup "host" fs)
  n ← number (lookup "port" fs)
  u ← text (lookup "username" fs)
  p ← text (lookup "password" fs)
  d ← text (lookup "udp" fs)
  some (record { host = h; port = n; username = u; password = p; udp = d })

uplink_of : Fields → Option Uplink
unfolding socks5_of
uplink_of fs = do
  m ← text (lookup "mode" fs)
  inner ← members (lookup "socks5" fs)
  s ← socks5_of inner
  some (record { mode = m; socks5 = s })

decode_config : Fields → Option Config
unfolding expressvpn_of uplink_of
decode_config fs = do
  e ← members (lookup "expressvpn" fs)
  evpn ← expressvpn_of e
  u ← members (lookup "uplink" fs)
  up ← uplink_of u
  p ← members (lookup "proxy" fs)
  auth ← credentials (lookup "auth" p)
  some (record { expressvpn = evpn; uplink = up; proxy = record { auth = auth } })

decode_config_auth :
    (c : Config) (o : Option ProxyAuth)
    → decode_config (fields_with (field "auth" (auth_json o) end) c)
      ≡ some (record c { proxy = record { auth = o } })
unfolding decode_config fields_with auth_json lookup
decode_config_auth c none = refl
decode_config_auth c (some a) = refl

decode_config-to_fields : (c : Config) → decode_config (to_fields c) ≡ some c
unfolding to_fields
decode_config-to_fields c = decode_config_auth c c.proxy.auth

decode_config_no_auth :
    (c : Config) → c.proxy.auth ≡ none → decode_config (fields_with end c) ≡ some c
unfolding decode_config fields_with lookup
decode_config_no_auth c e = ap (λ o. some (record c { proxy = record { auth = o } })) (sym e)

-- Keys in the order of their insertion; `library` needs no other for one change.
pub library : Library
library = record {
  decode = decode_config;
  marshal = λ v. "";
  sort = λ ks. ks;
  quoted = λ what value. what;
  decode-to_fields = decode_config-to_fields;
  decode_no_auth = decode_config_no_auth;
  sort-nil = refl;
  sort_one = λ k. refl;
}

abbrev pub closed : Store
closed = record {
  cur = record {
    expressvpn = record {
      location = "";
      protocol = "auto";
      autoconnect = false;
      protections = record { ads = false; trackers = false; malicious = false; adult = false };
    };
    uplink = record {
      mode = "host";
      socks5 = record { host = ""; port = pos 0; username = ""; password = "p"; udp = "auto" };
    };
    proxy = record { auth = some (record { username = "u"; password = "p" }) };
  };
  file = none;
  changes = [];
}

abbrev open_store : Store
open_store = record closed { cur = record closed.cur { proxy = record { auth = none } } }

patch-redacted_example : apply_merge_patch library true (shown closed) closed ≡ (applied [], closed)
unfolding validate library one_of check_auth
patch-redacted_example =
    patch-redacted library true closed (record { username = "u"; password = "p" }) refl refl

patch_reports_auth_example : apply_merge_patch library true (shown open_store) open_store ≡ (
  applied ("proxy.auth" ∷ []),
  record open_store { file = some open_store.cur; changes = open_store.cur ∷ [] },
)
unfolding validate library one_of check_auth
patch_reports_auth_example = patch_reports_auth library true open_store refl refl refl

abbrev to_wireguard : Json
to_wireguard = obj (field "expressvpn" (obj (field "protocol" (str "wireguard") end)) end)

apply_merge_patch-Whole_example :
    Whole library closed (apply_merge_patch library true (some to_wireguard) closed)
apply_merge_patch-Whole_example = apply_merge_patch-Whole library true closed (some to_wireguard)
