-- ===== src/Config/Json.antt =====
-- JSON values as encoding/json decodes them into `any`, and the maps among them, for
-- image/agent/internal/config/store.go.

pub mod Masked
use Prim.Native.String.{◌++◌ as cat}
use expressvpn_container.Base.{
  String, Bool, not, ◌&&◌, Option, none, some, List, [], ◌∷◌, ◌++◌, str_eq, if◌then◌else◌,
}
use expressvpn_container.Base.Int.{ℤ}
use expressvpn_container.Config.{Config, ExpressVpn, Protections, Uplink, Socks5, ProxyAuth, mask}

-- A number is an integer or a text of another number. The keys of a map are distinct.
mutual
  pub data Json : Type 0 where
    null : Json
    bool : Bool → Json
    int : ℤ → Json
    fraction : String → Json
    str : String → Json
    arr : Items → Json
    obj : Fields → Json

  pub data Items : Type 0 where
    nil : Items
    item : Json → Items → Items

  pub data Fields : Type 0 where
    end : Fields
    field : String → Json → Fields → Fields

unfoldable pub lookup : String → Fields → Option Json
lookup k end = none
lookup k (field j v fs) = let rest = lookup k fs in if str_eq k j then some v else rest

-- `delete(m, k)`
unfoldable pub remove : String → Fields → Fields
remove k end = end
remove k (field j v fs) = let rest = remove k fs in if str_eq k j then rest else field j v rest

-- `m[k] = v`
unfoldable pub insert : String → Json → Fields → Fields
insert k v end = field k v end
insert k v (field j w fs) =
    let rest = insert k v fs in if str_eq k j then field k v fs else field j w rest

-- `tm, _ := out[k].(map[string]any)`
abbrev pub map_in : Option Json → Fields
map_in (some (obj fs)) = fs
map_in _ = end

-- `isPasswordField`
abbrev pub is_password_field : String → Bool
is_password_field k = str_eq k "password"

-- `mergePatch`
unfoldable pub merge_patch : Fields → Fields → Fields
merge_patch target end = target
merge_patch target (field k null rest) = merge_patch (remove k target) rest
merge_patch target (field k (obj fs) rest) =
    merge_patch (insert k (obj (merge_patch (map_in (lookup k target)) fs)) target) rest
merge_patch target (field k (str s) rest) =
    merge_patch (if str_eq s mask && is_password_field k then target else insert k (str s) target)
      rest
merge_patch target (field k v rest) = merge_patch (insert k v target) rest

abbrev pub path_to : String → String → String
path_to prefix k = if not (str_eq prefix "") then cat prefix (cat "." k) else k

-- The keys of the second map that the first one lacks.
unfoldable pub new_keys : String → Fields → Fields → List String
new_keys prefix a end = []
new_keys prefix a (field k v fs) =
    let rest = new_keys prefix a fs in
    elim (lookup k a) [ none ↦ path_to prefix k ∷ rest | some _ ↦ rest ]

-- `jsonEqual` compares the texts that `marshal` gives.
module _ (marshal : Json → String) where
  unfoldable mutual
    -- The keys of the first map whose values differ in the second.
    pub old_keys : String → Fields → Fields → List String
    old_keys prefix end b = []
    old_keys prefix (field k v fs) b =
        diff_value (path_to prefix k) v (lookup k b) ++ old_keys prefix fs b

    pub diff_value : String → Json → Option Json → List String
    diff_value path v none = path ∷ []
    diff_value path (obj a) (some (obj b)) = old_keys path a b ++ new_keys path a b
    diff_value path v (some w) = if not (str_eq (marshal v) (marshal w)) then path ∷ [] else []

  -- `diffKeys`, whose order `sort.Strings` then settles.
  abbrev pub diff_keys : String → Fields → Fields → List String
  diff_keys prefix a b = old_keys prefix a b ++ new_keys prefix a b

-- The members of a configuration, by the tags in image/agent/internal/config/config.go.
protections_fields : Protections → Fields
protections_fields p = field "ads" (bool p.ads) (
    field "trackers" (bool p.trackers)
      (field "malicious" (bool p.malicious) (field "adult" (bool p.adult) end)))

expressvpn_fields : ExpressVpn → Fields
unfolding protections_fields
expressvpn_fields e = field "location" (str e.location) (
    field "protocol" (str e.protocol) (
      field "autoconnect" (bool e.autoconnect)
        (field "protections" (obj (protections_fields e.protections)) end)))

socks5_fields : Socks5 → Fields
socks5_fields s = field "host" (str s.host) (
    field "port" (int s.port) (
      field "username" (str s.username)
        (field "password" (str s.password) (field "udp" (str s.udp) end))))

uplink_fields : Uplink → Fields
unfolding socks5_fields
uplink_fields u = field "mode" (str u.mode) (field "socks5" (obj (socks5_fields u.socks5)) end)

unfoldable pub auth_json : Option ProxyAuth → Json
auth_json none = null
auth_json (some a) = obj (field "username" (str a.username) (field "password" (str a.password) end))

-- With the member of the proxy given.
unfoldable pub fields_with : Fields → Config → Fields
unfolding expressvpn_fields uplink_fields
fields_with proxy c =
    field "expressvpn" (obj (expressvpn_fields c.expressvpn))
      (field "uplink" (obj (uplink_fields c.uplink)) (field "proxy" (obj proxy) end))

-- `mustMap(json.Marshal(c))`
unfoldable pub to_fields : Config → Fields
unfolding fields_with auth_json
to_fields c = fields_with (field "auth" (auth_json c.proxy.auth) end) c
