-- ===== src/Config/Json/Masked.antt =====
-- `mergePatch` of image/agent/internal/config/store.go on the configuration as the API shows it,
-- with masked passwords.
use expressvpn_container.Base.{
  String, Bool, true, false, ◌&&◌, Option, none, some, ◌≡◌, ◌⊎◌, inl, inr, refl, ap, ◌∙◌, str_eq,
  Bool-cases,
}
use expressvpn_container.Config.{
  Config, Protections, ExpressVpn, Uplink, Socks5, ProxyAuth, redacted, mask_password, redact_auth,
  mask,
}
use expressvpn_container.Config.Json.{
  map_in, Fields, str, obj, end, field, lookup, merge_patch, fields_with, to_fields, auth_json,
  socks5_fields, uplink_fields, expressvpn_fields, protections_fields, insert, remove,
}

and_false : (b : Bool) → (b && false) ≡ false
and_false true = refl
and_false false = refl

-- A password is shown as the mask, or as it is.
masked :
    (p : String)
    → (str_eq (mask_password p) mask ≡ true) ⊎ ((str_eq p mask ≡ false) × (mask_password p ≡ p))
unfolding mask_password
masked p = elim (Bool-cases (str_eq p "")) [
  | inl e ↦ rw e (elim (Bool-cases (str_eq p mask)) [ inl k ↦ inl k | inr k ↦ inr (k, refl) ])
  | inr e ↦ rw e (inl refl)
]

socks5_again :
    (s : Socks5)
    → merge_patch
        (socks5_fields s)
        (socks5_fields (record s { password = mask_password s.password }))
      ≡ socks5_fields s
unfolding merge_patch socks5_fields insert
socks5_again s = elim (masked s.password) [
  | inl e ↦ simp (and_false, e)
  | inr (e, same) ↦ simp (and_false, e, same)
]

auth_again :
    (a : ProxyAuth)
    → merge_patch
        (map_in (some (auth_json (some a))))
        (map_in (some (auth_json (redact_auth (some a)))))
      ≡ map_in (some (auth_json (some a)))
unfolding merge_patch auth_json insert redact_auth
auth_again a = elim (masked a.password) [
  | inl e ↦ simp (and_false, e)
  | inr (e, same) ↦ simp (and_false, e, same)
]

protections_again :
    (p : Protections)
    → merge_patch (protections_fields p) (protections_fields p) ≡ protections_fields p
unfolding merge_patch protections_fields insert
protections_again p = refl

expressvpn_again :
    (e : ExpressVpn) → merge_patch (expressvpn_fields e) (expressvpn_fields e) ≡ expressvpn_fields e
unfolding merge_patch expressvpn_fields insert lookup
expressvpn_again e = simp (and_false, protections_again e.protections)

uplink_merge :
    (mode : String) (a b : Fields)
    → merge_patch
        (field "mode" (str mode) (field "socks5" (obj a) end))
        (field "mode" (str mode) (field "socks5" (obj b) end))
      ≡ field "mode" (str mode) (field "socks5" (obj (merge_patch a b)) end)
unfolding merge_patch insert lookup
uplink_merge mode a b = simp (and_false)

uplink_again :
    (u : Uplink)
    → merge_patch (uplink_fields u) (
        uplink_fields
          (record u { socks5 = record u.socks5 { password = mask_password u.socks5.password } }))
      ≡ uplink_fields u
unfolding uplink_fields
uplink_again u =
    uplink_merge u.mode _ _
    ∙ ap (λ fs. field "mode" (str u.mode) (field "socks5" (obj fs) end)) (socks5_again u.socks5)

top : Fields → Fields → Fields → Fields
top e u p = field "expressvpn" (obj e) (field "uplink" (obj u) (field "proxy" (obj p) end))

top_merge :
    (e e' u u' p p' : Fields)
    → merge_patch
        (field "expressvpn" (obj e) (field "uplink" (obj u) (field "proxy" (obj p) end)))
        (field "expressvpn" (obj e') (field "uplink" (obj u') (field "proxy" (obj p') end)))
      ≡ field "expressvpn"
          (obj (merge_patch e e'))
          (field "uplink" (obj (merge_patch u u')) (field "proxy" (obj (merge_patch p p')) end))
unfolding merge_patch insert lookup
top_merge e e' u u' p p' = refl

-- What is left of the member of the proxy.
proxy_again : Option ProxyAuth → Fields
unfolding auth_json
proxy_again none = end
proxy_again (some a) = field "auth" (auth_json (some a)) end

proxy_merge :
    (o : Option ProxyAuth)
    → merge_patch (field "auth" (auth_json o) end) (field "auth" (auth_json (redact_auth o)) end)
      ≡ proxy_again o
unfolding merge_patch insert lookup remove auth_json redact_auth proxy_again
proxy_merge none = refl
proxy_merge (some a) = ap (λ fs. field "auth" (obj fs) end) (auth_again a)

-- Merging the shown configuration into the stored one gives the stored one, but for the member
-- `proxy.auth`, which is dropped where it was null.
merge_patch-redacted :
    (c : Config)
    → merge_patch (to_fields c) (to_fields (redacted c)) ≡ fields_with (proxy_again c.proxy.auth) c
unfolding to_fields fields_with redacted top
merge_patch-redacted c = top_merge _ _ _ _ _ _ ∙ (λ i.
    top (expressvpn_again c.expressvpn i) (uplink_again c.uplink i) (proxy_merge c.proxy.auth i))

again_auth :
    (o : Option ProxyAuth) (a : ProxyAuth)
    → o ≡ some a
    → proxy_again o ≡ field "auth" (auth_json o) end
unfolding proxy_again
again_auth none a e = cc e
again_auth (some b) a e = refl

again_no_auth : (o : Option ProxyAuth) → o ≡ none → proxy_again o ≡ end
unfolding proxy_again
again_no_auth none e = refl
again_no_auth (some b) e = cc e

pub merge_with_auth :
    (c : Config) (a : ProxyAuth)
    → c.proxy.auth ≡ some a
    → merge_patch (to_fields c) (to_fields (redacted c)) ≡ to_fields c
unfolding to_fields
merge_with_auth c a e =
    merge_patch-redacted c ∙ ap (λ fs. fields_with fs c) (again_auth c.proxy.auth a e)

pub merge_without_auth :
    (c : Config)
    → c.proxy.auth ≡ none
    → merge_patch (to_fields c) (to_fields (redacted c)) ≡ fields_with end c
merge_without_auth c e =
    merge_patch-redacted c ∙ ap (λ fs. fields_with fs c) (again_no_auth c.proxy.auth e)
