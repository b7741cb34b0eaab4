-- ===== src/Config/Store/Location.antt =====
-- What a patch of the location makes of the configuration, for
-- image/agent/internal/config/store.go. `Connect` of image/agent/internal/reconciler/actions.go sends
-- such patches.
use mathlib.Core.List.{append-nil}
use text.Mathlib.TextPositions.{eq_refl}
use expressvpn_container.Base.{
  String, Bool, true, false, not, ◌&&◌, Option, none, some, List, [], ◌∷◌, ◌≡◌, inl, inr, refl, sym,
  ap, ◌∙◌, str_eq, eq_iff, if◌then◌else◌, Option-cases, Bool-cases, if_both,
}
use expressvpn_container.Config.{Config, FieldError, validate}
use expressvpn_container.Config.Json.{
  Json, obj, field, end, str, lookup, insert, merge_patch, to_fields, old_keys, new_keys, diff_keys,
}
use expressvpn_container.Config.Store.{
  Store, Library, Patched, applied, refused, save_failed, keep, commit, accept, decoded,
  apply_merge_patch,
}

-- The body of the patch.
abbrev pub location_body : String → Json
location_body l = obj (field "expressvpn" (obj (field "location" (str l) end)) end)

-- The configuration with another location.
abbrev pub with_location : String → Config → Config
with_location l c = record c { expressvpn = record c.expressvpn { location = l } }

and_false : (b : Bool) → (b && false) ≡ false
and_false true = refl
and_false false = refl

merge_location :
    (l : String) (c : Config)
    → merge_patch (to_fields c) (field "expressvpn" (obj (field "location" (str l) end)) end)
      ≡ to_fields (with_location l c)
unfolding merge_patch insert lookup to_fields
merge_location l c = simp (and_false)

abbrev location_keys : (Json → String) → String → String → List String
location_keys marshal old new =
    if not (str_eq (marshal (str old)) (marshal (str new))) then "expressvpn.location" ∷ [] else []

location_differs :
    (marshal : Json → String) (l : String) (c : Config)
    → diff_keys marshal "" (to_fields c) (to_fields (with_location l c))
      ≡ location_keys marshal c.expressvpn.location l
unfolding old_keys new_keys to_fields lookup
location_differs marshal l c = elim (Option-cases c.proxy.auth) [
  | inl e ↦ simp (e, eq_refl, append-nil)
  | inr (a, e) ↦ simp (e, eq_refl, append-nil)
]

abbrev pub is_applied : Patched → Bool
is_applied (applied ks) = true
is_applied (refused e) = false
is_applied save_failed = false

-- Once the patch is taken, the store holds this configuration.
abbrev pub Holds : Config → Patched × Store → Type 0
Holds c r = is_applied r.0 ≡ true → r.1.cur ≡ c

module _ (lib : Library) (saved : Bool) (l : String) (s : Store)
    (told_apart : (a b : String) → lib.marshal (str a) ≡ lib.marshal (str b) → a ≡ b) where
  keep-Holds : (b : Bool) (c : Config) (ks : List String) → Holds c (keep lib b c ks s)
  unfolding keep
  keep-Holds true c ks e = refl
  keep-Holds false c ks e = cc e

  commit-Holds :
      (c : Config) (ks : List String) → (ks ≡ [] → s.cur ≡ c) → Holds c (commit lib saved c ks s)
  unfolding commit
  commit-Holds c [] same e = same refl
  commit-Holds c (k ∷ ks) same e = keep-Holds saved c (k ∷ ks) e

  -- No key differs only where the location is the old one.
  location_keys_none :
      location_keys lib.marshal s.cur.expressvpn.location l ≡ [] → s.cur ≡ with_location l s.cur
  location_keys_none e =
      elim (Bool-cases
        (str_eq (lib.marshal (str s.cur.expressvpn.location)) (lib.marshal (str l)))) [
          | inl h ↦
              ap (λ x. with_location x s.cur)
                (told_apart s.cur.expressvpn.location l ((eq_iff _ _).0 h))
          | inr h ↦ (let bad : "expressvpn.location" ∷ [] ≡ [] = rw h at e in cc bad)
        ]

  location_keys_sorted :
      lib.sort (location_keys lib.marshal s.cur.expressvpn.location l)
      ≡ location_keys lib.marshal s.cur.expressvpn.location l
  location_keys_sorted =
      if_both (λ (ks : List String). lib.sort ks ≡ ks)
        (not (str_eq (lib.marshal (str s.cur.expressvpn.location)) (lib.marshal (str l))))
        (lib.sort_one "expressvpn.location") lib.sort-nil

  accept-Holds :
      (o : Option FieldError)
      → Holds
          (with_location l s.cur)
          (accept lib saved (to_fields (with_location l s.cur)) (with_location l s.cur) o s)
  unfolding accept
  accept-Holds (some x) e = cc e
  accept-Holds none e =
      commit-Holds (with_location l s.cur) _
        (λ none_left. location_keys_none (
          sym location_keys_sorted
          ∙ (ap lib.sort (sym (location_differs lib.marshal l s.cur)) ∙ none_left)))
        e

  pub location_body-Holds :
      Holds (with_location l s.cur) (apply_merge_patch lib saved (some (location_body l)) s)
  unfolding apply_merge_patch decoded
  location_body-Holds =
      rw (merge_location l s.cur)
        (rw (lib.decode-to_fields (with_location l s.cur)) (accept-Holds (validate lib.quoted _)))
