-- ===== src/Config/Store.antt =====
-- `Store` of image/agent/internal/config/store.go: the configuration in its file, and the patches
-- that change it.
pub mod Patches
pub mod Location
use expressvpn_container.Base.{
  ℕ, zero, suc, ◌+◌, ◌-◌, ◌*◌, ◌%◌, ◌≤◌, ◌<◌, String, Bool, true, false, not, ◌&&◌, ◌||◌, Option,
  none, some, List, [], ◌∷◌, ◌++◌, map, reverse, ◌≡◌, ◌≢◌, ◌↔◌, ◌⊎◌, inl, inr, refl, sym, ap, ◌∙◌,
  subst, ◌==◌, ltb, leb, str_eq, eq_iff, if◌then◌else◌, arith, Bool-cases, Option-cases, if_both,
  if_either, length, take, drop, get_or, set, replicate, filter,
}
use expressvpn_container.Config.{Config, default, FieldError, validate}
use expressvpn_container.Config.Json.{
  Json, Fields, obj, merge_patch, diff_keys, fields_with, to_fields, end,
}

-- The file of the last start or save, and the configurations handed to `onChange`.
pub record Store : Type 0 where
  pub cur : Config
  pub file : Option Config
  pub changes : List Config

-- encoding/json and `sort.Strings`: `decode` refuses unknown and mistyped members, and a member
-- that is missing leaves Go's zero value. `quoted` is `%q` in the messages of `Validate`.
pub record Library : Type 0 where
  pub decode : Fields → Option Config
  pub marshal : Json → String
  pub sort : List String → List String
  pub quoted : String → String → String
  pub decode-to_fields : (c : Config) → decode (to_fields c) ≡ some c
  pub decode_no_auth : (c : Config) → c.proxy.auth ≡ none → decode (fields_with end c) ≡ some c
  pub sort-nil : sort [] ≡ []
  pub sort_one : (k : String) → sort (k ∷ []) ≡ k ∷ []

-- What reading the file at the start gives; a text is decoded over the default configuration.
pub data Stored : Type 0 where
  missing unreadable malformed : Stored
  content : Config → Stored

pub data Patched : Type 0 where
  applied : List String → Patched
  refused : FieldError → Patched
  save_failed : Patched

abbrev pub not_an_object : FieldError
not_an_object = record { field = ""; msg = "body must be a JSON object" }

abbrev pub bad_member : FieldError
bad_member = record { field = ""; msg = "unknown or mistyped field" }

module _ (lib : Library) where
  checked : Option Config → Config → Option Store
  checked file c = elim (validate lib.quoted c) [
    | none ↦ some (record { cur = c; file = file; changes = [] })
    | some _ ↦ none
  ]

  -- `NewStore`
  unfoldable pub new_store : Stored → Option Store
  unfolding checked default
  new_store missing = checked none default
  new_store unreadable = none
  new_store malformed = none
  new_store (content c) = checked (some c) c

  -- `save` succeeded or failed as a whole: it renames a finished file.
  keep : Bool → Config → List String → Store → Patched × Store
  keep saved next ks s =
      if saved
      then (applied ks, record s { cur = next; file = some next; changes = next ∷ s.changes })
      else (save_failed, s)

  commit : Bool → Config → List String → Store → Patched × Store
  unfolding keep
  commit saved next [] s = (applied [], s)
  commit saved next (k ∷ ks) s = keep saved next (k ∷ ks) s

  accept : Bool → Fields → Config → Option FieldError → Store → Patched × Store
  unfolding commit
  accept saved merged next (some e) s = (refused e, s)
  accept saved merged next none s =
      commit saved next (lib.sort (diff_keys lib.marshal "" (to_fields s.cur) merged)) s

  decoded : Bool → Fields → Option Config → Store → Patched × Store
  unfolding accept
  decoded saved merged none s = (refused bad_member, s)
  decoded saved merged (some next) s = accept saved merged next (validate lib.quoted next) s

  -- `ApplyMergePatch`, for a body as it is parsed (none if it is no JSON), and whether `save` can
  -- write the file.
  unfoldable pub apply_merge_patch : Bool → Option Json → Store → Patched × Store
  unfolding decoded
  apply_merge_patch saved (some (obj patch)) s =
      let merged = merge_patch (to_fields s.cur) patch in decoded saved merged (lib.decode merged) s
  apply_merge_patch saved _ s = (refused not_an_object, s)
