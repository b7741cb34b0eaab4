-- ===== src/Config/Store/Patches.antt =====
-- What a patch of the configuration changes, for image/agent/internal/config/store.go.
use text.Mathlib.TextPositions.{eq_refl}
use expressvpn_container.Base.{
  inr, inl, Option-cases, String, Bool, true, false, Option, none, some, List, [], ◌∷◌, ◌≡◌, refl,
}
use expressvpn_container.Config.{ProxyAuth, redacted, FieldError, Config, validate}
use expressvpn_container.Config.Json.{
  fields_with, diff_keys, lookup, to_fields, new_keys, old_keys, Json, Fields, obj,
}
use expressvpn_container.Config.Json.Masked.{merge_with_auth, merge_without_auth}
use expressvpn_container.Base.{Option-cases}
use expressvpn_container.Config.Json.{fields_with, end, lookup}
use expressvpn_container.Base.{ap, ◌∙◌}
use expressvpn_container.Config.Store.{
  applied, Store, Library, Patched, apply_merge_patch, keep, commit, accept, decoded,
}

-- A store whose configuration passes the validation.
abbrev pub IsValid : Library → Store → Type 0
IsValid lib s = validate lib.quoted s.cur ≡ none

-- A patch is taken as a whole, saved and announced, or nothing changes.
pub data Whole (lib : Library) (s : Store) (r : Patched × Store) : Type 0 where
  unchanged : r.1 ≡ s → Whole lib s r
  changed :
      IsValid lib r.1 → r.1.file ≡ some r.1.cur → r.1.changes ≡ r.1.cur ∷ s.changes → Whole lib s r

module _ (lib : Library) (saved : Bool) (s : Store) where
  keep-Whole :
      (next : Config) (ks : List String) (b : Bool)
      → validate lib.quoted next ≡ none
      → Whole lib s (keep lib b next ks s)
  unfolding keep
  keep-Whole next ks true v = changed v refl refl
  keep-Whole next ks false v = unchanged refl

  commit-Whole :
      (next : Config) (ks : List String)
      → validate lib.quoted next ≡ none
      → Whole lib s (commit lib saved next ks s)
  unfolding commit
  commit-Whole next [] v = unchanged refl
  commit-Whole next (k ∷ ks) v = keep-Whole next (k ∷ ks) saved v

  accept-Whole :
      (merged : Fields) (next : Config) (e : Option FieldError)
      → validate lib.quoted next ≡ e
      → Whole lib s (accept lib saved merged next e s)
  unfolding accept
  accept-Whole merged next (some e) v = unchanged refl
  accept-Whole merged next none v = commit-Whole next _ v

  decoded-Whole : (merged : Fields) (o : Option Config) → Whole lib s (decoded lib saved merged o s)
  unfolding decoded
  decoded-Whole merged none = unchanged refl
  decoded-Whole merged (some next) = accept-Whole merged next _ refl

  -- Whatever the body of a patch is, and whether the file can be written or not, the store is as
  -- before, or its new configuration passes the validation, is the one in the file and is announced.
  pub apply_merge_patch-Whole :
      (body : Option Json) → Whole lib s (apply_merge_patch lib saved body s)
  unfolding apply_merge_patch
  apply_merge_patch-Whole (some (obj patch)) = decoded-Whole _ _
  apply_merge_patch-Whole _ = unchanged refl

nothing_differs :
    (marshal : Json → String) (c : Config) → diff_keys marshal "" (to_fields c) (to_fields c) ≡ []
unfolding old_keys new_keys to_fields lookup
nothing_differs marshal c = elim (Option-cases c.proxy.auth) [
  | inl e ↦ simp (e, eq_refl)
  | inr (a, e) ↦ simp (e, eq_refl)
]

auth_differs :
    (marshal : Json → String) (c : Config)
    → diff_keys marshal "" (to_fields c) (fields_with end c) ≡ "proxy.auth" ∷ []
unfolding old_keys new_keys to_fields lookup
auth_differs marshal c = simp (eq_refl)

-- The configuration as the API shows it, for the body of a patch.
abbrev pub shown : Store → Option Json
shown s = some (obj (to_fields (redacted s.cur)))

module _ (lib : Library) (saved : Bool) (s : Store) where
  -- What a decoded patch does that leads to the same configuration.
  same_config :
      (merged : Fields)
      → IsValid lib s
      → lib.decode merged ≡ some s.cur
      → (ks : List String) → diff_keys lib.marshal "" (to_fields s.cur) merged ≡ ks
      → lib.sort ks ≡ ks
      → decoded lib saved merged (lib.decode merged) s ≡ commit lib saved s.cur ks s
  unfolding decoded accept
  same_config merged v d ks e o =
      rw d (rw v (ap (λ k. commit lib saved s.cur k s) (ap lib.sort e ∙ o)))

  commit_nothing : commit lib saved s.cur [] s ≡ (applied [], s)
  unfolding commit
  commit_nothing = refl

  commit_saved :
      (k : String)
      → saved ≡ true
      → commit lib saved s.cur (k ∷ []) s
        ≡ (applied (k ∷ []), record s { file = some s.cur; changes = s.cur ∷ s.changes })
  unfolding commit keep
  commit_saved k w = rw w

  -- To send back the configuration as the API shows it, with its masked passwords, changes nothing
  -- where the proxy has a password; the store's configuration is a valid one.
  pub patch-redacted :
      (a : ProxyAuth)
      → IsValid lib s
      → s.cur.proxy.auth ≡ some a
      → apply_merge_patch lib saved (shown s) s ≡ (applied [], s)
  unfolding apply_merge_patch
  patch-redacted a v e = rw (merge_with_auth s.cur a e) (
      same_config (to_fields s.cur) v (lib.decode-to_fields s.cur) []
        (nothing_differs lib.marshal s.cur) lib.sort-nil
      ∙ commit_nothing)

  -- Where the proxy has no password, the same body is reported as a change of `proxy.auth`: the same
  -- configuration is saved and announced again, if it is valid and the file can be written.
  pub patch_reports_auth :
      IsValid lib s
      → s.cur.proxy.auth ≡ none
      → saved ≡ true
      → apply_merge_patch lib saved (shown s) s
        ≡ (applied ("proxy.auth" ∷ []), record s { file = some s.cur; changes = s.cur ∷ s.changes })
  unfolding apply_merge_patch
  patch_reports_auth v e w = rw (merge_without_auth s.cur e) (
      same_config (fields_with end s.cur) v (lib.decode_no_auth s.cur e) ("proxy.auth" ∷ [])
        (auth_differs lib.marshal s.cur) (lib.sort_one "proxy.auth")
      ∙ commit_saved "proxy.auth" w)
