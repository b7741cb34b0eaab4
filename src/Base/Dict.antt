-- ===== src/Base/Dict.antt =====
-- Go maps with string keys, as association lists.
use expressvpn_container.Base.Lists.{All}
use Prim.Native.String.{String}
use mathlib.Core.Path.{◌≡◌, refl, sym, subst}
use mathlib.Core.Logic.{◌≢◌, inl, inr}
use mathlib.Core.Option.{Option, none, some}
use mathlib.Core.List.{List, [], ◌∷◌}
use native.Mathlib.Omega.{arith}
use text.Mathlib.Text.{◌==◌ as str_eq}
use text.Mathlib.TextEquality.{eq_iff}
use expressvpn_container.Base.Tests.{if◌then◌else◌, Bool-cases, if_both}

abbrev pub Dict {ℓ} : Type ℓ → Type ℓ
Dict A = List (String × A)

module _ {ℓ} {A : Type ℓ} where
  unfoldable pub lookup : String → Dict A → Option A
  lookup k [] = none
  lookup k ((j, a) ∷ d) = let rest = lookup k d in if str_eq k j then some a else rest

  -- `delete(m, k)`
  unfoldable pub remove : String → Dict A → Dict A
  remove k [] = []
  remove k ((j, a) ∷ d) = let rest = remove k d in if str_eq k j then rest else (j, a) ∷ rest

  -- `m[k] = a`
  unfoldable pub insert : String → A → Dict A → Dict A
  insert k a d = (k, a) ∷ remove k d

  pub lookup-remove : (k : String) (d : Dict A) → lookup k (remove k d) ≡ none
  unfolding lookup remove
  lookup-remove k [] = refl
  lookup-remove k ((j, a) ∷ d) = ground (arith, lookup-remove k d)

  pub lookup-remove_other : (k i : String) (d : Dict A) → i ≢ k → lookup i (remove k d) ≡ lookup i d
  unfolding lookup remove
  lookup-remove_other k i [] ne = refl
  lookup-remove_other k i ((j, a) ∷ d) ne =
      ground (arith, lookup-remove_other k i d ne, eq_iff k j, eq_iff i j)

  pub lookup-insert : (k : String) (a : A) (d : Dict A) → lookup k (insert k a d) ≡ some a
  unfolding lookup insert
  lookup-insert k a d = ground (arith, eq_iff k k)

  pub lookup-insert_other :
      (k i : String) (a : A) (d : Dict A) → i ≢ k → lookup i (insert k a d) ≡ lookup i d
  unfolding lookup insert
  lookup-insert_other k i a d ne = ground (arith, eq_iff i k, lookup-remove_other k i d ne)

-- What holds of every entry of a table holds of the entry that is found, and stays so.
module _ {A : Type 0} (P : String × A → Type 0) where
  All-remove : (k : String) (d : Dict A) → All P d → All P (remove k d)
  unfolding remove
  All-remove k [] v = v
  All-remove k ((j, a) ∷ d) v =
      if_both (All P) (str_eq k j) (All-remove k d v.1) (v.0, All-remove k d v.1)

  pub All-insert : (k : String) (a : A) (d : Dict A) → P (k, a) → All P d → All P (insert k a d)
  unfolding insert
  All-insert k a d p v = (p, All-remove k d v)

  pub All-lookup : (k : String) (d : Dict A) (a : A) → All P d → lookup k d ≡ some a → P (k, a)
  unfolding lookup
  All-lookup k [] a v e = cc e
  All-lookup k ((j, b) ∷ d) a v e = elim (Bool-cases (str_eq k j)) [
    | inl h ↦
        let here : k ≡ j = (eq_iff k j).0 h in
        let found : some b ≡ some a = rw h at e in
        let same : b ≡ a = cc found in subst P (λ i. (sym here i, same i)) v.0
    | inr h ↦ All-lookup k d a v.1 (rw h at e)
  ]
