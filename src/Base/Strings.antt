-- ===== src/Base/Strings.antt =====
-- Go's `strings` as the program uses it, on native strings.
use Prim.Native.Char.{code}
use Prim.Native.String.{String, len, ◌++◌ as cat}
use Prim.Native.Nat.{ℕ, ◌-◌}
use mathlib.Core.Bool.{Bool, true, false, not, ◌&&◌, ◌||◌}
use mathlib.Core.Option.{Option, none, some}
use mathlib.Core.List.{List, [], ◌∷◌}
use text.Mathlib.Text.{find?, starts_with}
use expressvpn_container.Base.Tests.{◌==◌, leb, if◌then◌else◌}

-- `unicode.IsSpace`
is_space : ℕ → Bool
is_space c =
    (leb 9 c && leb c 13)
    || c == 32
    || c == 133
    || c == 160
    || c == 5760
    || (leb 8192 c && leb c 8202)
    || c == 8232
    || c == 8233
    || c == 8239
    || c == 8287
    || c == 12288

is_empty : String → Bool
is_empty String.[] = true
is_empty _ = false

trim_left : String → String
unfolding is_space
trim_left String.[] = ""
trim_left (String.◌∷◌ c s) =
    let rest = trim_left s in if is_space (code c) then rest else String.◌∷◌ c s

trim_right : String → String
unfolding is_space is_empty
trim_right String.[] = ""
trim_right (String.◌∷◌ c s) =
    let rest = trim_right s in if is_space (code c) && is_empty rest then "" else String.◌∷◌ c rest

-- `strings.TrimSpace`
unfoldable pub trim_space : String → String
unfolding trim_left trim_right
trim_space s = trim_left (trim_right s)

-- `strings.Contains(s, t)`
abbrev pub contains : String → String → Bool
contains s t = elim (find? s t) [ none ↦ false | some _ ↦ true ]

on_first : (String → String) → List String → List String
on_first f [] = []
on_first f (x ∷ xs) = f x ∷ xs

-- `strings.Split(s, "\n")`
unfoldable pub lines : String → List String
unfolding on_first
lines String.[] = "" ∷ []
lines (String.◌∷◌ c s) =
    let rest = lines s in if code c == 10 then "" ∷ rest else on_first (String.◌∷◌ c) rest

drop_chars : String → String → String
drop_chars String.[] s = s
drop_chars (String.◌∷◌ _ p) String.[] = ""
drop_chars (String.◌∷◌ _ p) (String.◌∷◌ _ s) = drop_chars p s

-- `strings.CutPrefix(s, p)`
unfoldable pub cut_prefix : String → String → Option String
unfolding drop_chars
cut_prefix s p = if starts_with s p then some (drop_chars p s) else none

-- `skip` characters of a replaced occurrence are still to pass.
replace_from : String → String → ℕ → String → String
replace_from old new skip String.[] = ""
replace_from old new skip (String.◌∷◌ c s) =
    let rest =
      replace_from old new
        (if starts_with (String.◌∷◌ c s) old && skip == 0 then len old - 1 else skip - 1) s in
    if not (skip == 0)
    then rest
    else if starts_with (String.◌∷◌ c s) old
    then cat new rest
    else String.◌∷◌ c rest

-- `strings.ReplaceAll(s, old, new)` for an `old` that is not empty.
unfoldable pub replace_all : String → String → String → String
unfolding replace_from
replace_all s old new = replace_from old new 0 s
