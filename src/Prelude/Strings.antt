-- ===== src/Prelude/Strings.antt =====
-- JavaScript strings as lists of UTF-16 code units, and the string methods that the code uses.
-- A literal is `text "…"`; every literal of the code lies in the basic plane, one unit to a
-- character. `indexOf` returns an option in place of -1.
pub mod Laws
pub use Laws.*
unfoldable pub use Laws.{text_eq}
use Prim.Native.Nat.{ℕ, zero, suc, ◌+◌, ◌-◌, ◌≤◌}
use Prim.Native.Char.{code}
use Prim.Native.String.{String}
use mathlib.Core.Bool.{Bool, true, false, ◌&&◌, ◌||◌}
use mathlib.Core.Option
use mathlib.Core.Option.{Option, none, some}
use mathlib.Core.List.{List, [], ◌∷◌, ◌++◌, reverse}
use nextpanel.Prelude.Tests.{leb, ◌==◌, if◌then◌else◌}
use nextpanel.Prelude.Lists.{length, take, drop, any}

abbrev pub text : String → List ℕ
text String.[] = []
text (String.◌∷◌ c s) = code c ∷ text s

-- `s.startsWith(p)`
unfoldable pub starts_with : List ℕ → List ℕ → Bool
starts_with s [] = true
starts_with [] (c ∷ p) = false
starts_with (d ∷ s) (c ∷ p) = c == d && starts_with s p

unfoldable pub ends_with : List ℕ → List ℕ → Bool
unfolding starts_with
ends_with s p = starts_with (reverse s) (reverse p)

-- `s.indexOf(c)` and `s.lastIndexOf(c)` for a character
unfoldable pub index_of : List ℕ → ℕ → Option ℕ
index_of [] c = none
index_of (d ∷ s) c = if d == c then some 0 else Option.map suc (index_of s c)

abbrev later : Option ℕ → Bool → Option ℕ
later (some i) here = some (suc i)
later none true = some 0
later none false = none

unfoldable pub last_index_of : List ℕ → ℕ → Option ℕ
last_index_of [] c = none
last_index_of (d ∷ s) c = later (last_index_of s c) (d == c)

-- `s.slice(i)` and `s.slice(i, j)`, for indices from the front
abbrev pub slice_from : ℕ → List ℕ → List ℕ
slice_from i s = drop i s

abbrev pub slice : ℕ → ℕ → List ℕ → List ℕ
slice i j s = take (j - i) (drop i s)

-- `s.includes(c)`
abbrev pub includes : List ℕ → ℕ → Bool
includes s c = any (λ d. d == c) s

-- `s.includes(p)` for a longer text
unfoldable pub includes_text : List ℕ → List ℕ → Bool
unfolding starts_with
includes_text [] p = starts_with [] p
includes_text (d ∷ s) p = starts_with (d ∷ s) p || includes_text s p

-- `s.split(c)` for a character, the part that is being read in reverse
abbrev split_step : ℕ → ℕ → List (List ℕ) → List (List ℕ)
split_step c d [] = []
split_step c d (part ∷ parts) = if d == c then [] ∷ part ∷ parts else (d ∷ part) ∷ parts

unfoldable pub split : ℕ → List ℕ → List (List ℕ)
split c [] = [] ∷ []
split c (d ∷ s) = split_step c d (split c s)

-- `parts.join(c)` for a character
unfoldable pub join : ℕ → List (List ℕ) → List ℕ
join c [] = []
join c (part ∷ []) = part
join c (part ∷ next ∷ parts) = part ++ c ∷ join c (next ∷ parts)

-- ECMAScript's WhiteSpace and LineTerminator
unfoldable pub is_space : ℕ → Bool
is_space c =
    (leb 9 c && leb c 13)
    || c == 32
    || c == 160
    || c == 0x1680
    || (leb 0x2000 c && leb c 0x200a)
    || c == 0x2028
    || c == 0x2029
    || c == 0x202f
    || c == 0x205f
    || c == 0x3000
    || c == 0xfeff

unfoldable pub trim_start : List ℕ → List ℕ
trim_start [] = []
trim_start (c ∷ s) = let rest = trim_start s in if is_space c then rest else c ∷ s

-- `s.trim()`
unfoldable pub trim : List ℕ → List ℕ
unfolding trim_start is_space
trim s = reverse (trim_start (reverse (trim_start s)))

-- `s.toLowerCase()`, where the result is only compared with ASCII words that have no `k`
unfoldable pub lower_unit : ℕ → ℕ
lower_unit c = if leb 65 c && leb c 90 then c + 32 else c

-- /[\u0000-\u001f\u007f]/.test(s)
abbrev pub is_control : ℕ → Bool
is_control c = leb c 0x1f || c == 0x7f

abbrev pub has_control : List ℕ → Bool
has_control s = any is_control s

-- `s.replace(/c/g, d)` for characters
unfoldable pub replace : ℕ → ℕ → List ℕ → List ℕ
replace c d [] = []
replace c d (e ∷ s) = (if e == c then d else e) ∷ replace c d s
