-- ===== src/Base/Text.antt =====
-- Go strings as lists of bytes, and the functions of package strings that the program calls.
-- White space and letters are those of ASCII: a byte from 128 on is neither.
use Prim.Native.Char.{code}
use Prim.Native.Nat.{ℕ, suc, ◌+◌, ◌≤◌, compare, Ordering}
use Prim.Native.String.{String}
use mathlib.Core.Path.{◌≡◌, refl, ap}
use mathlib.Core.Logic.{◌↔◌, ◌≢◌}
use mathlib.Core.Bool.{Bool, true, false, ◌&&◌, ◌||◌}
use mathlib.Core.Option.{Option, none, some}
use mathlib.Core.List.{List, [], ◌∷◌, ◌++◌, map, reverse}
use native.Mathlib.Omega.{arith}
use rillan.Base.Tests.{leb, ◌==◌, if◌then◌else◌}
use rillan.Base.Lists.{length, length-reverse}

abbrev pub Str : Type 0
Str = List ℕ

-- The bytes of an ASCII literal.
unfoldable pub lit : String → Str
lit String.[] = []
lit (String.◌∷◌ c s) = code c ∷ lit s

unfoldable pub str_eq : Str → Str → Bool
str_eq [] [] = true
str_eq (a ∷ s) (b ∷ t) = a == b && str_eq s t
str_eq _ _ = false

pub str_eq_iff : (s t : Str) → (str_eq s t ≡ true) ↔ (s ≡ t)
unfolding str_eq
str_eq_iff [] [] = ground arith
str_eq_iff [] (b ∷ t) = ground arith
str_eq_iff (a ∷ s) [] = ground arith
str_eq_iff (a ∷ s) (b ∷ t) = ground (arith, str_eq_iff s t)

pub str_eq_refl : (s : Str) → str_eq s s ≡ true
str_eq_refl s = (str_eq_iff s s).1 refl

pub str_eq-eq_false : (s t : Str) → (s ≢ t) → str_eq s t ≡ false
str_eq-eq_false s t ne = ground (arith, ne, str_eq_iff s t)

-- `strings.Compare`: the order of the first byte that differs.
unfoldable pub str_compare : Str → Str → Ordering
str_compare [] [] = Ordering.eq
str_compare [] (b ∷ t) = Ordering.lt
str_compare (a ∷ s) [] = Ordering.gt
str_compare (a ∷ s) (b ∷ t) =
    let rest = str_compare s t in
    elim (compare a b) [ Ordering.lt ↦ Ordering.lt | Ordering.gt ↦ Ordering.gt | _ ↦ rest ]

unfoldable pub is_space : ℕ → Bool
is_space c = (leb 9 c && leb c 13) || c == 32

unfoldable pub trim_left : Str → Str
trim_left [] = []
trim_left (c ∷ s) = let rest = trim_left s in if is_space c then rest else c ∷ s

-- `strings.TrimSpace`
unfoldable pub trim_space : Str → Str
unfolding trim_left is_space
trim_space s = reverse (trim_left (reverse (trim_left s)))

unfoldable pub lower_byte : ℕ → ℕ
lower_byte c = if leb b'A' c && leb c b'Z' then c + 32 else c

-- `strings.ToLower`
unfoldable pub to_lower : Str → Str
unfolding lower_byte
to_lower s = map lower_byte s

-- `strings.ToLower(strings.TrimSpace(value))`, as each package has it.
unfoldable pub normalize_string : Str → Str
unfolding trim_space to_lower
normalize_string value = to_lower (trim_space value)

unfoldable pub has_prefix : Str → Str → Bool
has_prefix s [] = true
has_prefix [] (p ∷ ps) = false
has_prefix (c ∷ s) (p ∷ ps) = c == p && has_prefix s ps

-- `strings.Join`
unfoldable pub join : List Str → Str → Str
join [] sep = []
join (s ∷ []) sep = s
join (s ∷ t ∷ ss) sep = s ++ (sep ++ join (t ∷ ss) sep)

-- `strings.Split`, by one byte.
unfoldable pub split : ℕ → Str → List Str
split sep [] = [] ∷ []
split sep (c ∷ s) = let rest = split sep s in if c == sep then [] ∷ rest else extend c rest
  where
    extend : ℕ → List Str → List Str
    extend c [] = (c ∷ []) ∷ []
    extend c (t ∷ ts) = (c ∷ t) ∷ ts

-- `strings.Join(lines, "\n")`
unfoldable pub join_lines : List Str → Str
join_lines [] = []
join_lines (line ∷ []) = line
join_lines (line ∷ next ∷ lines) = line ++ (10 ∷ join_lines (next ∷ lines))

-- Whether a list of texts, the keys of a Go set, holds a text.
unfoldable pub str_mem : Str → List Str → Bool
str_mem s [] = false
str_mem s (t ∷ ts) = str_eq t s || str_mem s ts

-- A read of a Go map: the first entry of the association list with the key.
unfoldable pub lookup {ℓ} : {V : Type ℓ} → Str → List (Str × V) → Option V
lookup key [] = none
lookup key ((k, v) ∷ m) = if str_eq k key then some v else lookup key m

pub length-trim_left-le : (s : Str) → length (trim_left s) ≤ length s
unfolding trim_left
length-trim_left-le [] = omega arith
length-trim_left-le (c ∷ s) = ground (arith, length-trim_left-le s)

pub length-trim_space-le : (s : Str) → length (trim_space s) ≤ length s
unfolding trim_space
length-trim_space-le s = omega (
  arith,
  length-trim_left-le s,
  length-reverse (trim_left s),
  length-trim_left-le (reverse (trim_left s)),
  length-reverse (trim_left (reverse (trim_left s))),
)

pub length-to_lower : (s : Str) → length (to_lower s) ≡ length s
unfolding to_lower
length-to_lower [] = refl
length-to_lower (c ∷ s) = ap suc (length-to_lower s)
