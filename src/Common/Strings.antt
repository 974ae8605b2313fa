-- ===== src/Common/Strings.antt =====
-- Go strings as lists of code points, and the functions of package strings that the program calls.
use Prim.Native.Char.{code}
use Prim.Native.String.{String}
use mathlib.Core.Path.{◌≡◌, refl}
use mathlib.Core.Logic.{◌↔◌}
use mathlib.Core.Bool.{Bool, true, false, ◌||◌, ◌&&◌}
use mathlib.Core.List.{List, [], ◌∷◌, map, reverse}
use native.Mathlib.Omega.{arith}
use mathlib.Core.Option.{Option, none, some}
use Prim.Native.Nat.{ℕ, ◌+◌}
use wish_operator.Common.Tests.{ltb, leb, ◌==◌, if◌then◌else◌}

-- Equality and order of code points are those of the UTF-8 bytes that Go compares.
abbrev pub Str : Type 0
Str = List ℕ

abbrev pub str : String → Str
str String.[] = []
str (String.◌∷◌ c s) = code c ∷ str s

infix 50 ◌=s=◌
abbrev pub ◌=s=◌ : Str → Str → Bool
[] =s= [] = true
[] =s= (d ∷ t) = false
(c ∷ s) =s= [] = false
(c ∷ s) =s= (d ∷ t) = if c == d then s =s= t else false

abbrev pub is_empty : Str → Bool
is_empty [] = true
is_empty (c ∷ s) = false

pub =s=_refl : (s : Str) → (s =s= s) ≡ true
=s=_refl [] = refl
=s=_refl (c ∷ s) = ground (arith, =s=_refl s)

pub =s=_sound : (s t : Str) → (s =s= t) ≡ true → s ≡ t
=s=_sound [] [] h = refl
=s=_sound [] (d ∷ t) h = ground arith
=s=_sound (c ∷ s) [] h = ground arith
=s=_sound (c ∷ s) (d ∷ t) h = ground (arith, =s=_sound s t)

pub =s=_iff : (s t : Str) → ((s =s= t) ≡ true) ↔ (s ≡ t)
=s=_iff s t = (=s=_sound s t, λ e. ground (arith, =s=_refl s, e))

-- `s < t` on strings.
unfoldable pub str_lt : Str → Str → Bool
str_lt s [] = false
str_lt [] (d ∷ t) = true
str_lt (c ∷ s) (d ∷ t) = if ltb c d then true else if c == d then str_lt s t else false

-- `slices.Contains`
unfoldable pub contains : List Str → Str → Bool
contains [] s = false
contains (t ∷ ts) s = t =s= s || contains ts s

-- `strings.Split(s, sep)` for a separator of one character.
unfoldable pub prepend : ℕ → List Str → List Str
prepend c [] = (c ∷ []) ∷ []
prepend c (p ∷ ps) = (c ∷ p) ∷ ps

unfoldable pub split : ℕ → Str → List Str
unfolding prepend
split sep [] = [] ∷ []
split sep (c ∷ s) = let rest = split sep s in if c == sep then [] ∷ rest else prepend c rest

-- The first result of `strings.Cut(s, sep)`: what stands before the first separator.
unfoldable pub cut_before : ℕ → Str → Str
cut_before sep [] = []
cut_before sep (c ∷ s) = if c == sep then [] else c ∷ cut_before sep s

-- `unicode.IsSpace`
is_space : ℕ → Bool
is_space c =
    (leb 0x9 c && leb c 0xd)
    || c == 0x20
    || c == 0x85
    || c == 0xa0
    || c == 0x1680
    || (leb 0x2000 c && leb c 0x200a)
    || c == 0x2028
    || c == 0x2029
    || c == 0x202f
    || c == 0x205f
    || c == 0x3000

trim_left : Str → Str
trim_left [] = []
trim_left (c ∷ s) = if is_space c then trim_left s else c ∷ s

-- `strings.TrimSpace`
unfoldable pub trim_space : Str → Str
unfolding is_space trim_left
trim_space s = reverse (trim_left (reverse (trim_left s)))

-- `strings.ToLower` on ASCII letters. No other character has a lower case among the letters of the
-- texts that the program compares its result with.
lower : ℕ → ℕ
lower c = if leb b'A' c && leb c b'Z' then c + 32 else c

unfoldable pub to_lower : Str → Str
unfolding lower
to_lower s = map lower s

-- A Go map with string keys and the value found under a key.
unfoldable pub lookup {ℓ} : {V : Type ℓ} → Str → List (Str × V) → Option V
lookup key [] = none
lookup key ((k, v) ∷ m) = if k =s= key then some v else lookup key m
