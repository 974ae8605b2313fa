-- ===== src/Common/Int.antt =====
-- Signed integers over the native numbers, and Go's int32 and int64 arithmetic on them.
use Prim.Native.Nat.{ℕ, zero, suc, ◌+◌, ◌-◌, ◌*◌, ◌%◌, ◌≤◌, ◌<◌}
use mathlib.Core.Path.{◌≡◌}
use mathlib.Core.Logic.{◌↔◌}
use mathlib.Core.Bool.{Bool, true}
use native.Mathlib.Omega.{arith}
use wish_operator.Common.Tests.{ltb, leb, if◌then◌else◌, ◌==◌}

-- `negsuc n` is -(n + 1).
pub data ℤ : Type 0 where
  pos : ℕ → ℤ
  negsuc : ℕ → ℤ

abbrev pub pos_part : ℤ → ℕ
pos_part (pos n) = n
pos_part (negsuc n) = 0

abbrev pub neg_part : ℤ → ℕ
neg_part (pos n) = 0
neg_part (negsuc n) = suc n

abbrev pub sub_ℕ : ℕ → ℕ → ℤ
sub_ℕ a b = if leb b a then pos (a - b) else negsuc (b - a - 1)

infixl 65 ◌+ℤ◌ ◌-ℤ◌
infixl 70 ◌*ℤ◌
infix 50 ◌≤ℤ◌ ◌<ℤ◌
unfoldable pub ◌+ℤ◌ : ℤ → ℤ → ℤ
a +ℤ b = sub_ℕ (pos_part a + pos_part b) (neg_part a + neg_part b)

unfoldable pub ◌-ℤ◌ : ℤ → ℤ → ℤ
a -ℤ b = sub_ℕ (pos_part a + neg_part b) (neg_part a + pos_part b)

unfoldable pub ◌*ℤ◌ : ℤ → ℤ → ℤ
a *ℤ b =
    sub_ℕ (pos_part a * pos_part b + neg_part a * neg_part b)
      (pos_part a * neg_part b + neg_part a * pos_part b)

abbrev pub ◌≤ℤ◌ : ℤ → ℤ → Type 0
a ≤ℤ b = pos_part a + neg_part b ≤ pos_part b + neg_part a

abbrev pub ◌<ℤ◌ : ℤ → ℤ → Type 0
a <ℤ b = pos_part a + neg_part b < pos_part b + neg_part a

abbrev pub ltb_ℤ : ℤ → ℤ → Bool
ltb_ℤ a b = ltb (pos_part a + neg_part b) (pos_part b + neg_part a)

abbrev pub leb_ℤ : ℤ → ℤ → Bool
leb_ℤ a b = leb (pos_part a + neg_part b) (pos_part b + neg_part a)

-- The negative of a number.
abbrev pub neg_ℕ : ℕ → ℤ
neg_ℕ zero = pos zero
neg_ℕ (suc n) = negsuc n

abbrev pub eqb_ℤ : ℤ → ℤ → Bool
eqb_ℤ a b = pos_part a + neg_part b == pos_part b + neg_part a

pub +ℤ_parts :
    (a b : ℤ)
    → pos_part (a +ℤ b) + neg_part a + neg_part b ≡ neg_part (a +ℤ b) + pos_part a + pos_part b
unfolding ◌+ℤ◌
+ℤ_parts a b = ground arith

pub -ℤ_parts :
    (a b : ℤ)
    → pos_part (a -ℤ b) + neg_part a + pos_part b ≡ neg_part (a -ℤ b) + pos_part a + neg_part b
unfolding ◌-ℤ◌
-ℤ_parts a b = ground arith

pub eq_of_parts : (a b : ℤ) → pos_part a + neg_part b ≡ pos_part b + neg_part a → a ≡ b
eq_of_parts a b h = ground arith

pub eqb_ℤ_iff : (a b : ℤ) → (eqb_ℤ a b ≡ true) ↔ (a ≡ b)
eqb_ℤ_iff a b = ground arith

pub ruleset int_laws = (arith, +ℤ_parts, -ℤ_parts, eq_of_parts)

-- int32: the low 32 bits of an integer, read in two's complement.
abbrev pub two32 : ℕ
two32 = 4294967296

abbrev pub two31 : ℕ
two31 = 2147483648

bits32 : ℤ → ℕ
bits32 (pos n) = n % two32
bits32 (negsuc n) = two32 - 1 - n % two32

of_bits32 : ℕ → ℤ
of_bits32 u = if ltb u two31 then pos u else negsuc (two32 - 1 - u)

unfoldable pub wrap32 : ℤ → ℤ
unfolding bits32 of_bits32
wrap32 z = of_bits32 (bits32 z)

pub record IsInt32 (z : ℤ) : Type 0 where
  pub above : neg_part z ≤ two31
  pub below : pos_part z < two31

-- int64, for a `time.Duration` and for `int`.
abbrev pub two64 : ℕ
two64 = 18446744073709551616

abbrev pub two63 : ℕ
two63 = 9223372036854775808

bits64 : ℤ → ℕ
bits64 (pos n) = n % two64
bits64 (negsuc n) = two64 - 1 - n % two64

of_bits64 : ℕ → ℤ
of_bits64 u = if ltb u two63 then pos u else negsuc (two64 - 1 - u)

unfoldable pub wrap64 : ℤ → ℤ
unfolding bits64 of_bits64
wrap64 z = of_bits64 (bits64 z)

-- A value in range is not changed by the wrap-around.
pub wrap32_of_IsInt32 : (z : ℤ) → IsInt32 z → wrap32 z ≡ z
unfolding wrap32
wrap32_of_IsInt32 (pos n) h = ground arith
wrap32_of_IsInt32 (negsuc n) h = ground arith

pub wrap32-IsInt32 : (z : ℤ) → IsInt32 (wrap32 z)
unfolding wrap32
wrap32-IsInt32 (pos n) = ground arith
wrap32-IsInt32 (negsuc n) = ground arith

-- Adding modulo 2^32 in the middle of a sum does not change the sum modulo 2^32.
pub wrap32-add_wrap32 : (a b : ℤ) → wrap32 (wrap32 a +ℤ b) ≡ wrap32 (a +ℤ b)
unfolding wrap32 ◌+ℤ◌
wrap32-add_wrap32 (pos a) (pos b) = ground arith
wrap32-add_wrap32 (pos a) (negsuc b) = ground arith
wrap32-add_wrap32 (negsuc a) (pos b) = ground arith
wrap32-add_wrap32 (negsuc a) (negsuc b) = ground arith

-- `t.Sub(u)`: the difference of two times, cut off at the ends of int64.
unfoldable pub clamp64 : ℤ → ℤ
clamp64 (pos n) = if ltb n two63 then pos n else pos (two63 - 1)
clamp64 (negsuc n) = if ltb n two63 then negsuc n else negsuc (two63 - 1)
