-- ===== src/Numbers/RoundTrip.antt =====
-- Parsing what was printed, and the range of what is parsed.
use wish_operator.Common.{
  is_empty, sym, ℕ, zero, suc, ◌+◌, ◌-◌, ◌*◌, ◌/◌, ◌%◌, ◌≤◌, ◌<◌, ◌≡◌, refl, ◌∙◌, ap, inl, inr,
  false, Option, none, some, [], ◌∷◌, arith, ℤ, pos, pos_part, neg_part, Str, ltb, two31, two63,
  IsInt32, Bool-cases,
}
use wish_operator.Numbers.{
  digits_from, unsigned, positive, negative, parse_signed, parse_int32, atoi, decimal_from, decimal,
}

digits_from-digit :
    (n d : ℕ) (s : Str) → d < 10 → digits_from n ((48 + d) ∷ s) ≡ digits_from (n * 10 + d) s
unfolding digits_from
digits_from-digit n d s h = let value : 48 + d - 48 ≡ d = omega arith in rw value (ground arith)

digits_from-decimal_from :
    (fuel n : ℕ) (s : Str) → n < fuel → digits_from 0 (decimal_from fuel n s) ≡ digits_from n s
unfolding decimal_from
digits_from-decimal_from zero n s h = absurd (omega arith)
digits_from-decimal_from (suc fuel) n s h = elim (Bool-cases (ltb n 10)) [
  | inl last ↦
      rw last (digits_from-digit 0 n s (ground arith) ∙ ap (λ k. digits_from k s) (omega arith))
  | inr more ↦ rw more (
      digits_from-decimal_from fuel (n / 10) ((48 + n % 10) ∷ s) (ground arith)
      ∙ digits_from-digit (n / 10) (n % 10) s (omega arith)
      ∙ ap (λ k. digits_from k s) (omega arith))
]

decimal_from-head :
    (fuel n : ℕ) (s : Str)
    → n < fuel
    → (c : ℕ) × (t : Str) × (decimal_from fuel n s ≡ c ∷ t) × (48 ≤ c)
unfolding decimal_from
decimal_from-head zero n s h = absurd (omega arith)
decimal_from-head (suc fuel) n s h = elim (Bool-cases (ltb n 10)) [
  | inl last ↦ (48 + n, s, rw last, omega arith)
  | inr more ↦
      let (c, t, e, ge) = decimal_from-head fuel (n / 10) ((48 + n % 10) ∷ s) (ground arith) in
      (c, t, rw more e, ge)
]

parse_signed-unsigned :
    (max c : ℕ) (t : Str) → 48 ≤ c → parse_signed max (c ∷ t) ≡ positive max (digits_from 0 (c ∷ t))
unfolding parse_signed unsigned
parse_signed-unsigned max c t h = ground arith

parse_signed-decimal : (max n : ℕ) → n < max → parse_signed max (decimal n) ≡ some (pos n)
unfolding decimal positive
parse_signed-decimal max n h =
    let (c, t, e, ge) = decimal_from-head (suc n) n [] (omega arith) in
    let digits : digits_from 0 (c ∷ t) ≡ some n =
      ap (digits_from 0) (sym e)
      ∙ digits_from-decimal_from (suc n) n [] (omega arith)
      ∙ unfold digits_from in refl in
    ap (parse_signed max) e ∙ parse_signed-unsigned max c t ge ∙ rw digits (ground arith)

-- `ParseInt(…, 10, 32)` reads back every int32 that is not negative from its decimal digits.
pub parse_int32-decimal : (n : ℕ) → n < two31 → parse_int32 (decimal n) ≡ some (pos n)
unfolding parse_int32
parse_int32-decimal n h = parse_signed-decimal two31 n h

-- So does `Atoi`, for the numbers below 2^63.
pub atoi-decimal : (n : ℕ) → n < two63 → atoi (decimal n) ≡ some (pos n)
unfolding atoi
atoi-decimal n h = parse_signed-decimal two63 n h

positive-range : (max : ℕ) (o : Option ℕ) {z : ℤ} → positive max o ≡ some z → pos_part z < max
unfolding positive
positive-range max none e = cc
positive-range max (some n) e = ground arith

negative-range :
    (max : ℕ) (o : Option ℕ) {z : ℤ}
    → negative max o ≡ some z
    → (neg_part z ≤ max) × (pos_part z ≡ 0)
unfolding negative
negative-range max none e = cc
negative-range max (some zero) e = ground arith
negative-range max (some (suc n)) e = ground arith

positive-sign : (max : ℕ) (o : Option ℕ) {z : ℤ} → positive max o ≡ some z → neg_part z ≡ 0
unfolding positive
positive-sign max none e = cc
positive-sign max (some n) e = ground arith

parse_signed-range :
    (max : ℕ) (s : Str) {z : ℤ}
    → 0 < max
    → parse_signed max s ≡ some z
    → (neg_part z ≤ max) × (pos_part z < max)
unfolding parse_signed
parse_signed-range max [] m e = cc
parse_signed-range max (c ∷ s) {z} m e = ground (
  arith,
  positive-range max (unsigned s) {z = z},
  negative-range max (unsigned s) {z = z},
  positive-range max (unsigned (c ∷ s)) {z = z},
  positive-sign max (unsigned s) {z = z},
  positive-sign max (unsigned (c ∷ s)) {z = z},
)

-- What `ParseInt(…, 10, 32)` accepts is an int32, so that the conversion after it changes nothing.
pub parse_int32-IsInt32 : (s : Str) {z : ℤ} → parse_int32 s ≡ some z → IsInt32 z
unfolding parse_int32
parse_int32-IsInt32 s e =
    let (above, below) = parse_signed-range two31 s (omega arith) e in
    record { above = above; below = below }

pub decimal-nonempty : (n : ℕ) → is_empty (decimal n) ≡ false
unfolding decimal
decimal-nonempty n =
    let (c, t, e, _) = decimal_from-head (suc n) n [] (omega arith) in ap is_empty e
