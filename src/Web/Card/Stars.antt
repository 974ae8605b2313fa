-- ===== src/Web/Card/Stars.antt =====
-- The stars of a priority.
use wish_operator.Common.{
  ℕ, zero, suc, ◌-◌, ◌≤◌, ◌≡◌, refl, ap, ◌++◌, arith, ℤ, pos_part, ◌==◌, Str, replicate, length,
  keep, length-append, min,
}
use wish_operator.Web.Card.{stars, filled_stars}

length-replicate : (n c : ℕ) → length (replicate n c) ≡ n
length-replicate zero c = refl
length-replicate (suc n) c = omega (arith, length-replicate n c)

-- The full stars of a text that starts with `n` full stars and ends with `m` empty ones.
full_stars : (n m : ℕ) → length (keep (λ c. c == 9733) (replicate n 9733 ++ replicate m 9734)) ≡ n
full_stars zero zero = refl
full_stars zero (suc m) = full_stars zero m
full_stars (suc n) m = ap suc (full_stars n m)

stars_of : ℕ → Str
stars_of filled = replicate filled 9733 ++ replicate (5 - filled) 9734

filled_stars-clamped : (priority : ℤ) → filled_stars priority ≡ min 5 (pos_part priority)
unfolding filled_stars
filled_stars-clamped priority = ground arith

stars-clamped : (priority : ℤ) → stars priority ≡ stars_of (min 5 (pos_part priority))
unfolding stars stars_of
stars-clamped priority = ap stars_of (filled_stars-clamped priority)

length-stars_of : (filled : ℕ) → filled ≤ 5 → length (stars_of filled) ≡ 5
unfolding stars_of
length-stars_of filled h = omega (
  arith,
  h,
  length-append {A = ℕ} (replicate filled 9733) (replicate (5 - filled) 9734),
  length-replicate filled 9733,
  length-replicate (5 - filled) 9734,
)

-- Every priority is shown by five stars, of which as many are full as the priority says, none for a
-- negative priority and at most five.
stars-count :
    (priority : ℤ)
    → (length (stars priority) ≡ 5)
      × (length (keep (λ c. c == 9733) (stars priority)) ≡ min 5 (pos_part priority))
unfolding stars_of
stars-count priority =
    let k = min 5 (pos_part priority) in
    rw (stars-clamped priority) (length-stars_of k (ground arith), full_stars k (5 - k))
