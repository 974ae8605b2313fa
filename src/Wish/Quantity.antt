-- ===== src/Wish/Quantity.antt =====
-- What `TotalReserved`, `AvailableQuantity` and `IsFullyReserved` compute.
use wish_operator.Common.{
  ◌≡◌, ap, ◌∙◌, ◌↔◌, inl, inr, true, false, List, [], ◌∷◌, ◌++◌, arith, ℤ, pos, negsuc, ◌+ℤ◌, ◌-ℤ◌,
  ◌≤ℤ◌, ltb_ℤ, eqb_ℤ, wrap32, IsInt32, wrap32_of_IsInt32, wrap32-IsInt32, wrap32-add_wrap32,
  int_laws, All, Bool-cases, if◌then◌else◌, +ℤ_parts, eq_of_parts,
}
use wish_operator.Wish.{
  Reservation, Wish, is_unlimited, get_quantity, total_from, total_reserved, max_int32,
  available_quantity, is_fully_reserved,
}

-- The exact sum of the reserved quantities.
unfoldable pub reserved_sum : List Reservation → ℤ
reserved_sum [] = pos 0
reserved_sum (r ∷ rs) = r.quantity +ℤ reserved_sum rs

-- The validation rule on a reservation's quantity.
abbrev pub IsPositive : Reservation → Type 0
IsPositive r = pos 1 ≤ℤ r.quantity

-- The contract of a wish: its quantity is an int32, every reservation is for at least one item, and
-- unless the quantity is unlimited, no more items are reserved than there are.
pub record IsValid (w : Wish) : Type 0 where
  pub in_range : IsInt32 w.spec.quantity
  pub positive : All IsPositive w.status.reservations
  pub not_oversold : is_unlimited w ≡ false → reserved_sum w.status.reservations ≤ℤ get_quantity w

+ℤ_regroup : (a b c : ℤ) → a +ℤ b +ℤ c ≡ a +ℤ (b +ℤ c)
+ℤ_regroup a b c = omega int_laws

+ℤ_zero : (a : ℤ) → a +ℤ pos 0 ≡ a
+ℤ_zero a = omega int_laws

total_from-wrap :
    (acc : ℤ) (rs : List Reservation)
    → IsInt32 acc
    → total_from acc rs ≡ wrap32 (acc +ℤ reserved_sum rs)
unfolding total_from reserved_sum
total_from-wrap acc [] h = rw +ℤ_zero (rw (wrap32_of_IsInt32 acc h))
total_from-wrap acc (r ∷ rs) h =
    total_from-wrap (wrap32 (acc +ℤ r.quantity)) rs (wrap32-IsInt32 _)
    ∙ wrap32-add_wrap32 (acc +ℤ r.quantity) (reserved_sum rs)
    ∙ ap wrap32 (+ℤ_regroup acc r.quantity (reserved_sum rs))

zero_add : (a : ℤ) → pos 0 +ℤ a ≡ a
zero_add a = omega int_laws

-- `TotalReserved` is the exact sum of the reserved quantities modulo 2^32, in the range of int32,
-- for every list of reservations.
pub total_reserved-wrap :
    (w : Wish) → total_reserved w ≡ wrap32 (reserved_sum w.status.reservations)
unfolding total_reserved
total_reserved-wrap w =
    total_from-wrap (pos 0) w.status.reservations (omega arith) ∙ ap wrap32 (zero_add _)

pub reserved_sum-nonneg : (rs : List Reservation) → All IsPositive rs → pos 0 ≤ℤ reserved_sum rs
unfolding reserved_sum
reserved_sum-nonneg [] h = omega arith
reserved_sum-nonneg (r ∷ rs) (p, h) =
    omega (arith, +ℤ_parts r.quantity (reserved_sum rs), reserved_sum-nonneg rs h)

pub reserved_sum-append :
    (xs ys : List Reservation) → reserved_sum (xs ++ ys) ≡ reserved_sum xs +ℤ reserved_sum ys
unfolding reserved_sum
reserved_sum-append [] ys = omega int_laws
reserved_sum-append (r ∷ xs) ys = rw (reserved_sum-append xs ys) (omega int_laws)

pub get_quantity-range :
    (w : Wish) → IsInt32 w.spec.quantity → IsInt32 (get_quantity w) × (pos 0 ≤ℤ get_quantity w)
unfolding get_quantity
get_quantity-range w h = ground arith

pub get_quantity-pos : (w : Wish) → is_unlimited w ≡ false → pos 1 ≤ℤ get_quantity w
unfolding get_quantity is_unlimited
get_quantity-pos w h = ground arith

-- The last three lines of `AvailableQuantity`, for a quantity and a total that are not negative.
clamp_diff :
    (q t : ℤ)
    → pos 0 ≤ℤ q
    → IsInt32 q
    → pos 0 ≤ℤ t
    → IsInt32 t
    → (if ltb_ℤ (wrap32 (q -ℤ t)) (pos 0) then pos 0 else wrap32 (q -ℤ t))
      ≡ (if ltb_ℤ t q then q -ℤ t else pos 0)
unfolding ◌-ℤ◌ wrap32
clamp_diff (pos q) (pos t) a b c d = ground arith
clamp_diff (pos q) (negsuc t) a b c d = absurd (omega arith)
clamp_diff (negsuc q) t a b c d = absurd (omega arith)

-- `AvailableQuantity` of a limited wish, as long as the exact sum of its reservations is an int32:
-- what is left of the quantity, and 0 when nothing is left.
pub available_exact :
    (w : Wish)
    → is_unlimited w ≡ false
    → IsInt32 w.spec.quantity
    → All IsPositive w.status.reservations
    → IsInt32 (reserved_sum w.status.reservations)
    → available_quantity w ≡ (
        if ltb_ℤ (reserved_sum w.status.reservations) (get_quantity w)
        then get_quantity w -ℤ reserved_sum w.status.reservations
        else pos 0)
unfolding available_quantity
available_exact w limited r p s =
    let same : total_reserved w ≡ reserved_sum w.status.reservations =
      total_reserved-wrap w ∙ wrap32_of_IsInt32 _ s in
    let (fits, nonneg) = get_quantity-range w r in
    rw (limited, same) (clamp_diff _ _ nonneg fits (reserved_sum-nonneg _ p) s)

clamped_add : (q t : ℤ) → t ≤ℤ q → (if ltb_ℤ t q then q -ℤ t else pos 0) +ℤ t ≡ q
clamped_add q t h = elim (Bool-cases (ltb_ℤ t q)) [
  | inl less ↦ rw less (omega int_laws)
  | inr same ↦ rw same (ground (arith, zero_add t, eq_of_parts t q))
]

clamped_eq_zero :
    (q t : ℤ) → (eqb_ℤ (if ltb_ℤ t q then q -ℤ t else pos 0) (pos 0) ≡ true) ↔ (q ≤ℤ t)
unfolding ◌-ℤ◌
clamped_eq_zero q t = ground arith

module _ (w : Wish) (limited : is_unlimited w ≡ false) (valid : IsValid w) where
  pub IsValid-reserved_sum :
      (pos 0 ≤ℤ reserved_sum w.status.reservations) × IsInt32 (reserved_sum w.status.reservations)
  IsValid-reserved_sum =
      let (fits, nonneg) = get_quantity-range w valid.in_range in
      let below = valid.not_oversold limited in
      let above = reserved_sum-nonneg _ valid.positive in (above, ground (arith, fits, below))

  -- What is reserved and what is available make up the quantity of a limited wish.
  pub available-add-reserved :
      available_quantity w +ℤ reserved_sum w.status.reservations ≡ get_quantity w
  available-add-reserved =
      rw (available_exact w limited valid.in_range valid.positive IsValid-reserved_sum.1)
        (clamped_add _ _ (valid.not_oversold limited))

-- A limited wish counts as fully reserved exactly when its reservations use up its quantity, as
-- long as their exact sum is an int32.
fully_reserved_iff :
    (w : Wish)
    → is_unlimited w ≡ false
    → IsInt32 w.spec.quantity
    → All IsPositive w.status.reservations
    → IsInt32 (reserved_sum w.status.reservations)
    → (is_fully_reserved w ≡ true) ↔ (get_quantity w ≤ℤ reserved_sum w.status.reservations)
unfolding is_fully_reserved
fully_reserved_iff w limited r p s =
    rw (limited, available_exact w limited r p s)
      (clamped_eq_zero (get_quantity w) (reserved_sum w.status.reservations))

-- An unlimited wish is never fully reserved, whatever its reservations.
pub unlimited_never_full : (w : Wish) → is_unlimited w ≡ true → is_fully_reserved w ≡ false
unfolding is_fully_reserved
unlimited_never_full w h = rw h

-- `AvailableQuantity` lies between 0 and the largest int32, whatever the wish holds.
pub available_range :
    (w : Wish) → (pos 0 ≤ℤ available_quantity w) × (available_quantity w ≤ℤ max_int32)
unfolding available_quantity
available_range w = ground (arith, wrap32-IsInt32 (get_quantity w -ℤ total_reserved w))
