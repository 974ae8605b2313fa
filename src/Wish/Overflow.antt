-- ===== src/Wish/Overflow.antt =====
-- What the int32 accumulator of `TotalReserved` does to a limited wish with very many items
-- reserved.
use wish_operator.Common.{
  ◌≡◌, false, arith, ℤ, pos, ◌+ℤ◌, ◌-ℤ◌, ◌≤ℤ◌, ◌<ℤ◌, wrap32, ltb_ℤ, IsInt32, two31, two32,
  if◌then◌else◌, +ℤ_parts, -ℤ_parts, int_laws, eqb_ℤ,
}
use wish_operator.Wish.{Wish, is_unlimited, get_quantity, available_quantity, is_fully_reserved}
use wish_operator.Wish.Quantity.{
  reserved_sum, total_reserved-wrap, get_quantity-range, get_quantity-pos,
}

wrapped_diff :
    (q t : ℤ)
    → IsInt32 q
    → pos 1 ≤ℤ q
    → q +ℤ pos two31 <ℤ t
    → t <ℤ pos two32
    → (if ltb_ℤ (wrap32 (q -ℤ wrap32 t)) (pos 0) then pos 0 else wrap32 (q -ℤ wrap32 t))
      ≡ q +ℤ (pos two32 -ℤ t)
unfolding ◌+ℤ◌ ◌-ℤ◌ wrap32
wrapped_diff (pos q) (pos t) a b c d = ground arith
wrapped_diff q t a b c d = absurd (ground arith)

wrapped_larger :
    (q t : ℤ)
    → pos 1 ≤ℤ q
    → t <ℤ pos two32
    → (q <ℤ q +ℤ (pos two32 -ℤ t)) × (eqb_ℤ (q +ℤ (pos two32 -ℤ t)) (pos 0) ≡ false)
wrapped_larger q t a b =
    (omega int_laws, ground (arith, +ℤ_parts q (pos two32 -ℤ t), -ℤ_parts (pos two32) t))

module _ (w : Wish) (limited : is_unlimited w ≡ false) (in_range : IsInt32 w.spec.quantity)
    (above : get_quantity w +ℤ pos two31 <ℤ reserved_sum w.status.reservations)
    (below : reserved_sum w.status.reservations <ℤ pos two32) where
  available_wrapped :
      available_quantity w ≡ get_quantity w +ℤ (pos two32 -ℤ reserved_sum w.status.reservations)
  unfolding available_quantity
  available_wrapped =
      rw (limited, total_reserved-wrap w)
        (wrapped_diff _ _ (get_quantity-range w in_range).0 (get_quantity-pos w limited) above
          below)

  -- When the exact sum of a limited wish's reservations exceeds its quantity by more than 2^31 and
  -- is below 2^32, the accumulator wraps around: more items count as available than the wish has,
  -- and it does not count as fully reserved.
  pub overflow_reopens : (get_quantity w <ℤ available_quantity w) × (is_fully_reserved w ≡ false)
  unfolding is_fully_reserved
  overflow_reopens =
      rw (limited, available_wrapped) (wrapped_larger _ _ (get_quantity-pos w limited) below)
