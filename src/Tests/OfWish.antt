-- ===== src/Tests/OfWish.antt =====
-- Tests of the Wish methods.
use wish_operator.Common.{
  ◌≡◌, refl, true, false, some, [], ◌∷◌, arith, pos, ◌+ℤ◌, ◌-ℤ◌, ◌<ℤ◌, wrap32,
}
use wish_operator.Wish.{
  Wish, is_unlimited, get_quantity, total_reserved, available_quantity, is_fully_reserved,
  next_reservation_expiry, is_reservation_expired, active_reservations,
}
use wish_operator.Wish.Quantity.{reserved_sum, IsValid}
use wish_operator.Wish.Overflow.{overflow_reopens}
use wish_operator.Wish.Expiry.{IsEarliest, next_reservation_expiry-IsEarliest}
use wish_operator.Tests.Samples.{three_keyboards, legacy_keyboard, wish_of, status_of, held}

one_left : available_quantity three_keyboards ≡ pos 1
unfolding available_quantity is_unlimited get_quantity total_reserved wrap32 ◌+ℤ◌ ◌-ℤ◌
one_left = refl

earliest : next_reservation_expiry three_keyboards ≡ some (pos 500)
unfolding next_reservation_expiry
earliest = refl

legacy_expires : is_reservation_expired (pos 601) legacy_keyboard ≡ true
unfolding is_reservation_expired
legacy_expires = refl

still_active : active_reservations (pos 500) three_keyboards ≡ held 1 200 800 ∷ []
unfolding active_reservations
still_active = refl

three_keyboards-IsValid : IsValid three_keyboards
unfolding reserved_sum get_quantity ◌+ℤ◌
three_keyboards-IsValid = record {
  in_range = omega arith;
  positive = omega arith;
  not_oversold = λ _. omega arith;
}

-- Two reservations of the largest quantity, made while the wish was unlimited.
abbrev crowded : Wish
crowded = wish_of (pos 5) (status_of (held 2147483647 0 900 ∷ held 2147483647 0 900 ∷ []))

overflow_reopens_example :
    (get_quantity crowded <ℤ available_quantity crowded) × (is_fully_reserved crowded ≡ false)
unfolding is_unlimited get_quantity reserved_sum ◌+ℤ◌
overflow_reopens_example = overflow_reopens crowded refl (omega arith) (omega arith) (omega arith)

next_reservation_expiry-IsEarliest_example :
    IsEarliest (next_reservation_expiry three_keyboards) three_keyboards.status.reservations
next_reservation_expiry-IsEarliest_example = next_reservation_expiry-IsEarliest three_keyboards
