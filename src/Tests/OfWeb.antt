-- ===== src/Tests/OfWeb.antt =====
-- Tests of the web server.
use wish_operator.Common.{◌⊎◌, ◌++◌, ◌+ℤ◌, ◌*ℤ◌, wrap64, List}
use wish_operator.Http.{Values, Request}
use wish_operator.Web.Reserve.{reservation_time, new_reservation, Asked}
use wish_operator.Web.Html.{Piece, raw}
use wish_operator.Web.CardForm.Options.{option_list}
use wish_operator.Tests.Samples.{wish_of, status_of, held}
use wish_operator.Common.{
  ◌≡◌, ◌≢◌, ◌↔◌, ◌⊎◌, refl, true, false, none, some, [], ◌∷◌, arith, pos, ◌+ℤ◌, ◌-ℤ◌, ◌≤ℤ◌, wrap32,
  str, is_empty,
}
use wish_operator.Wish.{Wish, is_unlimited, get_quantity, total_reserved, available_quantity}
use wish_operator.Wish.Quantity.{IsValid, reserved_sum}
use wish_operator.Http.{value}
use wish_operator.I18n.{detect_language}
use wish_operator.Numbers.{atoi, parse_int32, sprintf}
use wish_operator.Client.{found}
use wish_operator.Web.Reserve.{
  Asked, pass, parse_reserve, check_available, add_reservation, handle_reserve, reserve_fetched,
}
use wish_operator.Web.Reserve.Checks.{
  IsAdmissible, parse_reserve-IsAdmissible, check_available_iff, add_reservation-IsValid,
}
use wish_operator.Web.Reserve.Effects.{
  Confirmed, WritesOnce, handle_reserve-Confirmed, handle_reserve-writes,
}
use wish_operator.Web.Reserve.Legacy.{passes, legacy_reservation_ignored}
use wish_operator.Tests.Samples.{
  three_keyboards, legacy_keyboard, reserve_request, one_for_two_weeks, one_wish, readings_at,
}

three_keyboards-IsValid : IsValid three_keyboards
unfolding reserved_sum get_quantity ◌+ℤ◌
three_keyboards-IsValid = record {
  in_range = omega arith;
  positive = omega arith;
  not_oversold = λ _. omega arith;
}

one_for_two_weeks-IsAdmissible : IsAdmissible one_for_two_weeks
one_for_two_weeks-IsAdmissible = omega arith

parsed : parse_reserve (str "RU") reserve_request (str "keyboard") ≡ pass one_for_two_weeks
unfolding parse_reserve value atoi parse_int32
parsed = refl

message : sprintf (str "Only %d of %d") (pos 12 ∷ pos 0 ∷ []) ≡ str "Only 12 of 0"
unfolding sprintf
message = refl

parse_reserve-IsAdmissible_example :
    (is_empty (str "keyboard") ≡ false)
    × (reserve_request.form ≢ none)
    × IsAdmissible one_for_two_weeks
parse_reserve-IsAdmissible_example =
    parse_reserve-IsAdmissible (str "RU") reserve_request (str "keyboard") parsed

check_available_iff_example : (check_available (str "en") three_keyboards (pos 1) ≡ pass tt) ↔ (
    (is_unlimited three_keyboards ≡ true)
    ⊎ (reserved_sum three_keyboards.status.reservations +ℤ pos 1 ≤ℤ get_quantity three_keyboards))
check_available_iff_example =
    check_available_iff (str "en") three_keyboards (pos 1) three_keyboards-IsValid (omega arith)

one_fits : check_available (str "en") three_keyboards (pos 1) ≡ pass tt
unfolding check_available is_unlimited available_quantity get_quantity total_reserved wrap32 ◌+ℤ◌
    ◌-ℤ◌
one_fits = refl

add_reservation-IsValid_example :
    IsValid (add_reservation (pos 600) one_for_two_weeks three_keyboards)
add_reservation-IsValid_example =
    add_reservation-IsValid (str "en") (pos 600) one_for_two_weeks three_keyboards
      three_keyboards-IsValid one_for_two_weeks-IsAdmissible one_fits

handle_reserve-Confirmed_example :
    (a : Asked) × (parse_reserve (detect_language reserve_request) reserve_request (str "keyboard")
      ≡ pass a)
    × Confirmed
        (one_wish true)
        (λ _. true)
        (detect_language reserve_request)
        (pos 600)
        three_keyboards
        a
        (found three_keyboards)
        (handle_reserve
          (one_wish true)
          (λ _. true)
          (str "default")
          (pos 600)
          reserve_request
          (str "keyboard")
          three_keyboards)
unfolding handle_reserve reserve_fetched parse_reserve value atoi parse_int32 check_available
    is_unlimited available_quantity get_quantity total_reserved wrap32 ◌+ℤ◌ ◌-ℤ◌
handle_reserve-Confirmed_example =
    handle_reserve-Confirmed (one_wish true) (λ _. true) (str "default") (pos 600) reserve_request
      (str "keyboard") three_keyboards refl

handle_reserve-writes_example :
    ((handle_reserve
        (one_wish false)
        (λ _. true)
        (str "default")
        (pos 600)
        reserve_request
        (str "keyboard")
        three_keyboards).0
      ≡ three_keyboards)
    ⊎ ((a : Asked) × (parse_reserve
            (detect_language reserve_request)
            reserve_request
            (str "keyboard")
          ≡ pass a)
        × WritesOnce
            (one_wish false)
            (λ _. true)
            (detect_language reserve_request)
            (pos 600)
            three_keyboards
            a
            (found three_keyboards)
            (handle_reserve
              (one_wish false)
              (λ _. true)
              (str "default")
              (pos 600)
              reserve_request
              (str "keyboard")
              three_keyboards).0)
handle_reserve-writes_example =
    handle_reserve-writes (one_wish false) (λ _. true) (str "default") (pos 600) reserve_request
      (str "keyboard") three_keyboards

-- Two of three items are available, so the card has a select of 1 and 2.
abbrev two_left : Wish
two_left = wish_of (pos 3) (status_of (held 1 100 500 ∷ []))

abbrev quantity_select : List Piece
quantity_select =
    raw (str " <select name=\"quantity\" required>")
    ∷ (option_list (1 ∷ 2 ∷ []) ++ raw (str "</select> ") ∷ [])

abbrev two_of_them : Values
two_of_them = (str "weeks", str "8") ∷ (str "quantity", str "2") ∷ []

abbrev two_request : Request
two_request = record (reserve_request) { form = some two_of_them }

legacy_reservation_ignored_example :
    let later =
      (passes
        (readings_at 300 ∷ readings_at 400 ∷ [])
        (add_reservation (pos 200) one_for_two_weeks legacy_keyboard)).status in
    (check_available (str "en") legacy_keyboard (pos 1) ≡ pass tt)
    × (later.reserved ≡ true)
    × (later.reserved_at ≡ some (pos 100))
    × (later.reservation_expires ≡ some (pos 600))
unfolding new_reservation reservation_time wrap64 ◌*ℤ◌ ◌+ℤ◌
legacy_reservation_ignored_example =
    legacy_reservation_ignored (str "en") (pos 200) one_for_two_weeks legacy_keyboard
      (readings_at 300 ∷ readings_at 400 ∷ []) refl refl refl refl (omega arith, (omega arith, tt))
