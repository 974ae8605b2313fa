-- ===== src/Tests/OfSystem.antt =====
-- A run of the system: two replicas reserve from the same copy, and one of the updates is refused.
use mathlib.Core.List.{Memᴰ}
use wish_operator.Common.{refl, arith, pos, ◌+ℤ◌, ◌-ℤ◌, wrap32, str}
use wish_operator.Wish.{Wish, is_unlimited, get_quantity, total_reserved, available_quantity}
use wish_operator.Wish.Quantity.{IsValid, reserved_sum}
use wish_operator.Http.{value}
use wish_operator.Numbers.{atoi, parse_int32}
use wish_operator.Web.Reserve.{parse_reserve, check_available, add_reservation}
use wish_operator.System.{
  Cluster, stored, with_pending, reserve, commit, conflict, ◌⟶*◌, ◌⟶◌, here, next, created,
}
use wish_operator.System.Oversell.{never_oversold}
use wish_operator.System.Safe.{IsSafe, NoOversell}
use wish_operator.Tests.Samples.{three_keyboards, reserve_request, one_for_two_weeks}

three_keyboards-IsValid : IsValid three_keyboards
unfolding reserved_sum get_quantity ◌+ℤ◌
three_keyboards-IsValid = record {
  in_range = omega arith;
  positive = omega arith;
  not_oversold = λ _. omega arith;
}

abbrev first : Wish
first = add_reservation (pos 600) one_for_two_weeks three_keyboards

abbrev second : Wish
second = add_reservation (pos 601) one_for_two_weeks three_keyboards

abbrev both_computed : Cluster
both_computed = with_pending (with_pending (created three_keyboards) first) second

abbrev one_stored : Cluster
one_stored = stored both_computed (record three_keyboards { status = first.status })

both_run : created three_keyboards ⟶* both_computed
unfolding parse_reserve value atoi parse_int32 check_available is_unlimited available_quantity
    get_quantity total_reserved wrap32 ◌+ℤ◌ ◌-ℤ◌ add_reservation
both_run =
    next
      (next here (
        reserve three_keyboards (str "en") reserve_request (str "keyboard") (pos 600)
          one_for_two_weeks (Memᴰ.head refl) refl refl))
      (reserve three_keyboards (str "en") reserve_request (str "keyboard") (pos 601)
        one_for_two_weeks (Memᴰ.head refl) refl refl)

first_wins : both_computed ⟶ one_stored
unfolding add_reservation
first_wins = commit first (Memᴰ.tail (Memᴰ.head refl)) refl

two_replicas : created three_keyboards ⟶* one_stored
unfolding add_reservation
two_replicas = next (next both_run first_wins) (conflict second (Memᴰ.head refl) (omega arith))

three_keyboards-IsSafe : IsSafe three_keyboards
unfolding reserved_sum is_unlimited ◌+ℤ◌
three_keyboards-IsSafe = record {
  in_range = record { above = omega arith; below = omega arith };
  limited = refl;
  positive = (omega arith, (omega arith, tt));
  total_range = record { above = omega arith; below = omega arith };
}

never_oversold_example : NoOversell both_computed.current one_stored.current
never_oversold_example = never_oversold three_keyboards three_keyboards-IsSafe both_run first_wins
