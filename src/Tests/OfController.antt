-- ===== src/Tests/OfController.antt =====
-- Tests of the reconciler.
use mathlib.Core.List.{Memᴰ}
use wish_operator.Common.{
  ◌≡◌, ◌↔◌, ◌⊎◌, inr, refl, true, false, [], ◌∷◌, arith, pos, ◌+ℤ◌, ◌-ℤ◌, ◌≤ℤ◌, ◌<ℤ◌, clamp64,
}
use wish_operator.Wish.{Wish, is_expired, next_reservation_expiry, get_quantity}
use wish_operator.Wish.Quantity.{IsValid, reserved_sum}
use wish_operator.Client.{found, failed}
use wish_operator.Controller.{
  Readings, with_status, reconcile_pass, set_active, schedule_ttl, migrate, cleanup, schedule_next,
  until, reconcile, result, error,
}
use wish_operator.Controller.Description.{described, reconcile_pass-described}
use wish_operator.Controller.Changes.{Changed, status_changed_iff, reconcile_error_iff}
use wish_operator.Controller.Requeue.{
  requeue_covers_reservation, requeue_covers_ttl, ttl_window_missed,
}
use wish_operator.Controller.Validity.{reconcile_pass-IsValid, reconcile_pass_absorbs}
use wish_operator.Web.Reserve.{key_of}
use wish_operator.Tests.Samples.{
  three_keyboards, legacy_keyboard, wish_of, status_of, held, readings_at, one_wish,
}

-- At time 600 one reservation is dropped, and the other ends 200 later.
wakes_in_200 :
    reconcile (one_wish true) (readings_at 600) (key_of [] []) three_keyboards
    ≡ (with_status three_keyboards (status_of (held 1 200 800 ∷ [])), result (pos 200))
unfolding reconcile reconcile_pass set_active schedule_ttl migrate cleanup schedule_next until
    clamp64 ◌+ℤ◌ ◌-ℤ◌ is_expired next_reservation_expiry
wakes_in_200 = refl

reconcile_pass-described_example :
    (reconcile_pass (readings_at 300) legacy_keyboard).wish
    ≡ with_status legacy_keyboard (described (readings_at 300) legacy_keyboard)
reconcile_pass-described_example = reconcile_pass-described (readings_at 300) legacy_keyboard

status_changed_iff_example :
    ((reconcile_pass (readings_at 600) three_keyboards).status_changed ≡ false)
    ↔ ((reconcile_pass (readings_at 600) three_keyboards).wish ≡ three_keyboards)
status_changed_iff_example = status_changed_iff (readings_at 600) three_keyboards

reconcile_error_iff_example :
    ((reconcile (one_wish false) (readings_at 600) (key_of [] []) three_keyboards).1 ≡ error) ↔ (
      (found three_keyboards ≡ failed)
      ⊎ ((w : Wish) × Changed
            (one_wish false)
            (readings_at 600)
            three_keyboards
            (found three_keyboards)
            w
          × (false ≡ false)))
reconcile_error_iff_example =
    reconcile_error_iff (one_wish false) (readings_at 600) three_keyboards (key_of [] [])

-- The four readings of a pass, one after the other.
abbrev ticking : Readings
ticking = record {
  at_expiry = pos 600;
  at_ttl = pos 600;
  at_cleanup = pos 601;
  at_requeue = pos 603;
}

requeue_covers_reservation_example :
    (pos 0 <ℤ (reconcile_pass ticking three_keyboards).requeue_after)
    × (pos 603 +ℤ (reconcile_pass ticking three_keyboards).requeue_after ≤ℤ pos 800)
unfolding reconcile_pass set_active schedule_ttl migrate cleanup schedule_next is_expired ◌+ℤ◌ until
    clamp64 ◌-ℤ◌ next_reservation_expiry
requeue_covers_reservation_example =
    requeue_covers_reservation ticking three_keyboards {x = held 1 200 800} (omega arith, tt)
      (Memᴰ.head refl)

requeue_covers_ttl_example :
    (pos 0 <ℤ (reconcile_pass (readings_at 600) three_keyboards).requeue_after)
    × (pos 600 +ℤ (reconcile_pass (readings_at 600) three_keyboards).requeue_after
        ≤ℤ pos 0 +ℤ pos 1000)
unfolding reconcile_pass set_active schedule_ttl migrate cleanup schedule_next is_expired ◌+ℤ◌ until
    clamp64 ◌-ℤ◌ next_reservation_expiry
requeue_covers_ttl_example =
    requeue_covers_ttl (readings_at 600) three_keyboards (pos 1000) refl refl (omega arith)

-- A wish with no reservation, reconciled at the instant at which its TTL runs out.
ttl_window_missed_example :
    ((reconcile_pass (readings_at 1000) (wish_of (pos 1) (status_of []))).wish.status.active ≡ true)
    × ((reconcile_pass (readings_at 1000) (wish_of (pos 1) (status_of []))).requeue_after ≡ pos 0)
unfolding reconcile_pass set_active schedule_ttl migrate cleanup schedule_next is_expired ◌+ℤ◌ until
    clamp64 ◌-ℤ◌ next_reservation_expiry
ttl_window_missed_example =
    ttl_window_missed (readings_at 1000) (wish_of (pos 1) (status_of [])) (pos 1000) refl
      (omega arith) (omega arith) refl

legacy_keyboard-IsValid : IsValid legacy_keyboard
unfolding reserved_sum get_quantity
legacy_keyboard-IsValid = record {
  in_range = omega arith;
  positive = tt;
  not_oversold = λ _. omega arith;
}

reconcile_pass-IsValid_example : IsValid (reconcile_pass (readings_at 300) legacy_keyboard).wish
reconcile_pass-IsValid_example =
    reconcile_pass-IsValid (readings_at 300) legacy_keyboard legacy_keyboard-IsValid

reconcile_pass_absorbs_example :
    (reconcile_pass (readings_at 400) (reconcile_pass (readings_at 300) legacy_keyboard).wish).wish
    ≡ (reconcile_pass (readings_at 400) legacy_keyboard).wish
reconcile_pass_absorbs_example =
    reconcile_pass_absorbs (readings_at 300) (readings_at 400) legacy_keyboard (inr refl)
      (omega arith)
