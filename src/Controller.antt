-- ===== src/Controller.antt =====
-- internal/controller/wish_controller.go: the reconciler of Wish resources.
-- The function reads the clock four times; the readings are arguments, in the order of the reads.
pub mod Cleanup
pub mod Changes
pub mod Requeue
pub mod Validity
pub mod Description
use wish_operator.Common.{
  Bool, true, false, not, ◌&&◌, ◌||◌, Option, none, some, List, [], ◌∷◌, ◌++◌, ℤ, pos, ◌+ℤ◌, ◌-ℤ◌,
  ltb_ℤ, eqb_ℤ, if◌then◌else◌, length, ◌==◌, clamp64,
}
use wish_operator.Wish.{
  Time, Duration, after, Reservation, WishStatus, Wish, is_expired, next_reservation_expiry,
}
use wish_operator.Client.{Client, ObjectKey, Fetch, found, not_found, failed}

pub record Readings : Type 0 where
  pub at_expiry : Time
  pub at_ttl : Time
  pub at_cleanup : Time
  pub at_requeue : Time

-- The variables of `Reconcile`: the wish in memory, `statusChanged` and `requeueAfter`.
pub record Pass : Type 0 where
  pub wish : Wish
  pub status_changed : Bool
  pub requeue_after : Duration

abbrev pub with_status : Wish → WishStatus → Wish
with_status w st = record w { status = st }

abbrev pub same_bool : Bool → Bool → Bool
same_bool true b = b
same_bool false b = not b

-- `time.Until(t)` at the reading `now`.
unfoldable pub until : Time → Time → Duration
until t now = clamp64 (t -ℤ now)

-- The nested tests that lower `requeueAfter` to a positive remaining time.
unfoldable pub sooner : Duration → Duration → Duration
sooner remaining current =
    if ltb_ℤ (pos 0) remaining
    then (if eqb_ℤ current (pos 0) || ltb_ℤ remaining current then remaining else current)
    else current

-- Active status from the TTL.
unfoldable pub set_active : Readings → Pass → Pass
set_active r p =
    let is_active = not (is_expired r.at_expiry p.wish) in
    if same_bool p.wish.status.active is_active then p else record p {
      wish = with_status p.wish (record (p.wish.status) { active = is_active });
      status_changed = true;
    }

unfoldable pub ttl_requeue : Readings → Option Duration → Pass → Pass
ttl_requeue r none p = p
ttl_requeue r (some ttl) p = record p {
  requeue_after = sooner (until (p.wish.creation_timestamp +ℤ ttl) r.at_ttl) p.requeue_after;
}

-- Requeue for the TTL of an active wish; `isActive` is what the first step has computed.
unfoldable pub schedule_ttl : Readings → Pass → Pass
unfolding ttl_requeue sooner
schedule_ttl r p =
    if not (is_expired r.at_expiry p.wish) then ttl_requeue r p.wish.spec.ttl p else p

-- The reservations after the migration of a wish that has none.
unfoldable pub legacy_list : Option Time → Option Time → List Reservation → List Reservation
legacy_list (some at) (some expires) rs =
    (record { quantity = pos 1; created_at = at; expires_at = expires }) ∷ []
legacy_list (some at) none rs = rs
legacy_list none expires rs = rs

unfoldable pub needs_migration : WishStatus → Bool
needs_migration st = st.reserved && length st.reservations == 0

unfoldable pub migrate : Pass → Pass
unfolding legacy_list needs_migration
migrate p =
    let st = p.wish.status in
    if needs_migration st
    then record p {
      wish = with_status p.wish (record st {
        reservations = legacy_list st.reserved_at st.reservation_expires st.reservations;
        reserved = false;
        reserved_at = none;
        reservation_expires = none;
      });
      status_changed = true;
    }
    else p

-- The loop that collects the active reservations and notes whether one was dropped.
unfoldable pub clean_from :
    Time → List Reservation → Bool → List Reservation → List Reservation × Bool
clean_from now kept changed [] = (kept, changed)
clean_from now kept changed (r ∷ rs) =
    let held = clean_from now (kept ++ r ∷ []) changed rs in
    let dropped = clean_from now kept true rs in if after r.expires_at now then held else dropped

unfoldable pub cleanup : Readings → Pass → Pass
unfolding clean_from
cleanup r p =
    let st = p.wish.status in
    let (kept, changed) = clean_from r.at_cleanup [] p.status_changed st.reservations in
    record p {
      wish =
          if length kept == length st.reservations
          then p.wish
          else with_status p.wish (record st { reservations = kept });
      status_changed = changed;
    }

unfoldable pub next_requeue : Readings → Option Time → Pass → Pass
next_requeue r none p = p
next_requeue r (some next) p = record p {
  requeue_after = sooner (until next r.at_requeue) p.requeue_after;
}

-- Requeue for the next reservation to expire.
unfoldable pub schedule_next : Readings → Pass → Pass
unfolding next_requeue sooner
schedule_next r p = next_requeue r (next_reservation_expiry p.wish) p

-- `Reconcile` between the `Get` and the `Update`.
unfoldable pub reconcile_pass : Readings → Wish → Pass
reconcile_pass r w = schedule_next r (
    cleanup r (
      migrate (
        schedule_ttl r
          (set_active r (record { wish = w; status_changed = false; requeue_after = pos 0 })))))

-- A `ctrl.Result` by its `RequeueAfter`, or the error that is returned.
pub data Outcome : Type 0 where
  result : Duration → Outcome
  error : Outcome

abbrev pub requeue : Duration → Outcome
requeue d = if ltb_ℤ (pos 0) d then result d else result (pos 0)

module _ (c : Client) where
  open c use {Store, get, update_status}

  write_back : Store → Pass → Store × Outcome
  write_back s p =
      let (s', written) = update_status s p.wish in
      if p.status_changed
      then (if written then (s', requeue p.requeue_after) else (s', error))
      else (s, requeue p.requeue_after)

  -- The function after the `Get`.
  unfoldable pub after_get : Readings → Store → Fetch → Store × Outcome
  unfolding write_back
  after_get r s not_found = (s, result (pos 0))
  after_get r s failed = (s, error)
  after_get r s (found w) = write_back s (reconcile_pass r w)

  unfoldable pub reconcile : Readings → ObjectKey → Store → Store × Outcome
  unfolding after_get
  reconcile r key s = after_get r s (get s key)
