-- ===== src/Controller/Description.antt =====
-- What a pass does to a wish, described without the functions of the reconciler.
use wish_operator.Common.{
  ◌≡◌, refl, ◌∙◌, arith, Bool, true, false, not, ◌&&◌, Option, none, some, List, [], ◌∷◌, pos, ◌+ℤ◌,
  ltb_ℤ, leb_ℤ, keep, if◌then◌else◌, length, ◌==◌,
}
use wish_operator.Wish.{Time, Duration, after, Reservation, WishStatus, Wish, is_expired}
use wish_operator.Controller.{Readings, with_status, legacy_list, needs_migration, reconcile_pass}
use wish_operator.Controller.Cleanup.{migrated_list, settled, reconcile_pass-settled}

-- A legacy reservation, which stands in a wish with no other.
unfoldable pub is_legacy : Bool → List Reservation → Bool
is_legacy true [] = true
is_legacy true (x ∷ rs) = false
is_legacy false rs = false

-- The reservations with the legacy one among them.
unfoldable pub all_reservations :
    Bool → Option Time → Option Time → List Reservation → List Reservation
all_reservations true (some at) (some expires) [] =
    (record { quantity = pos 1; created_at = at; expires_at = expires }) ∷ []
all_reservations true none expires [] = []
all_reservations true (some at) none [] = []
all_reservations true at expires (x ∷ rs) = x ∷ rs
all_reservations false at expires rs = rs

-- The TTL has not run out.
unfoldable pub in_time : Time → Time → Option Duration → Bool
in_time now created none = true
in_time now created (some ttl) = leb_ℤ now (created +ℤ ttl)

unfoldable pub described : Readings → Wish → WishStatus
unfolding is_legacy all_reservations in_time
described r w =
    let st = w.status in
    let legacy = is_legacy st.reserved st.reservations in
    let held = all_reservations st.reserved st.reserved_at st.reservation_expires st.reservations in
    record {
      reservations = keep (λ x. ltb_ℤ r.at_cleanup x.expires_at) held;
      active = in_time r.at_expiry w.creation_timestamp w.spec.ttl;
      reserved = st.reserved && not legacy;
      reserved_at = if legacy then none else st.reserved_at;
      reservation_expires = if legacy then none else st.reservation_expires;
    }

needs_migration-legacy :
    (st : WishStatus) → needs_migration st ≡ is_legacy st.reserved st.reservations
unfolding needs_migration is_legacy
needs_migration-legacy st = by_case st.reserved st.reservations
  where
    by_case : (b : Bool) (rs : List Reservation) → b && length rs == 0 ≡ is_legacy b rs
    by_case true [] = refl
    by_case true (x ∷ rs) = ground arith
    by_case false rs = refl

legacy_list-all :
    (b : Bool) (at expires : Option Time) (rs : List Reservation)
    → (if is_legacy b rs then legacy_list at expires rs else rs) ≡ all_reservations b at expires rs
unfolding is_legacy legacy_list all_reservations
legacy_list-all true (some at) (some expires) [] = refl
legacy_list-all true none expires [] = refl
legacy_list-all true (some at) none [] = refl
legacy_list-all true at expires (x ∷ rs) = refl
legacy_list-all false at expires rs = refl

migrated_list-all :
    (st : WishStatus)
    → migrated_list st
      ≡ all_reservations st.reserved st.reserved_at st.reservation_expires st.reservations
unfolding migrated_list
migrated_list-all st =
    rw (needs_migration-legacy st)
      (legacy_list-all st.reserved st.reserved_at st.reservation_expires st.reservations)

active-in_time :
    (now : Time) (w : Wish) → not (is_expired now w) ≡ in_time now w.creation_timestamp w.spec.ttl
unfolding is_expired in_time
active-in_time now w = by_case w.spec.ttl
  where
    by_case :
        (o : Option Duration)
        → not (elim o [ none ↦ false | some ttl ↦ after now (w.creation_timestamp +ℤ ttl) ])
          ≡ in_time now w.creation_timestamp o
    by_case none = refl
    by_case (some ttl) = ground arith

-- A pass leaves the wish with exactly this status, and changes nothing else of it. It is active unless
-- the first reading of the clock is past its creation and TTL. When it has the legacy flag and no
-- reservation, the three legacy fields are cleared and, if both legacy times are there, one reservation of one item
-- with these times takes their place; otherwise the legacy fields stay. Of the reservations, those that
-- expire after the reading at the cleanup are left, in order.
pub reconcile_pass-described :
    (r : Readings) (w : Wish) → (reconcile_pass r w).wish ≡ with_status w (described r w)
unfolding settled described
reconcile_pass-described r w =
    reconcile_pass-settled r w
    ∙ rw (migrated_list-all w.status, needs_migration-legacy w.status, active-in_time r.at_expiry w)
        (ground arith)
