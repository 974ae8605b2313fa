-- ===== src/Controller/Cleanup.antt =====
-- The status that one pass of the reconciler leaves, against a description with no loop.
use wish_operator.Common.{
  ◌≡◌, refl, Bool, true, false, not, ◌||◌, none, List, [], ◌∷◌, ◌++◌, arith, if◌then◌else◌, length,
  ◌==◌, keep, keep_all, length-keep, append-nil, append_assoc,
}
use wish_operator.Wish.{Time, after, Reservation, WishStatus, Wish, is_expired}
use wish_operator.Controller.{
  Readings, Pass, with_status, set_active, schedule_ttl, legacy_list, needs_migration, migrate,
  clean_from, cleanup, schedule_next, reconcile_pass,
}

-- Whether the loop drops a reservation.
pub drops : Time → List Reservation → Bool
drops now [] = false
drops now (r ∷ rs) = not (after r.expires_at now) || drops now rs

abbrev pub live_at : Time → List Reservation → List Reservation
live_at now rs = keep (λ r. after r.expires_at now) rs

pub clean_from-eq :
    (now : Time) (kept : List Reservation) (changed : Bool) (rs : List Reservation)
    → clean_from now kept changed rs ≡ (kept ++ live_at now rs, changed || drops now rs)
unfolding clean_from drops
clean_from-eq now kept false [] = rw append-nil
clean_from-eq now kept true [] = rw append-nil
clean_from-eq now kept changed (r ∷ rs) = ground (
  arith,
  clean_from-eq now (kept ++ r ∷ []) changed rs,
  clean_from-eq now kept true rs,
  append_assoc kept (r ∷ []) (live_at now rs),
)

pub drops_lem :
    (now : Time) (rs : List Reservation) → drops now rs ≡ not (length (live_at now rs) == length rs)
unfolding drops
drops_lem now [] = refl
drops_lem now (r ∷ rs) =
    ground (arith, drops_lem now rs, length-keep (λ (x : Reservation). after x.expires_at now) rs)

-- The reservations after the migration.
unfoldable pub migrated_list : WishStatus → List Reservation
unfolding needs_migration legacy_list
migrated_list st =
    if needs_migration st
    then legacy_list st.reserved_at st.reservation_expires st.reservations
    else st.reservations

-- The status that a pass leaves.
unfoldable pub settled : Readings → Wish → WishStatus
unfolding needs_migration migrated_list
settled r w =
    let st = w.status in
    record {
      reservations = live_at r.at_cleanup (migrated_list st);
      active = not (is_expired r.at_expiry w);
      reserved = if needs_migration st then false else st.reserved;
      reserved_at = if needs_migration st then none else st.reserved_at;
      reservation_expires = if needs_migration st then none else st.reservation_expires;
    }

pub set_active-wish :
    (r : Readings) (p : Pass)
    → (set_active r p).wish
      ≡ with_status p.wish (record (p.wish.status) { active = not (is_expired r.at_expiry p.wish) })
unfolding set_active
set_active-wish r p = ground arith

pub schedule_ttl-wish : (r : Readings) (p : Pass) → (schedule_ttl r p).wish ≡ p.wish
unfolding schedule_ttl
schedule_ttl-wish r p = ground arith

pub migrate-wish :
    (p : Pass)
    → (migrate p).wish ≡ (
        let st = p.wish.status in
        with_status p.wish (record st {
          reservations = migrated_list st;
          reserved = if needs_migration st then false else st.reserved;
          reserved_at = if needs_migration st then none else st.reserved_at;
          reservation_expires = if needs_migration st then none else st.reservation_expires;
        }))
unfolding migrate migrated_list
migrate-wish p = ground arith

pub cleanup-wish :
    (r : Readings) (p : Pass)
    → (cleanup r p).wish
      ≡ with_status p.wish (record (p.wish.status) {
        reservations = live_at r.at_cleanup p.wish.status.reservations;
      })
unfolding cleanup
cleanup-wish r p =
    let rs = p.wish.status.reservations in
    ground (
      arith,
      clean_from-eq r.at_cleanup [] p.status_changed rs,
      keep_all (λ (x : Reservation). after x.expires_at r.at_cleanup) rs,
    )

pub schedule_next-wish : (r : Readings) (p : Pass) → (schedule_next r p).wish ≡ p.wish
unfolding schedule_next
schedule_next-wish r p = ground arith

-- A pass leaves the wish with exactly this status, and changes nothing else of it: active unless the
-- TTL has run out, the legacy reservation moved into an empty list and its three fields cleared, and
-- of the reservations those that expire after the cleanup.
pub reconcile_pass-settled :
    (r : Readings) (w : Wish) → (reconcile_pass r w).wish ≡ with_status w (settled r w)
unfolding reconcile_pass settled
reconcile_pass-settled r w =
    rw (schedule_next-wish, cleanup-wish, migrate-wish, schedule_ttl-wish, set_active-wish)
