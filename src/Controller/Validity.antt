-- ===== src/Controller/Validity.antt =====
-- What a pass of the reconciler keeps: the contract of a wish, and its own result.
use wish_operator.Common.{
  ◌≡◌, ◌≢◌, ap, ◌∙◌, ◌⊎◌, inl, inr, true, false, not, Option, none, some, List, [], ◌∷◌, arith, ℤ,
  pos, ◌+ℤ◌, ◌≤ℤ◌, ◌<ℤ◌, All, All-keep, +ℤ_parts,
}
use wish_operator.Wish.{
  Time, after, Reservation, WishStatus, Wish, is_expired, is_unlimited, get_quantity,
}
use wish_operator.Wish.Quantity.{reserved_sum, IsPositive, IsValid, get_quantity-pos}
use wish_operator.Wish.Expiry.{keep_later}
use wish_operator.Controller.{Readings, with_status, needs_migration, legacy_list, reconcile_pass}
use wish_operator.Controller.Cleanup.{live_at, migrated_list, settled, reconcile_pass-settled}

-- Dropping reservations cannot raise the sum.
pub reserved_sum-live_at :
    (now : Time) (rs : List Reservation)
    → All IsPositive rs
    → reserved_sum (live_at now rs) ≤ℤ reserved_sum rs
unfolding reserved_sum
reserved_sum-live_at now [] h = omega arith
reserved_sum-live_at now (x ∷ rs) (p, h) = ground (
  arith,
  reserved_sum-live_at now rs h,
  +ℤ_parts x.quantity (reserved_sum rs),
  +ℤ_parts x.quantity (reserved_sum (live_at now rs)),
)

legacy_list-positive :
    (at expires : Option Time) (rs : List Reservation)
    → All IsPositive rs
    → All IsPositive (legacy_list at expires rs)
unfolding legacy_list
legacy_list-positive (some at) (some expires) rs h = (omega arith, tt)
legacy_list-positive (some at) none rs h = h
legacy_list-positive none expires rs h = h

legacy_list-sum :
    (at expires : Option Time) (rs : List Reservation) (q : ℤ)
    → pos 1 ≤ℤ q
    → reserved_sum rs ≤ℤ q
    → reserved_sum (legacy_list at expires rs) ≤ℤ q
unfolding legacy_list reserved_sum ◌+ℤ◌
legacy_list-sum (some at) (some expires) rs q one h = ground arith
legacy_list-sum (some at) none rs q one h = h
legacy_list-sum none expires rs q one h = h

pub migrated_list-positive :
    (st : WishStatus) → All IsPositive st.reservations → All IsPositive (migrated_list st)
unfolding migrated_list needs_migration
migrated_list-positive st h =
    ground (arith, legacy_list-positive st.reserved_at st.reservation_expires st.reservations h)

pub migrated_list-sum :
    (st : WishStatus) (q : ℤ)
    → pos 1 ≤ℤ q
    → reserved_sum st.reservations ≤ℤ q
    → reserved_sum (migrated_list st) ≤ℤ q
unfolding migrated_list needs_migration
migrated_list-sum st q one h =
    ground (arith, legacy_list-sum st.reserved_at st.reservation_expires st.reservations q one h)

settled-IsValid : (r : Readings) (w : Wish) → IsValid w → IsValid (with_status w (settled r w))
unfolding settled is_unlimited get_quantity
settled-IsValid r w v =
    let st = w.status in
    let positive = migrated_list-positive st v.positive in
    record {
      in_range = v.in_range;
      positive = All-keep IsPositive (λ x. after x.expires_at r.at_cleanup) _ positive;
      not_oversold = λ limited.
          let q = get_quantity w in
          let one : pos 1 ≤ℤ q = get_quantity-pos w limited in
          let held = migrated_list-sum st q one (v.not_oversold limited) in
          let less = reserved_sum-live_at r.at_cleanup (migrated_list st) positive in
          omega (arith, held, less);
    }

-- A pass keeps the contract of a wish: positive quantities, and no more items reserved than there are,
-- the migrated reservation included.
pub reconcile_pass-IsValid :
    (r : Readings) (w : Wish) → IsValid w → IsValid (reconcile_pass r w).wish
reconcile_pass-IsValid r w v = rw reconcile_pass-settled (settled-IsValid r w v)

-- No legacy reservation beside new ones.
abbrev pub IsMigratable : WishStatus → Type 0
IsMigratable st = (st.reserved ≡ false) ⊎ (st.reservations ≡ [])

settled_absorbs :
    (r r' : Readings) (w : Wish)
    → IsMigratable w.status
    → r.at_cleanup ≤ℤ r'.at_cleanup
    → settled r' (with_status w (settled r w)) ≡ settled r' w
unfolding settled migrated_list needs_migration is_expired
settled_absorbs r r' w (inl h) le =
    ground (arith, keep_later r.at_cleanup r'.at_cleanup w.status.reservations le)
settled_absorbs r r' w (inr h) le =
    let st = w.status in
    ground (
      arith,
      keep_later r.at_cleanup r'.at_cleanup st.reservations le,
      keep_later r.at_cleanup r'.at_cleanup
          (legacy_list st.reserved_at st.reservation_expires st.reservations) le,
    )

-- For a wish with no legacy reservation beside new ones, an earlier pass makes no difference to the
-- wish that a later one leaves: passes can be lost or repeated.
pub reconcile_pass_absorbs :
    (r r' : Readings) (w : Wish)
    → IsMigratable w.status
    → r.at_cleanup ≤ℤ r'.at_cleanup
    → (reconcile_pass r' (reconcile_pass r w).wish).wish ≡ (reconcile_pass r' w).wish
reconcile_pass_absorbs r r' w h le =
    rw (reconcile_pass-settled r' w, reconcile_pass-settled r w, reconcile_pass-settled)
      (ap (with_status w) (settled_absorbs r r' w h le))

-- A legacy reservation with both times that has not expired at the cleanup becomes the one
-- reservation of a wish that had none, for one item and with the legacy times, and the legacy
-- fields are cleared.
migration_moves :
    (r : Readings) (w : Wish) (at expires : Time)
    → w.status.reserved ≡ true
    → w.status.reservations ≡ []
    → w.status.reserved_at ≡ some at
    → w.status.reservation_expires ≡ some expires
    → r.at_cleanup <ℤ expires
    → (reconcile_pass r w).wish.status ≡ record {
      reservations = (record { quantity = pos 1; created_at = at; expires_at = expires }) ∷ [];
      active = not (is_expired r.at_expiry w);
      reserved = false;
      reserved_at = none;
      reservation_expires = none;
    }
unfolding settled migrated_list needs_migration legacy_list
migration_moves r w at expires a b c d e =
    ap (λ (v : Wish). v.status) (reconcile_pass-settled r w) ∙ ground arith

-- A legacy reservation of a wish that already has a reservation is not migrated: its fields stay.
pub migration_skipped :
    (r : Readings) (w : Wish)
    → w.status.reserved ≡ true
    → w.status.reservations ≢ []
    → ((reconcile_pass r w).wish.status.reserved ≡ true)
      × ((reconcile_pass r w).wish.status.reserved_at ≡ w.status.reserved_at)
      × ((reconcile_pass r w).wish.status.reservation_expires ≡ w.status.reservation_expires)
unfolding settled migrated_list needs_migration
migration_skipped r w a b = rw reconcile_pass-settled (ground arith)
