-- ===== src/Controller/Changes.antt =====
-- When a pass of the reconciler writes to the API server, and what it returns.
use wish_operator.Common.{
  ◌≡◌, refl, ap, ◌⊎◌, inl, inr, ◌↔◌, ◌≢◌, Bool, true, false, not, ◌||◌, arith, ℤ, length, keep_all,
  Bool-cases,
}
use wish_operator.Wish.{after, Reservation, WishStatus, Wish, is_expired}
use wish_operator.Client.{Client, ObjectKey, Fetch, found, not_found, failed}
use wish_operator.Controller.{
  Readings, Pass, same_bool, with_status, set_active, schedule_ttl, needs_migration, migrate,
  cleanup, schedule_next, reconcile_pass, error, requeue, after_get, reconcile,
}
use wish_operator.Controller.Cleanup.{
  drops, drops_lem, clean_from-eq, migrated_list, settled, set_active-wish, schedule_ttl-wish,
  migrate-wish, reconcile_pass-settled,
}

-- The three reasons for a write.
must_write : Readings → Wish → Bool
must_write r w =
    not (same_bool w.status.active (not (is_expired r.at_expiry w)))
    || needs_migration w.status
    || drops r.at_cleanup (migrated_list w.status)

set_active-changed :
    (r : Readings) (p : Pass)
    → (set_active r p).status_changed
      ≡ p.status_changed
        || not (same_bool p.wish.status.active (not (is_expired r.at_expiry p.wish)))
unfolding set_active
set_active-changed r p = ground arith

schedule_ttl-changed :
    (r : Readings) (p : Pass) → (schedule_ttl r p).status_changed ≡ p.status_changed
unfolding schedule_ttl
schedule_ttl-changed r p = ground arith

migrate-changed :
    (p : Pass) → (migrate p).status_changed ≡ p.status_changed || needs_migration p.wish.status
unfolding migrate
migrate-changed p = ground arith

cleanup-changed :
    (r : Readings) (p : Pass)
    → (cleanup r p).status_changed
      ≡ p.status_changed || drops r.at_cleanup p.wish.status.reservations
unfolding cleanup
cleanup-changed r p = rw clean_from-eq

schedule_next-changed :
    (r : Readings) (p : Pass) → (schedule_next r p).status_changed ≡ p.status_changed
unfolding schedule_next
schedule_next-changed r p = ground arith

reconcile_pass-changed :
    (r : Readings) (w : Wish) → (reconcile_pass r w).status_changed ≡ must_write r w
unfolding reconcile_pass must_write needs_migration migrated_list
reconcile_pass-changed r w = rw (
  schedule_next-changed, cleanup-changed, migrate-wish, migrate-changed, schedule_ttl-changed,
  schedule_ttl-wish, set_active-changed, set_active-wish,
)

settled_of_no_write : (r : Readings) (w : Wish) → must_write r w ≡ false → settled r w ≡ w.status
unfolding must_write settled migrated_list
settled_of_no_write r w h =
    let rs = w.status.reservations in
    ground (
      arith,
      drops_lem r.at_cleanup rs,
      keep_all (λ (x : Reservation). after x.expires_at r.at_cleanup) rs,
    )

no_write_of_settled : (r : Readings) (w : Wish) → settled r w ≡ w.status → must_write r w ≡ false
unfolding must_write settled migrated_list
no_write_of_settled r w h =
    let rs = w.status.reservations in
    let lengths = ap (λ (st : WishStatus). length st.reservations) h in
    let active = ap (λ (st : WishStatus). st.active) h in
    let reserved = ap (λ (st : WishStatus). st.reserved) h in
    ground (arith, drops_lem r.at_cleanup rs)

-- A pass asks for a write exactly when it has changed the wish.
pub status_changed_iff :
    (r : Readings) (w : Wish)
    → ((reconcile_pass r w).status_changed ≡ false) ↔ ((reconcile_pass r w).wish ≡ w)
status_changed_iff r w =
    rw (reconcile_pass-changed, reconcile_pass-settled)
      (
        (λ h. ap (with_status w) (settled_of_no_write r w h)),
        (λ h. no_write_of_settled r w (ap (λ (v : Wish). v.status) h)),
      )

Bool-no_confusion : (b : Bool) → (b ≢ false) ↔ (b ≡ true)
Bool-no_confusion b = ground arith

requeue-ne-error : (d : ℤ) → requeue d ≢ error
requeue-ne-error d = ground arith

module _ (c : Client) (r : Readings) (s : c.Store) where
  open c use {Store, get, update_status}

  -- What was fetched is a wish that the pass changes.
  abbrev pub Changed : Fetch → Wish → Type 0
  Changed f w = (f ≡ found w) × ((reconcile_pass r w).wish ≢ w)

  after_get-writes :
      (f : Fetch)
      → ((after_get c r s f).0 ≡ s)
        ⊎ ((w : Wish) × Changed f w
            × ((after_get c r s f).0 ≡ (update_status s (reconcile_pass r w).wish).0))
  unfolding after_get
  after_get-writes not_found = inl refl
  after_get-writes failed = inl refl
  after_get-writes (found w) = elim (Bool-cases (reconcile_pass r w).status_changed) [
    | inl changed ↦
        inr (w, (refl, λ same. cc (changed, (status_changed_iff r w).1 same)), ground arith)
    | inr quiet ↦ inl (ground arith)
  ]

  after_get_error :
      (f : Fetch)
      → (after_get c r s f).1 ≡ error
      → (f ≡ failed)
        ⊎ ((w : Wish) × Changed f w × ((update_status s (reconcile_pass r w).wish).1 ≡ false))
  unfolding after_get
  after_get_error not_found e = absurd (cc)
  after_get_error failed e = inl refl
  after_get_error (found w) e = inr (
    w,
    (
      refl,
      λ same. ground (
        arith,
        (status_changed_iff r w).1 same,
        requeue-ne-error (reconcile_pass r w).requeue_after,
      ),
    ),
    ground (arith, requeue-ne-error (reconcile_pass r w).requeue_after),
  )

  after_get-eq-error :
      (w : Wish)
      → (reconcile_pass r w).wish ≢ w
      → (update_status s (reconcile_pass r w).wish).1 ≡ false
      → (after_get c r s (found w)).1 ≡ error
  unfolding after_get
  after_get-eq-error w changed refused =
      let written : (reconcile_pass r w).status_changed ≡ true =
        (Bool-no_confusion _).0 (λ e. changed ((status_changed_iff r w).0 e)) in
      ground arith

  -- A reconciliation leaves the store as it was, or it has read a wish that it changes, and the store
  -- is what the status update with the changed wish makes of it.
  reconcile_writes :
      (key : ObjectKey)
      → ((reconcile c r key s).0 ≡ s)
        ⊎ ((w : Wish) × Changed (get s key) w
            × ((reconcile c r key s).0 ≡ (update_status s (reconcile_pass r w).wish).0))
  unfolding reconcile
  reconcile_writes key = after_get-writes (get s key)

  -- A reconciliation answers an error exactly when the read failed otherwise than by a missing
  -- object, or the wish had to be written and the update failed.
  pub reconcile_error_iff :
      (key : ObjectKey)
      → ((reconcile c r key s).1 ≡ error) ↔ (
          (get s key ≡ failed)
          ⊎ ((w : Wish) × Changed (get s key) w
              × ((update_status s (reconcile_pass r w).wish).1 ≡ false)))
  unfolding reconcile
  reconcile_error_iff key = (after_get_error (get s key), backwards)
    where
      backwards :
          ((get s key ≡ failed)
            ⊎ ((w : Wish) × Changed (get s key) w
                × ((update_status s (reconcile_pass r w).wish).1 ≡ false)))
          → (after_get c r s (get s key)).1 ≡ error
      backwards (inl e) = rw e refl
      backwards (inr (w, (e, changed), refused)) = rw e (after_get-eq-error w changed refused)
