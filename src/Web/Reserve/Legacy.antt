-- ===== src/Web/Reserve/Legacy.antt =====
-- A reservation that arrives before the reconciler has migrated a legacy one.
use mathlib.Core.List.{Memᴰ}
use wish_operator.Common.{
  ◌≡◌, ◌≢◌, refl, ap, ◌∙◌, sym, subst, true, List, [], ◌∷◌, ◌++◌, arith, pos, wrap32, Str, ◌-ℤ◌,
  ◌<ℤ◌, All, Bool-cases, inl, inr,
}
use wish_operator.Wish.{
  Time, after, Reservation, WishStatus, Wish, is_unlimited, get_quantity, total_reserved,
  available_quantity,
}
use wish_operator.Controller.{Readings, needs_migration, reconcile_pass}
use wish_operator.Controller.Cleanup.{live_at, migrated_list}
use wish_operator.Controller.Requeue.{pass_reservations}
use wish_operator.Controller.Validity.{migration_skipped}
use wish_operator.Web.Reserve.{Asked, pass, check_available, new_reservation, add_reservation}

mem_last {ℓ} : {A : Type ℓ} (xs : List A) (x : A) → Memᴰ x (xs ++ x ∷ [])
mem_last [] x = Memᴰ.head refl
mem_last (y ∷ xs) x = Memᴰ.tail (mem_last xs x)

mem-live_at :
    (now : Time) (rs : List Reservation) {x : Reservation}
    → Memᴰ x rs
    → now <ℤ x.expires_at
    → Memᴰ x (live_at now rs)
mem-live_at now [] m h = elim m [ ]
mem-live_at now (y ∷ rs) {x} (Memᴰ.head e) h =
    let live : after y.expires_at now ≡ true =
      subst (λ z. after z.expires_at now ≡ true) e (ground arith) in
    rw live (Memᴰ.head e)
mem-live_at now (y ∷ rs) (Memᴰ.tail m) h = elim (Bool-cases (after y.expires_at now)) [
  | inl on ↦ rw on (Memᴰ.tail (mem-live_at now rs m h))
  | inr off ↦ rw off (mem-live_at now rs m h)
]

-- The wish after the passes of a list, one after the other.
unfoldable pub passes : List Readings → Wish → Wish
passes [] w = w
passes (r ∷ rs) w = passes rs (reconcile_pass r w).wish

mem-ne_nil : {x : Reservation} (rs : List Reservation) → Memᴰ x rs → rs ≢ []
mem-ne_nil [] m e = elim m [ ]
mem-ne_nil (y ∷ rs) m e = cc

unmigrated : (st : WishStatus) → st.reservations ≢ [] → migrated_list st ≡ st.reservations
unfolding migrated_list needs_migration
unmigrated st h = ground arith

kept_in_pass :
    (r : Readings) (w : Wish) {x : Reservation}
    → w.status.reserved ≡ true
    → Memᴰ x w.status.reservations
    → r.at_cleanup <ℤ x.expires_at
    → Memᴰ x (reconcile_pass r w).wish.status.reservations
kept_in_pass r w {x} legacy m live =
    let rs = w.status.reservations in
    subst (λ l. Memᴰ x l)
      (sym
        (pass_reservations r w ∙ ap (live_at r.at_cleanup) (unmigrated w.status (mem-ne_nil rs m))))
      (mem-live_at r.at_cleanup rs m live)

passes-legacy :
    (rs : List Readings) (w : Wish) {x : Reservation}
    → w.status.reserved ≡ true
    → Memᴰ x w.status.reservations
    → All (λ r. r.at_cleanup <ℤ x.expires_at) rs
    → ((passes rs w).status.reserved ≡ true)
      × ((passes rs w).status.reserved_at ≡ w.status.reserved_at)
      × ((passes rs w).status.reservation_expires ≡ w.status.reservation_expires)
unfolding passes
passes-legacy [] w legacy m live = (legacy, refl, refl)
passes-legacy (r ∷ rs) w legacy m (now, later) =
    let (a, b, c) = migration_skipped r w legacy (mem-ne_nil w.status.reservations m) in
    let (d, e, f) =
      passes-legacy rs (reconcile_pass r w).wish a (kept_in_pass r w legacy m now) later in
    (d, e ∙ b, f ∙ c)

-- A wish for one item with the legacy flag and no other reservation counts as available: a request for
-- one item is let through. In every sequence of passes whose cleanups come before the new
-- reservation expires, the three legacy fields stay as they were, so that the legacy reservation is
-- neither migrated nor cleared.
pub legacy_reservation_ignored :
    (lang : Str) (now : Time) (a : Asked) (w : Wish) (rs : List Readings)
    → w.spec.quantity ≡ pos 1
    → w.status.reserved ≡ true
    → w.status.reservations ≡ []
    → a.quantity ≡ pos 1
    → All (λ r. r.at_cleanup <ℤ (new_reservation now a).expires_at) rs
    → let later = (passes rs (add_reservation now a w)).status in
      (check_available lang w a.quantity ≡ pass tt)
      × (later.reserved ≡ true)
      × (later.reserved_at ≡ w.status.reserved_at)
      × (later.reservation_expires ≡ w.status.reservation_expires)
unfolding check_available add_reservation available_quantity is_unlimited get_quantity
    total_reserved wrap32 ◌-ℤ◌
legacy_reservation_ignored lang now a w rs one legacy empty asked live =
    let (kept, since, until) =
      passes-legacy rs (add_reservation now a w) {x = new_reservation now a} legacy
        (mem_last w.status.reservations (new_reservation now a)) live in
    (ground arith, kept, since, until)
