-- ===== src/Controller/Requeue.antt =====
-- When the reconciler asks to be called again.
pub mod Parts
use mathlib.Core.List.{Memᴰ}
use wish_operator.Common.{
  ◌≡◌, refl, sym, ap, ◌∙◌, ◌⊎◌, inl, inr, true, false, not, Option, none, some, List, [], ◌∷◌,
  arith, pos, ◌+ℤ◌, ◌-ℤ◌, ◌≤ℤ◌, ◌<ℤ◌, clamp64, if◌then◌else◌, All, All-mem, not-mem_nil, subst, map,
  +ℤ_parts, Option-cases,
}
use wish_operator.Wish.{Time, Duration, Reservation, Wish, is_expired, next_reservation_expiry}
use wish_operator.Wish.Expiry.{IsEarliest, next_reservation_expiry-IsEarliest, not_expired_at}
use wish_operator.Controller.{
  Readings, Pass, until, sooner, set_active, schedule_ttl, migrate, cleanup, next_requeue,
  schedule_next, reconcile_pass,
}
use wish_operator.Controller.Cleanup.{
  live_at, migrated_list, settled, reconcile_pass-settled, schedule_next-wish,
}
use wish_operator.Controller.Requeue.Parts.{
  until-pos, until-nonpos, sooner-remaining, sooner-current, ttl_part, next_part, pass_requeue,
  ttl_part-nonneg, next_part-covers,
}

pub pass_reservations :
    (r : Readings) (w : Wish)
    → (reconcile_pass r w).wish.status.reservations ≡ live_at r.at_cleanup (migrated_list w.status)
unfolding settled
pass_reservations r w = ap (λ (v : Wish). v.status.reservations) (reconcile_pass-settled r w)

-- When no reservation that a pass leaves expires up to its last reading of the clock, every one of them is
-- covered: the pass asks for another run after a positive delay, and at the latest when that
-- reservation expires.
pub requeue_covers_reservation :
    (r : Readings) (w : Wish) {x : Reservation}
    → All (λ y. r.at_requeue <ℤ y.expires_at) (reconcile_pass r w).wish.status.reservations
    → Memᴰ x (reconcile_pass r w).wish.status.reservations
    → (pos 0 <ℤ (reconcile_pass r w).requeue_after)
      × (r.at_requeue +ℤ (reconcile_pass r w).requeue_after ≤ℤ x.expires_at)
requeue_covers_reservation r w {x} ahead m =
    let rs = (reconcile_pass r w).wish.status.reservations in
    rw pass_requeue (
      next_part-covers r (next_reservation_expiry (reconcile_pass r w).wish) _ rs
        (next_reservation_expiry-IsEarliest (reconcile_pass r w).wish) m ahead
        (ttl_part-nonneg r w.spec.ttl w))

next_part-missed :
    (r : Readings) (o : Option Time) (rs : List Reservation) {x : Reservation}
    → IsEarliest o rs
    → Memᴰ x rs
    → x.expires_at ≤ℤ r.at_requeue
    → next_part r o (pos 0) ≡ pos 0
unfolding next_part sooner
next_part-missed r none rs earliest m h = refl
next_part-missed r (some e) rs {x} (there, least) m h =
    let first : e ≤ℤ x.expires_at = All-mem (λ y. e ≤ℤ y.expires_at) rs least m in
    ground (arith, until-nonpos e r.at_requeue (omega (arith, first, h)))

-- When a reservation that a pass leaves has expired by its last reading of the clock, a wish without TTL is
-- not requeued at all, however many other reservations are left to expire later.
requeue_window_missed :
    (r : Readings) (w : Wish) {x : Reservation}
    → w.spec.ttl ≡ none
    → Memᴰ x (reconcile_pass r w).wish.status.reservations
    → x.expires_at ≤ℤ r.at_requeue
    → (reconcile_pass r w).requeue_after ≡ pos 0
unfolding ttl_part
requeue_window_missed r w unending m late =
    let next = next_reservation_expiry (reconcile_pass r w).wish in
    pass_requeue r w
    ∙ ap (λ o. next_part r next (ttl_part r o w)) unending
    ∙ next_part-missed r next (reconcile_pass r w).wish.status.reservations
        (next_reservation_expiry-IsEarliest (reconcile_pass r w).wish) m late

next_part-current :
    (r : Readings) (o : Option Time) (d : Duration)
    → pos 0 <ℤ d
    → (pos 0 <ℤ next_part r o d) × (next_part r o d ≤ℤ d)
unfolding next_part
next_part-current r none d h = (h, omega arith)
next_part-current r (some t) d h = sooner-current (until t r.at_requeue) d h

ttl_part-covers :
    (r : Readings) (w : Wish) (ttl : Duration)
    → is_expired r.at_expiry w ≡ false
    → r.at_ttl <ℤ w.creation_timestamp +ℤ ttl
    → (pos 0 <ℤ ttl_part r (some ttl) w)
      × (r.at_ttl +ℤ ttl_part r (some ttl) w ≤ℤ w.creation_timestamp +ℤ ttl)
unfolding ttl_part
ttl_part-covers r w ttl live ahead =
    let end = w.creation_timestamp +ℤ ttl in
    let (positive, within) = until-pos end r.at_ttl ahead in
    let (wakes, in_time) = sooner-remaining (until end r.at_ttl) (pos 0) (omega arith) positive in
    rw live (
      wakes,
      omega (
        arith,
        within,
        in_time,
        +ℤ_parts r.at_ttl (until end r.at_ttl),
        +ℤ_parts r.at_ttl (sooner (until end r.at_ttl) (pos 0)),
      ),
    )

-- A wish with a TTL that is active after a pass is covered too, if its TTL had not run out at the second
-- reading of the clock: the pass asks for another run after a positive delay, and at the latest when
-- the TTL runs out.
pub requeue_covers_ttl :
    (r : Readings) (w : Wish) (ttl : Duration)
    → w.spec.ttl ≡ some ttl
    → (reconcile_pass r w).wish.status.active ≡ true
    → r.at_ttl <ℤ w.creation_timestamp +ℤ ttl
    → (pos 0 <ℤ (reconcile_pass r w).requeue_after)
      × (r.at_ttl +ℤ (reconcile_pass r w).requeue_after ≤ℤ w.creation_timestamp +ℤ ttl)
unfolding settled
requeue_covers_ttl r w ttl has active ahead =
    let live : is_expired r.at_expiry w ≡ false =
      ground (arith, ap (λ (v : Wish). v.status.active) (reconcile_pass-settled r w)) in
    let next = next_reservation_expiry (reconcile_pass r w).wish in
    let (positive, within) = ttl_part-covers r w ttl live ahead in
    let (wakes, in_time) = next_part-current r next (ttl_part r (some ttl) w) positive in
    let delay : (reconcile_pass r w).requeue_after ≡ next_part r next (ttl_part r (some ttl) w) =
      pass_requeue r w ∙ ap (λ o. next_part r next (ttl_part r o w)) has in
    rw delay (
      wakes,
      omega (
        arith,
        within,
        in_time,
        +ℤ_parts r.at_ttl (ttl_part r (some ttl) w),
        +ℤ_parts r.at_ttl (next_part r next (ttl_part r (some ttl) w)),
      ),
    )

ttl_part_missed :
    (r : Readings) (w : Wish) (ttl : Duration)
    → w.creation_timestamp +ℤ ttl ≤ℤ r.at_ttl
    → ttl_part r (some ttl) w ≡ pos 0
unfolding ttl_part sooner
ttl_part_missed r w ttl h = ground (arith, until-nonpos (w.creation_timestamp +ℤ ttl) r.at_ttl h)

next_of_empty : (w : Wish) → w.status.reservations ≡ [] → next_reservation_expiry w ≡ none
next_of_empty w h = elim (Option-cases (next_reservation_expiry w)) [
  | inl e ↦ e
  | inr (t, e) ↦
      let earliest = next_reservation_expiry-IsEarliest w in
      absurd (no_expiry t w.status.reservations h (rw e at earliest))
]
  where
    no_expiry : (t : Time) (rs : List Reservation) → rs ≡ [] → IsEarliest (some t) rs → ⊥
    no_expiry t [] same (m, _) = elim m [ ]
    no_expiry t (x ∷ rs) same h = cc

-- When the TTL of a wish runs out at the first reading of the clock or after it, and not after the
-- second, a pass that leaves no reservation keeps the wish active and asks for no further run.
pub ttl_window_missed :
    (r : Readings) (w : Wish) (ttl : Duration)
    → w.spec.ttl ≡ some ttl
    → r.at_expiry ≤ℤ w.creation_timestamp +ℤ ttl
    → w.creation_timestamp +ℤ ttl ≤ℤ r.at_ttl
    → (reconcile_pass r w).wish.status.reservations ≡ []
    → ((reconcile_pass r w).wish.status.active ≡ true)
      × ((reconcile_pass r w).requeue_after ≡ pos 0)
unfolding settled next_part
ttl_window_missed r w ttl has lower upper none_left =
    let next = next_of_empty (reconcile_pass r w).wish none_left in
    let live : is_expired r.at_expiry w ≡ false = not_expired_at r.at_expiry w ttl has lower in
    let active = ap (λ (v : Wish). v.status.active) (reconcile_pass-settled r w) in
    (
      active ∙ ap not live,
      pass_requeue r w
          ∙ ap (λ o. next_part r o (ttl_part r w.spec.ttl w)) next
          ∙ ap (λ o. ttl_part r o w) has
          ∙ ttl_part_missed r w ttl upper,
    )
