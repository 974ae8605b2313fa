-- ===== src/Controller/Requeue/Parts.antt =====
-- The parts that the requeue of a pass is made of.
use mathlib.Core.List.{Memᴰ}
use wish_operator.Common.{
  ◌≡◌, refl, sym, ◌∙◌, ◌⊎◌, false, not, Option, none, some, List, [], ◌∷◌, arith, pos, ◌+ℤ◌, ◌-ℤ◌,
  ◌≤ℤ◌, ◌<ℤ◌, clamp64, if◌then◌else◌, All, All-mem, not-mem_nil, subst, map, +ℤ_parts,
}
use wish_operator.Wish.{Time, Duration, Reservation, Wish, is_expired, next_reservation_expiry}
use wish_operator.Wish.Expiry.{IsEarliest}
use wish_operator.Controller.{
  Readings, Pass, until, sooner, set_active, schedule_ttl, migrate, cleanup, next_requeue,
  schedule_next, reconcile_pass,
}
use wish_operator.Controller.Cleanup.{schedule_next-wish}

pub until-pos : (t now : Time) → now <ℤ t → (pos 0 <ℤ until t now) × (now +ℤ until t now ≤ℤ t)
unfolding until clamp64 ◌-ℤ◌ ◌+ℤ◌
until-pos t now h = ground arith

pub until-nonpos : (t now : Time) → t ≤ℤ now → until t now ≤ℤ pos 0
unfolding until clamp64 ◌-ℤ◌
until-nonpos t now h = ground arith

module _ (remaining current : Duration) where
  sooner-nonneg : pos 0 ≤ℤ current → pos 0 ≤ℤ sooner remaining current
  unfolding sooner
  sooner-nonneg h = ground arith

  pub sooner-remaining :
      pos 0 ≤ℤ current
      → pos 0 <ℤ remaining
      → (pos 0 <ℤ sooner remaining current) × (sooner remaining current ≤ℤ remaining)
  unfolding sooner
  sooner-remaining c h = ground arith

  pub sooner-current :
      pos 0 <ℤ current → (pos 0 <ℤ sooner remaining current) × (sooner remaining current ≤ℤ current)
  unfolding sooner
  sooner-current h = ground arith

  sooner_choice : (sooner remaining current ≡ remaining) ⊎ (sooner remaining current ≡ current)
  unfolding sooner
  sooner_choice = ground arith

-- The time to the end of the TTL as the pass has it before it looks at the reservations.
unfoldable pub ttl_part : Readings → Option Duration → Wish → Duration
ttl_part r none w = pos 0
ttl_part r (some ttl) w =
    if not (is_expired r.at_expiry w)
    then sooner (until (w.creation_timestamp +ℤ ttl) r.at_ttl) (pos 0)
    else pos 0

unfoldable pub next_part : Readings → Option Time → Duration → Duration
next_part r none d = d
next_part r (some next) d = sooner (until next r.at_requeue) d

next_part_lem :
    (r : Readings) (o : Option Time) (p : Pass)
    → (next_requeue r o p).requeue_after ≡ next_part r o p.requeue_after
unfolding next_requeue next_part
next_part_lem r none p = refl
next_part_lem r (some t) p = refl

-- The two early steps on the wish as it was read.
early : Readings → Wish → Pass
early r w =
    schedule_ttl r
      (set_active r (record { wish = w; status_changed = false; requeue_after = pos 0 }))

early-requeue : (r : Readings) (w : Wish) → (early r w).requeue_after ≡ ttl_part r w.spec.ttl w
unfolding early schedule_ttl set_active ttl_part is_expired
early-requeue r w = ground arith

migrate-requeue : (p : Pass) → (migrate p).requeue_after ≡ p.requeue_after
unfolding migrate
migrate-requeue p = ground arith

cleanup-requeue : (r : Readings) (p : Pass) → (cleanup r p).requeue_after ≡ p.requeue_after
unfolding cleanup
cleanup-requeue r p = refl

schedule_next-requeue :
    (r : Readings) (p : Pass)
    → (schedule_next r p).requeue_after
      ≡ next_part r (next_reservation_expiry p.wish) p.requeue_after
unfolding schedule_next
schedule_next-requeue r p = next_part_lem r (next_reservation_expiry p.wish) p

-- The requeue delay of a pass, from the TTL and from the wish that the pass leaves.
pub pass_requeue :
    (r : Readings) (w : Wish)
    → (reconcile_pass r w).requeue_after
      ≡ next_part r (next_reservation_expiry (reconcile_pass r w).wish) (ttl_part r w.spec.ttl w)
unfolding reconcile_pass early
pass_requeue r w =
    let p₂ = early r w in
    let e : (cleanup r (migrate p₂)).requeue_after ≡ ttl_part r w.spec.ttl w =
      cleanup-requeue r (migrate p₂) ∙ migrate-requeue p₂ ∙ early-requeue r w in
    let h = schedule_next-requeue r (cleanup r (migrate p₂)) in rw (schedule_next-wish, ← e) h

pub ttl_part-nonneg : (r : Readings) (o : Option Duration) (w : Wish) → pos 0 ≤ℤ ttl_part r o w
unfolding ttl_part
ttl_part-nonneg r none w = omega arith
ttl_part-nonneg r (some ttl) w =
    ground (arith, sooner-nonneg (until (w.creation_timestamp +ℤ ttl) r.at_ttl) (pos 0))

-- A time that is an expiry of a list has what all the expiries have.
All-expiry {κ} :
    (P : Time → Type κ) (e : Time) (rs : List Reservation)
    → All (λ x. P x.expires_at) rs
    → Memᴰ e (map (λ x. x.expires_at) rs)
    → P e
All-expiry P e [] h m = elim m [ ]
All-expiry P e (x ∷ rs) (p, h) (Memᴰ.head same) = subst P (sym same) p
All-expiry P e (x ∷ rs) (p, h) (Memᴰ.tail m) = All-expiry P e rs h m

pub next_part-covers :
    (r : Readings) (o : Option Time) (d : Duration) (rs : List Reservation) {x : Reservation}
    → IsEarliest o rs
    → Memᴰ x rs
    → All (λ y. r.at_requeue <ℤ y.expires_at) rs
    → pos 0 ≤ℤ d
    → (pos 0 <ℤ next_part r o d) × (r.at_requeue +ℤ next_part r o d ≤ℤ x.expires_at)
unfolding next_part
next_part-covers r none d rs empty m all h = absurd (not-mem_nil rs empty m)
next_part-covers r (some e) d rs {x} (there, least) m all h =
    let ahead = All-expiry (λ t. r.at_requeue <ℤ t) e rs all there in
    let first : e ≤ℤ x.expires_at = All-mem (λ y. e ≤ℤ y.expires_at) rs least m in
    let (positive, within) = until-pos e r.at_requeue ahead in
    let (wakes, in_time) = sooner-remaining (until e r.at_requeue) d h positive in
    (
      wakes,
      omega (
        arith,
        first,
        within,
        in_time,
        +ℤ_parts r.at_requeue (until e r.at_requeue),
        +ℤ_parts r.at_requeue (sooner (until e r.at_requeue) d),
      ),
    )
