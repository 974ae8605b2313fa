-- ===== src/Wish/Expiry.antt =====
-- The time-dependent methods: earliest expiry, active reservations, expiry of a wish.
use mathlib.Core.List.{Memᴰ}
use wish_operator.Common.{
  ◌≡◌, refl, ◌⊎◌, inl, inr, true, false, Option, none, some, List, [], ◌∷◌, map, arith, ◌≤ℤ◌, All,
  keep, ◌+ℤ◌, Bool-cases,
}
use wish_operator.Wish.{
  Time, after, before, Reservation, Wish, earlier, earliest_from, next_reservation_expiry,
  ttl_expired, is_expired,
}

-- What an earliest expiry is: one of the expiries, and none is before it; no reservation, no expiry.
abbrev pub IsEarliest : Option Time → List Reservation → Type 0
IsEarliest none rs = rs ≡ []
IsEarliest (some e) rs = Memᴰ e (map (λ r. r.expires_at) rs) × All (λ r. e ≤ℤ r.expires_at) rs

-- The state of the loop: `e` is the earliest of what was seen and `e₀`.
abbrev EarliestFrom : Time → Option Time → List Reservation → Type 0
EarliestFrom e₀ none rs = ⊥
EarliestFrom e₀ (some e) rs =
    ((e ≡ e₀) ⊎ Memᴰ e (map (λ r. r.expires_at) rs)) × (e ≤ℤ e₀) × All (λ r. e ≤ℤ r.expires_at) rs

step_seen :
    (e₀ t : Time) (o : Option Time) (rs : List Reservation) (r : Reservation)
    → r.expires_at ≡ t
    → EarliestFrom (earlier (some e₀) t) o rs
    → EarliestFrom e₀ o (r ∷ rs)
unfolding earlier
step_seen e₀ t none rs r x h = h
step_seen e₀ t (some e) rs r x (inl same, le, all) = elim (Bool-cases (before t e₀)) [
  | inl sooner ↦ (inr (Memᴰ.head (ground arith)), ground arith, (ground arith, all))
  | inr later ↦ (inl (ground arith), ground arith, (ground arith, all))
]
step_seen e₀ t (some e) rs r x (inr there, le, all) =
    (inr (Memᴰ.tail there), ground arith, (ground arith, all))

earliest_from_lem :
    (e₀ : Time) (rs : List Reservation) → EarliestFrom e₀ (earliest_from (some e₀) rs) rs
unfolding earliest_from
earliest_from_lem e₀ [] = (inl refl, omega arith, tt)
earliest_from_lem e₀ (r ∷ rs) =
    step_seen e₀ r.expires_at _ rs r refl (earliest_from_lem (earlier (some e₀) r.expires_at) rs)

IsEarliest-of_from :
    (o : Option Time) (r : Reservation) (rs : List Reservation)
    → EarliestFrom r.expires_at o rs
    → IsEarliest o (r ∷ rs)
IsEarliest-of_from none r rs h = absurd h
IsEarliest-of_from (some e) r rs (inl same, le, all) = (Memᴰ.head same, (le, all))
IsEarliest-of_from (some e) r rs (inr there, le, all) = (Memᴰ.tail there, (le, all))

IsEarliest-list : (rs : List Reservation) → IsEarliest (earliest_from none rs) rs
unfolding earliest_from earlier
IsEarliest-list [] = refl
IsEarliest-list (r ∷ rs) = IsEarliest-of_from _ r rs (earliest_from_lem r.expires_at rs)

-- `NextReservationExpiry` is nil for a wish with no reservation, and otherwise one of the
-- reservations' expiries, with none before it.
pub next_reservation_expiry-IsEarliest :
    (w : Wish) → IsEarliest (next_reservation_expiry w) w.status.reservations
unfolding next_reservation_expiry
next_reservation_expiry-IsEarliest w = IsEarliest-list w.status.reservations

ttl_expired_mono :
    (t u created : Time) (ttl : Option Time)
    → t ≤ℤ u
    → ttl_expired t created ttl ≡ true
    → ttl_expired u created ttl ≡ true
unfolding ttl_expired
ttl_expired_mono t u created none le h = h
ttl_expired_mono t u created (some d) le h = ground arith

-- A wish that has expired stays expired at every later reading of the clock.
is_expired_mono : (w : Wish) (t u : Time) → t ≤ℤ u → is_expired t w ≡ true → is_expired u w ≡ true
unfolding is_expired
is_expired_mono w t u le h = ttl_expired_mono t u w.creation_timestamp w.spec.ttl le h

pub keep_later :
    (t u : Time) (rs : List Reservation)
    → t ≤ℤ u
    → keep (λ r. after r.expires_at u) (keep (λ r. after r.expires_at t) rs)
      ≡ keep (λ r. after r.expires_at u) rs
keep_later t u [] le = refl
keep_later t u (r ∷ rs) le = ground (arith, keep_later t u rs le)

pub not_expired_at :
    (t : Time) (w : Wish) (ttl : Time)
    → w.spec.ttl ≡ some ttl
    → t ≤ℤ w.creation_timestamp +ℤ ttl
    → is_expired t w ≡ false
unfolding is_expired ttl_expired
not_expired_at t w ttl has h = ground arith
