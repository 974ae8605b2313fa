-- ===== src/Wish.antt =====
-- api/v1alpha1/wish_types.go: the Wish resource and its methods.
-- A `metav1.Time` is its number of nanoseconds from a fixed instant, a `metav1.Duration` its number
-- of nanoseconds. A method that calls `time.Now()` takes that reading as an argument. Of the object
-- metadata the model keeps the key, the resource version and the creation time.
-- `Conditions` and the type metadata are never touched by the program and left out.
pub mod Quantity
pub mod Overflow
pub mod Expiry
use wish_operator.Common.{
  ℕ, zero, suc, Bool, true, false, not, Option, none, some, List, [], ◌∷◌, ℤ, pos, negsuc, ◌+ℤ◌,
  ◌-ℤ◌, wrap32, ltb_ℤ, eqb_ℤ, Str, if◌then◌else◌, keep,
}

abbrev pub Time : Type 0
Time = ℤ

abbrev pub Duration : Type 0
Duration = ℤ

-- `t.After(u)` and `t.Before(u)`.
abbrev pub after : Time → Time → Bool
after t u = ltb_ℤ u t

abbrev pub before : Time → Time → Bool
before t u = ltb_ℤ t u

pub record Reservation : Type 0 where
  pub quantity : ℤ  -- int32
  pub created_at : Time
  pub expires_at : Time

pub record WishSpec : Type 0 where
  pub title : Str
  pub image_url : Str
  pub official_url : Str
  pub purchase_urls : List Str
  pub msrp : Str
  pub tags : List Str
  pub context_tags : List Str
  pub description : Str
  pub priority : ℤ  -- int32
  pub ttl : Option Duration
  pub quantity : ℤ  -- int32

pub record WishStatus : Type 0 where
  pub reservations : List Reservation
  pub active : Bool
  pub reserved : Bool
  pub reserved_at : Option Time
  pub reservation_expires : Option Time

pub record Wish : Type 0 where
  pub namespace : Str
  pub name : Str
  pub resource_version : ℕ
  pub creation_timestamp : Time
  pub spec : WishSpec
  pub status : WishStatus

-- The legacy reservation; a nil time never expires.
legacy_expired : Time → Option Time → Bool
legacy_expired now none = false
legacy_expired now (some expires) = after now expires

unfoldable pub is_reservation_expired : Time → Wish → Bool
unfolding legacy_expired
is_reservation_expired now w =
    if not w.status.reserved then false else legacy_expired now w.status.reservation_expires

unfoldable pub is_unlimited : Wish → Bool
is_unlimited w = eqb_ℤ w.spec.quantity (pos 0)

unfoldable pub get_quantity : Wish → ℤ
get_quantity w = if ltb_ℤ w.spec.quantity (pos 0) then pos 1 else w.spec.quantity

-- The loop of `TotalReserved`, with its int32 accumulator.
total_from : ℤ → List Reservation → ℤ
total_from total [] = total
total_from total (r ∷ rs) = total_from (wrap32 (total +ℤ r.quantity)) rs

unfoldable pub total_reserved : Wish → ℤ
unfolding total_from
total_reserved w = total_from (pos 0) w.status.reservations

abbrev pub max_int32 : ℤ
max_int32 = pos 2147483647

unfoldable pub available_quantity : Wish → ℤ
available_quantity w =
    if is_unlimited w
    then max_int32
    else (let available = wrap32 (get_quantity w -ℤ total_reserved w) in
        if ltb_ℤ available (pos 0) then pos 0 else available)

unfoldable pub active_reservations : Time → Wish → List Reservation
active_reservations now w = keep (λ r. after r.expires_at now) w.status.reservations

unfoldable pub is_fully_reserved : Wish → Bool
is_fully_reserved w = if is_unlimited w then false else eqb_ℤ (available_quantity w) (pos 0)

-- One round of the loop of `NextReservationExpiry`.
earlier : Option Time → Time → Time
earlier none t = t
earlier (some e) t = if before t e then t else e

earliest_from : Option Time → List Reservation → Option Time
earliest_from earliest [] = earliest
earliest_from earliest (r ∷ rs) = earliest_from (some (earlier earliest r.expires_at)) rs

unfoldable pub next_reservation_expiry : Wish → Option Time
unfolding earliest_from earlier
next_reservation_expiry w = earliest_from none w.status.reservations

ttl_expired : Time → Time → Option Duration → Bool
ttl_expired now created none = false
ttl_expired now created (some ttl) = after now (created +ℤ ttl)

unfoldable pub is_expired : Time → Wish → Bool
unfolding ttl_expired
is_expired now w = ttl_expired now w.creation_timestamp w.spec.ttl
