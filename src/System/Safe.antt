-- ===== src/System/Safe.antt =====
-- Wishes whose reservations are in order, and what a reservation and a pass do to the number of items.
use wish_operator.Common.{
  ◌≡◌, ap, sym, [], ◌∷◌, arith, All, pos, subst, ◌∙◌, eqb_ℤ, ltb_ℤ, if◌then◌else◌, IsInt32, ℤ, pos,
  negsuc, Str, false, ◌≤ℤ◌, ◌+ℤ◌, ◌-ℤ◌, ◌⊎◌, inl, inr, leb_ℤ, int_laws, Bool-cases, All-append,
  All-keep,
}
use wish_operator.Wish.{Time, after, Wish, is_unlimited, get_quantity, available_quantity}
use wish_operator.Wish.Quantity.{
  IsPositive, reserved_sum, reserved_sum-append, reserved_sum-nonneg, available_exact,
  available_range, get_quantity-range, get_quantity-pos,
}
use wish_operator.Controller.{Readings, with_status}
use wish_operator.Controller.Cleanup.{settled, migrated_list}
use wish_operator.Controller.Validity.{
  reserved_sum-live_at, migrated_list-positive, migrated_list-sum,
}
use wish_operator.Web.Reserve.{Asked, pass, check_available, new_reservation, add_reservation}
use wish_operator.Web.Reserve.Checks.{IsAdmissible}

-- The items that the list of reservations holds.
abbrev pub total : Wish → ℤ
total w = reserved_sum w.status.reservations

-- A limited wish of which the reservations are for at least one item each and have an int32 as their sum.
-- They may be more than the quantity.
pub record IsSafe (w : Wish) : Type 0 where
  pub in_range : IsInt32 w.spec.quantity
  pub limited : is_unlimited w ≡ false
  pub positive : All IsPositive w.status.reservations
  pub total_range : IsInt32 (total w)

-- No more items are reserved than before, or no more than there are.
abbrev pub NoOversell : Wish → Wish → Type 0
NoOversell before after = (total after ≤ℤ total before) ⊎ (total after ≤ℤ get_quantity after)

range_of_bounds : (t b : ℤ) → pos 0 ≤ℤ t → t ≤ℤ b → IsInt32 b → IsInt32 t
range_of_bounds (pos t) b nonneg h r = record {
  above = omega arith;
  below = omega (arith, h, nonneg, r.below);
}
range_of_bounds (negsuc t) b nonneg h r = absurd (omega (arith, nonneg))

-- A reservation that passes the check fits the quantity of its copy.
pub fits_copy :
    (lang : Str) (now : Time) (a : Asked) (w : Wish)
    → IsSafe w
    → IsAdmissible a
    → check_available lang w a.quantity ≡ pass tt
    → total (add_reservation now a w) ≤ℤ get_quantity w
unfolding add_reservation new_reservation check_available reserved_sum
fits_copy lang now a w safe ok passed =
    let t = total w in
    let q = get_quantity w in
    let enough : a.quantity ≤ℤ available_quantity w =
      ground (arith, passed, safe.limited, available_range w) in
    let exact = available_exact w safe.limited safe.in_range safe.positive safe.total_range in
    let left : a.quantity ≤ℤ (if ltb_ℤ t q then q -ℤ t else pos 0) =
      subst (λ x. a.quantity ≤ℤ x) exact enough in
    rw (reserved_sum-append w.status.reservations (new_reservation now a ∷ []))
      (sum_fits t q a.quantity ok.positive left)
  where
    sum_fits :
        (t q a : ℤ)
        → pos 1 ≤ℤ a
        → a ≤ℤ (if ltb_ℤ t q then q -ℤ t else pos 0)
        → t +ℤ (a +ℤ pos 0) ≤ℤ q
    sum_fits t q a one h = elim (Bool-cases (ltb_ℤ t q)) [
      | inl less ↦ let h' : a ≤ℤ q -ℤ t = rw less at h in omega (int_laws, h')
      | inr full ↦ let h' : a ≤ℤ pos 0 = rw full at h in absurd (omega (arith, one, h'))
    ]

pub add-IsSafe :
    (lang : Str) (now : Time) (a : Asked) (w : Wish)
    → IsSafe w
    → IsAdmissible a
    → check_available lang w a.quantity ≡ pass tt
    → IsSafe (add_reservation now a w)
unfolding add_reservation new_reservation is_unlimited
add-IsSafe lang now a w safe ok passed =
    let positive = All-append IsPositive w.status.reservations _ safe.positive (ok.positive, tt) in
    record {
      in_range = safe.in_range;
      limited = safe.limited;
      positive = positive;
      total_range =
          range_of_bounds _ (get_quantity w) (reserved_sum-nonneg _ positive)
            (fits_copy lang now a w safe ok passed) (get_quantity-range w safe.in_range).0;
    }

-- A pass does not oversell the copy it has read.
pub settled-NoOversell :
    (r : Readings) (w : Wish) → IsSafe w → NoOversell w (with_status w (settled r w))
unfolding settled get_quantity
settled-NoOversell r w safe =
    let st = w.status in
    let q = get_quantity w in
    let one = get_quantity-pos w safe.limited in
    let less =
      reserved_sum-live_at r.at_cleanup (migrated_list st)
        (migrated_list-positive st safe.positive) in
    elim (Bool-cases (leb_ℤ (total w) q)) [
      | inl room ↦
          let within : total w ≤ℤ q = ground (arith, room) in
          let held = migrated_list-sum st q one within in inr (omega (arith, less, held))
      | inr over ↦
          let many : pos 1 ≤ℤ total w = ground (arith, over, one) in
          let same : total w ≤ℤ total w = omega arith in
          let held = migrated_list-sum st (total w) many same in inl (omega (arith, less, held))
    ]

pub settled-IsSafe : (r : Readings) (w : Wish) → IsSafe w → IsSafe (with_status w (settled r w))
unfolding settled is_unlimited get_quantity
settled-IsSafe r w safe =
    let positive =
      All-keep IsPositive (λ x. after x.expires_at r.at_cleanup) _
        (migrated_list-positive w.status safe.positive) in
    record {
      in_range = safe.in_range;
      limited = safe.limited;
      positive = positive;
      total_range = elim (settled-NoOversell r w safe) [
        | inl less ↦
            range_of_bounds _ (total w) (reserved_sum-nonneg _ positive) less safe.total_range
        | inr fits ↦
            range_of_bounds _ (get_quantity w) (reserved_sum-nonneg _ positive) fits
              (get_quantity-range w safe.in_range).0
      ];
    }

module _ (v w : Wish) (e : v.spec.quantity ≡ w.spec.quantity) where
  is_unlimited-transfer : is_unlimited v ≡ is_unlimited w
  unfolding is_unlimited
  is_unlimited-transfer = ap (λ q. eqb_ℤ q (pos 0)) e

  pub get_quantity-transfer : get_quantity v ≡ get_quantity w
  unfolding get_quantity
  get_quantity-transfer = ap (λ q. if ltb_ℤ q (pos 0) then pos 1 else q) e

  -- Safety looks at the quantity and the reservations only.
  pub IsSafe-transfer : v.status.reservations ≡ w.status.reservations → IsSafe w → IsSafe v
  IsSafe-transfer f safe = record {
    in_range = subst IsInt32 (sym e) safe.in_range;
    limited = is_unlimited-transfer ∙ safe.limited;
    positive = subst (All IsPositive) (sym f) safe.positive;
    total_range = subst (λ rs. IsInt32 (reserved_sum rs)) (sym f) safe.total_range;
  }
