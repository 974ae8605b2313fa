-- ===== src/Web/Reserve/Checks.antt =====
-- What the checks of `handleReserve` let through, and what it then stores.
use wish_operator.Common.{
  ◌≡◌, ◌≢◌, ◌↔◌, ◌⊎◌, inl, inr, refl, ap, Bool, true, false, Option, none, some, [], ◌∷◌, ◌++◌,
  arith, ℤ, pos, negsuc, ◌+ℤ◌, ◌*ℤ◌, ◌≤ℤ◌, wrap64, IsInt32, Str, str, is_empty, Bool-cases,
  All-append, int_laws, +ℤ_parts,
}
use wish_operator.Wish.{Time, Wish, is_unlimited, get_quantity, available_quantity}
use wish_operator.Wish.Quantity.{
  reserved_sum, reserved_sum-append, IsPositive, IsValid, available-add-reserved, available_range,
}
use wish_operator.Http.{Values, value, Request}
use wish_operator.Numbers.{parse_int32, atoi}
use wish_operator.Numbers.RoundTrip.{parse_int32-IsInt32}
use wish_operator.Web.Reserve.{
  Response, Checked, pass, reject, Asked, form_or, weeks_or, quantity_or, parse_quantity,
  parse_reserve, check_available, reservation_time, new_reservation, add_reservation, ◌>>=◌,
  refuse_if,
}

-- A request that asks for 1 to 8 weeks and for at least one item, within int32.
pub record IsAdmissible (a : Asked) : Type 0 where
  pub weeks_from : pos 1 ≤ℤ a.weeks
  pub weeks_to : a.weeks ≤ℤ pos 8
  pub positive : pos 1 ≤ℤ a.quantity
  pub in_range : IsInt32 a.quantity

weeks_or-range :
    (o : Option ℤ) (r : Response) {z : ℤ} → weeks_or o r ≡ pass z → (pos 1 ≤ℤ z) × (z ≤ℤ pos 8)
unfolding weeks_or
weeks_or-range none r e = cc
weeks_or-range (some w) r e = ground arith

quantity_or-pass :
    (o : Option ℤ) (r : Response) {z : ℤ} → quantity_or o r ≡ pass z → (o ≡ some z) × (pos 1 ≤ℤ z)
unfolding quantity_or
quantity_or-pass none r e = cc
quantity_or-pass (some q) r e = ground arith

parse_quantity-range :
    (s : Str) (r : Response) {z : ℤ} → parse_quantity s r ≡ pass z → (pos 1 ≤ℤ z) × IsInt32 z
unfolding parse_quantity
parse_quantity-range s r {z} e = elim (Bool-cases (is_empty s)) [
  | inl missing ↦ ground arith
  | inr given ↦
      let (parsed, least) = quantity_or-pass (parse_int32 s) r {z = z} (rw given at e) in
      (least, parse_int32-IsInt32 s parsed)
]

-- What holds of the value of a check that passes.
abbrev Ensures : {A : Type 0} → (A → Type 0) → Checked A → Type 0
Ensures P (pass a) = P a
Ensures P (reject r) = Unit

Ensures-bind :
    {A B : Type 0} (Q : A → Type 0) (P : B → Type 0) (m : Checked A) (f : A → Checked B)
    → Ensures Q m
    → ((a : A) → Q a → Ensures P (f a))
    → Ensures P (m >>= f)
Ensures-bind Q P (pass a) f q h = h a q
Ensures-bind Q P (reject r) f q h = tt

Ensures-of_pass :
    {A : Type 0} (P : A → Type 0) (m : Checked A) → ((a : A) → m ≡ pass a → P a) → Ensures P m
Ensures-of_pass P (pass a) h = h a refl
Ensures-of_pass P (reject r) h = tt

pass_of_Ensures :
    {A : Type 0} (P : A → Type 0) (m : Checked A) {a : A} → m ≡ pass a → Ensures P m → P a
pass_of_Ensures P m e h = rw e at h

refuse_if-pass : (b : Bool) (r : Response) {u : Unit {0}} → refuse_if b r ≡ pass u → b ≡ false
refuse_if-pass b r h = ground arith

form_or-pass : (o : Option Values) (r : Response) {v : Values} → form_or o r ≡ pass v → o ≢ none
form_or-pass o r h = ground arith

refuse_if-Ensures : (b : Bool) (r : Response) → Ensures (λ _. b ≡ false) (refuse_if b r)
refuse_if-Ensures b r = Ensures-of_pass _ (refuse_if b r) (λ u. refuse_if-pass b r)

form_or-Ensures : (o : Option Values) (r : Response) → Ensures (λ _. o ≢ none) (form_or o r)
form_or-Ensures o r = Ensures-of_pass _ (form_or o r) (λ v. form_or-pass o r)

weeks_or-Ensures :
    (o : Option ℤ) (r : Response) → Ensures (λ k. (pos 1 ≤ℤ k) × (k ≤ℤ pos 8)) (weeks_or o r)
weeks_or-Ensures o r = Ensures-of_pass _ (weeks_or o r) (λ k. weeks_or-range o r)

parse_quantity-Ensures :
    (s : Str) (r : Response) → Ensures (λ q. (pos 1 ≤ℤ q) × IsInt32 q) (parse_quantity s r)
parse_quantity-Ensures s r = Ensures-of_pass _ (parse_quantity s r) (λ q. parse_quantity-range s r)

-- A request passes the handler's checks only with a name, a readable form, 1 to 8 weeks and an int32
-- quantity of at least 1.
pub parse_reserve-IsAdmissible :
    (lang : Str) (r : Request) (name : Str) {a : Asked}
    → parse_reserve lang r name ≡ pass a
    → (is_empty name ≡ false) × (r.form ≢ none) × IsAdmissible a
unfolding parse_reserve
parse_reserve-IsAdmissible lang r name {a} e =
    let P : Asked → Type 0 = λ b. (is_empty name ≡ false) × (r.form ≢ none) × IsAdmissible b in
    pass_of_Ensures P (parse_reserve lang r name) e (
      Ensures-bind (λ _. is_empty name ≡ false) P (refuse_if (is_empty name) _) _
        (refuse_if-Ensures (is_empty name) _)
        (λ _ named.
          Ensures-bind (λ _. r.form ≢ none) P (form_or r.form _) _ (form_or-Ensures r.form _)
            (λ form readable.
              Ensures-bind (λ k. (pos 1 ≤ℤ k) × (k ≤ℤ pos 8)) P
                (weeks_or (atoi (value (str "weeks") form)) _) _
                (weeks_or-Ensures (atoi (value (str "weeks") form)) _)
                (λ weeks in_weeks.
                  Ensures-bind (λ q. (pos 1 ≤ℤ q) × IsInt32 q) P
                    (parse_quantity (value (str "quantity") form) _) _
                    (parse_quantity-Ensures (value (str "quantity") form) _)
                    (λ quantity in_range. (
                      named,
                      readable,
                      record {
                        weeks_from = in_weeks.0;
                        weeks_to = in_weeks.1;
                        positive = in_range.0;
                        in_range = in_range.1;
                      },
                    ))))))

fits_iff : (a t g q : ℤ) → a +ℤ t ≡ g → (q ≤ℤ a) ↔ (t +ℤ q ≤ℤ g)
fits_iff a t g q e = (
  (λ h. rw (← e) (omega (arith, h, +ℤ_parts t q, +ℤ_parts a t))),
  (λ h. let h' : t +ℤ q ≤ℤ a +ℤ t = rw e h in omega (arith, h', +ℤ_parts t q, +ℤ_parts a t)),
)

-- The availability check of a wish in its contract lets a request for `q` items through exactly when
-- the wish is unlimited or `q` more items still fit its quantity.
pub check_available_iff :
    (lang : Str) (w : Wish) (q : ℤ)
    → IsValid w
    → pos 1 ≤ℤ q
    → (check_available lang w q ≡ pass tt)
      ↔ ((is_unlimited w ≡ true) ⊎ (reserved_sum w.status.reservations +ℤ q ≤ℤ get_quantity w))
unfolding check_available
check_available_iff lang w q v one = elim (Bool-cases (is_unlimited w)) [
  | inl unlimited ↦ ground arith
  | inr limited ↦
      let total = reserved_sum w.status.reservations in
      let (to, from) =
        fits_iff (available_quantity w) total (get_quantity w) q
          (available-add-reserved w limited v) in
      ground (arith, available_range w, to, from)
]

reserved_sum-add :
    (lang : Str) (now : Time) (a : Asked) (w : Wish)
    → IsValid w
    → IsAdmissible a
    → check_available lang w a.quantity ≡ pass tt
    → is_unlimited w ≡ false
    → reserved_sum (w.status.reservations ++ new_reservation now a ∷ []) ≤ℤ get_quantity w
unfolding new_reservation reserved_sum
reserved_sum-add lang now a w v ok passed limited =
    rw (reserved_sum-append w.status.reservations (new_reservation now a ∷ []))
      (by_cases ((check_available_iff lang w a.quantity v ok.positive).0 passed))
  where
    by_cases :
        ((is_unlimited w ≡ true)
          ⊎ (reserved_sum w.status.reservations +ℤ a.quantity ≤ℤ get_quantity w))
        → reserved_sum w.status.reservations +ℤ (a.quantity +ℤ pos 0) ≤ℤ get_quantity w
    by_cases (inl unlimited) = cc
    by_cases (inr fits) = omega (int_laws, fits)

-- A request that passes the availability check keeps the contract of the wish.
pub add_reservation-IsValid :
    (lang : Str) (now : Time) (a : Asked) (w : Wish)
    → IsValid w
    → IsAdmissible a
    → check_available lang w a.quantity ≡ pass tt
    → IsValid (add_reservation now a w)
unfolding add_reservation new_reservation is_unlimited get_quantity
add_reservation-IsValid lang now a w v ok passed = record {
  in_range = v.in_range;
  positive = All-append IsPositive w.status.reservations _ v.positive (ok.positive, tt);
  not_oversold = λ limited. reserved_sum-add lang now a w v ok passed limited;
}

weeks_product : (k : ℤ) → pos 1 ≤ℤ k → k ≤ℤ pos 8 → reservation_time k ≡ k *ℤ pos 604800000000000
unfolding reservation_time ◌*ℤ◌ wrap64
weeks_product (pos k) a b = ground arith
weeks_product (negsuc k) a b = absurd (omega arith)

-- A new reservation starts at the reading of the clock and ends the weeks that were asked for later, to
-- the nanosecond: the int64 products of the code do not overflow.
new_reservation-period :
    (now : Time) (a : Asked)
    → IsAdmissible a
    → ((new_reservation now a).created_at ≡ now)
      × ((new_reservation now a).expires_at ≡ now +ℤ a.weeks *ℤ pos 604800000000000)
unfolding new_reservation
new_reservation-period now a ok =
    (refl, ap (λ d. now +ℤ d) (weeks_product a.weeks ok.weeks_from ok.weeks_to))
