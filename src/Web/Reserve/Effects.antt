-- ===== src/Web/Reserve/Effects.antt =====
-- What one call of `handleReserve` does to the API server, and what a status of 200 means.
use wish_operator.Common.{
  ◌≡◌, ◌≢◌, ◌⊎◌, inl, inr, refl, Bool, true, false, Option, none, some, [], ◌∷◌, arith, ℤ, pos,
  ltb_ℤ, ◌||◌, Str, str, is_empty, if◌then◌else◌,
}
use wish_operator.Wish.{Time, Wish}
use wish_operator.Http.{Values, value, Request}
use wish_operator.I18n.{detect_language}
use wish_operator.Numbers.{atoi, parse_int32}
use wish_operator.Client.{Client, Fetch, found, not_found, failed}
use wish_operator.Web.Reserve.{
  min_weeks, max_weeks, Component, wish_card, html, Response, Checked, pass, reject, Asked,
  refuse_if, form_or, weeks_or, quantity_or, parse_quantity, parse_reserve, check_available,
  add_reservation, ◌>>=◌, render_card, store_wish, reserve_checked, reserve_fetched, reserve_parsed,
  handle_reserve, key_of,
}

-- What holds of the response of a check that refuses.
abbrev pub Refuses : {A : Type 0} → (Response → Type 0) → Checked A → Type 0
Refuses P (pass a) = Unit
Refuses P (reject r) = P r

Refuses-bind :
    {A B : Type 0} (P : Response → Type 0) (m : Checked A) (f : A → Checked B)
    → Refuses P m
    → ((a : A) → Refuses P (f a))
    → Refuses P (m >>= f)
Refuses-bind P (pass a) f q h = h a
Refuses-bind P (reject r) f q h = q

module _ (P : Response → Type 0) where
  refuse_if-Refuses : (b : Bool) (r : Response) → P r → Refuses P (refuse_if b r)
  refuse_if-Refuses true r h = h
  refuse_if-Refuses false r h = tt

  form_or-Refuses : (o : Option Values) (r : Response) → P r → Refuses P (form_or o r)
  form_or-Refuses none r h = h
  form_or-Refuses (some v) r h = tt

  either-Refuses :
      (b : Bool) (k : ℤ) (r : Response) → P r → Refuses P (if b then reject r else pass k)
  either-Refuses true k r h = h
  either-Refuses false k r h = tt

  weeks_or-Refuses : (o : Option ℤ) (r : Response) → P r → Refuses P (weeks_or o r)
  unfolding weeks_or
  weeks_or-Refuses none r h = h
  weeks_or-Refuses (some k) r h = either-Refuses (ltb_ℤ k min_weeks || ltb_ℤ max_weeks k) k r h

  quantity_or-Refuses : (o : Option ℤ) (r : Response) → P r → Refuses P (quantity_or o r)
  unfolding quantity_or
  quantity_or-Refuses none r h = h
  quantity_or-Refuses (some k) r h = either-Refuses (ltb_ℤ k (pos 1)) k r h

  parse_quantity-Refuses : (s : Str) (r : Response) → P r → Refuses P (parse_quantity s r)
  unfolding parse_quantity
  parse_quantity-Refuses [] r h = tt
  parse_quantity-Refuses (c ∷ s) r h = quantity_or-Refuses (parse_int32 (c ∷ s)) r h

abbrev pub IsBadRequest : Response → Type 0
IsBadRequest r = r.status ≡ 400

pub parse_reserve-Refuses :
    (lang : Str) (r : Request) (name : Str) → Refuses IsBadRequest (parse_reserve lang r name)
unfolding parse_reserve
parse_reserve-Refuses lang r name =
    Refuses-bind IsBadRequest (refuse_if (is_empty name) _) _
      (refuse_if-Refuses IsBadRequest (is_empty name) _ refl)
      (λ _.
        Refuses-bind IsBadRequest (form_or r.form _) _ (form_or-Refuses IsBadRequest r.form _ refl)
          (λ form.
            Refuses-bind IsBadRequest (weeks_or (atoi (value (str "weeks") form)) _) _
              (weeks_or-Refuses IsBadRequest (atoi (value (str "weeks") form)) _ refl)
              (λ weeks.
                Refuses-bind IsBadRequest (parse_quantity (value (str "quantity") form) _) _
                  (parse_quantity-Refuses IsBadRequest (value (str "quantity") form) _ refl)
                  (λ quantity. tt))))

check_available-refuses :
    (lang : Str) (w : Wish) (q : ℤ) {r : Response}
    → check_available lang w q ≡ reject r
    → r.status ≢ 200
unfolding check_available
check_available-refuses lang w q h = ground arith

-- The reservation of `a` on `w` was stored: the wish was fetched and passed the check, and the status
-- update with the added reservation succeeded. `after` is the store that it left.
pub record IsStored (c : Client) (lang : Str) (now : Time) (s : c.Store) (f : Fetch) (a : Asked)
    (w : Wish) (after : c.Store) : Type 0 where
  pub fetched : f ≡ found w
  pub available : check_available lang w a.quantity ≡ pass tt
  pub written : (c.update_status s (add_reservation now a w)).1 ≡ true
  pub result : after ≡ (c.update_status s (add_reservation now a w)).0

module _ (c : Client) (renders : Component → Bool) (lang : Str) (now : Time) (s : c.Store) where
  open c use {get, update_status}

  -- A response of 200 after a stored reservation, with the card of the wish that was stored.
  abbrev pub Confirmed : Asked → Fetch → c.Store × Response → Type 0
  Confirmed a f (after, resp) =
      (w : Wish) × IsStored c lang now s f a w after
      × (resp.body ≡ html (wish_card (add_reservation now a w) lang))

  -- The store is as before, or an update with the added reservation was made.
  abbrev pub WritesOnce : Asked → Fetch → c.Store → Type 0
  WritesOnce a f after =
      (after ≡ s)
      ⊎ ((w : Wish) × (f ≡ found w)
          × (check_available lang w a.quantity ≡ pass tt)
          × (after ≡ (update_status s (add_reservation now a w)).0))

  store_wish-confirmed :
      (v : Wish)
      → (store_wish c renders lang s v).1.status ≡ 200
      → ((update_status s v).1 ≡ true)
        × ((store_wish c renders lang s v).0 ≡ (update_status s v).0)
        × ((store_wish c renders lang s v).1.body ≡ html (wish_card v lang))
  unfolding store_wish render_card
  store_wish-confirmed v h = ground arith

  reserve_checked-Confirmed :
      (a : Asked) (w : Wish) (m : Checked (Unit {0}))
      → check_available lang w a.quantity ≡ m
      → (reserve_checked c renders lang now a s w m).1.status ≡ 200
      → Confirmed a (found w) (reserve_checked c renders lang now a s w m)
  unfolding reserve_checked
  reserve_checked-Confirmed a w (reject r) e h =
      absurd (check_available-refuses lang w a.quantity e h)
  reserve_checked-Confirmed a w (pass tt) e h =
      let (written, result, body) = store_wish-confirmed (add_reservation now a w) h in
      (w, record { fetched = refl; available = e; written = written; result = result }, body)

  reserve_fetched-Confirmed :
      (a : Asked) (f : Fetch)
      → (reserve_fetched c renders lang now a s f).1.status ≡ 200
      → Confirmed a f (reserve_fetched c renders lang now a s f)
  unfolding reserve_fetched
  reserve_fetched-Confirmed a not_found h = absurd (omega arith)
  reserve_fetched-Confirmed a failed h = absurd (omega arith)
  reserve_fetched-Confirmed a (found w) h =
      reserve_checked-Confirmed a w (check_available lang w a.quantity) refl h

  store_wish-store : (v : Wish) → (store_wish c renders lang s v).0 ≡ (update_status s v).0
  unfolding store_wish
  store_wish-store v = ground arith

  reserve_checked-writes :
      (a : Asked) (w : Wish) (m : Checked (Unit {0}))
      → check_available lang w a.quantity ≡ m
      → WritesOnce a (found w) (reserve_checked c renders lang now a s w m).0
  unfolding reserve_checked
  reserve_checked-writes a w (reject r) e = inl refl
  reserve_checked-writes a w (pass tt) e =
      inr (w, refl, e, store_wish-store (add_reservation now a w))

  reserve_fetched-writes :
      (a : Asked) (f : Fetch) → WritesOnce a f (reserve_fetched c renders lang now a s f).0
  unfolding reserve_fetched
  reserve_fetched-writes a not_found = inl refl
  reserve_fetched-writes a failed = inl refl
  reserve_fetched-writes a (found w) =
      reserve_checked-writes a w (check_available lang w a.quantity) refl

module _ (c : Client) (renders : Component → Bool) (namespace : Str) (now : Time) (r : Request)
    (name : Str) (s : c.Store) where
  open c use {get}

  reserve_parsed-Confirmed :
      (lang : Str) (m : Checked Asked)
      → Refuses IsBadRequest m
      → (reserve_parsed c renders lang namespace name now s m).1.status ≡ 200
      → (a : Asked) × (m ≡ pass a)
        × Confirmed c renders lang now s a
            (get s (key_of namespace name))
            (reserve_parsed c renders lang namespace name now s m)
  unfolding reserve_parsed
  reserve_parsed-Confirmed lang (reject resp) bad h = absurd (omega arith)
  reserve_parsed-Confirmed lang (pass a) bad h =
      (a, refl, reserve_fetched-Confirmed c renders lang now s a (get s (key_of namespace name)) h)

  reserve_parsed-writes :
      (lang : Str) (m : Checked Asked)
      → ((reserve_parsed c renders lang namespace name now s m).0 ≡ s)
        ⊎ ((a : Asked) × (m ≡ pass a)
            × WritesOnce c renders lang now s a
                (get s (key_of namespace name))
                (reserve_parsed c renders lang namespace name now s m).0)
  unfolding reserve_parsed
  reserve_parsed-writes lang (reject resp) = inl refl
  reserve_parsed-writes lang (pass a) =
      inr (a, refl, reserve_fetched-writes c renders lang now s a (get s (key_of namespace name)))

  -- A response with status 200 confirms a reservation: the request passed its checks, the wish was
  -- read and had room, and the update with the added reservation succeeded; the card that is shown is
  -- that of the wish that was stored.
  pub handle_reserve-Confirmed :
      (handle_reserve c renders namespace now r name s).1.status ≡ 200
      → (a : Asked) × (parse_reserve (detect_language r) r name ≡ pass a)
        × Confirmed c renders
            (detect_language r)
            now
            s
            a
            (get s (key_of namespace name))
            (handle_reserve c renders namespace now r name s)
  unfolding handle_reserve
  handle_reserve-Confirmed h =
      let lang = detect_language r in
      reserve_parsed-Confirmed lang (parse_reserve lang r name) (parse_reserve-Refuses lang r name)
        h

  -- Whatever it answers, the handler leaves the store as it was, or makes one status update, with the
  -- wish as it was read and one reservation added, after the request and the wish passed the checks.
  pub handle_reserve-writes :
      ((handle_reserve c renders namespace now r name s).0 ≡ s)
      ⊎ ((a : Asked) × (parse_reserve (detect_language r) r name ≡ pass a)
          × WritesOnce c renders
              (detect_language r)
              now
              s
              a
              (get s (key_of namespace name))
              (handle_reserve c renders namespace now r name s).0)
  unfolding handle_reserve
  handle_reserve-writes =
      let lang = detect_language r in reserve_parsed-writes lang (parse_reserve lang r name)
