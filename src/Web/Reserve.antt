-- ===== src/Web/Reserve.antt =====
-- `handleReserve` of internal/web/server.go.
-- Parameters: the client, which components can be rendered to the writer, the reading of the clock
-- after the checks, and the server's namespace.
pub mod Checks
pub mod Effects
pub mod Form
pub mod Legacy
pub mod Statuses
use wish_operator.Common.{
  ℕ, zero, suc, Bool, true, false, not, ◌&&◌, ◌||◌, Option, none, some, List, [], ◌∷◌, ◌++◌, ℤ, pos,
  ◌+ℤ◌, ◌*ℤ◌, ltb_ℤ, eqb_ℤ, wrap64, Str, str, is_empty, if◌then◌else◌,
}
use wish_operator.Wish.{
  Time, Duration, Reservation, WishStatus, Wish, is_unlimited, available_quantity,
}
use wish_operator.Http.{Values, value, Request}
use wish_operator.I18n.{translate, detect_language}
use wish_operator.Numbers.{parse_int32, atoi, sprintf}
use wish_operator.Client.{Client, ObjectKey, Fetch, found, not_found, failed}

-- The templ components that the server renders, with their arguments.
pub data Component : Type 0 where
  index : List Wish → List Str → Str → Str → Component
  wish_content : List Wish → List Str → Str → Str → Component
  wish_card : Wish → Str → Component

pub data Body : Type 0 where
  text : Str → Body
  html : Component → Body

pub record Response : Type 0 where
  pub status : ℕ
  pub body : Body

-- `http.Error(w, i18n.T(lang, key), status)`
abbrev pub http_error : ℕ → Str → Str → Response
http_error status lang key = record { status = status; body = text (translate lang key) }

-- `http.Error` with a text that has verbs.
abbrev pub http_errorf : ℕ → Str → Str → List ℤ → Response
http_errorf status lang key args = record {
  status = status;
  body = text (sprintf (translate lang key) args);
}

-- The result of a check: a value, or the response with which the handler returns.
pub data Checked (A : Type 0) : Type 0 where
  pass : A → Checked A
  reject : Response → Checked A

infixl 5 ◌>>=◌ ◌>>◌
abbrev pub ◌>>=◌ : {A B : Type 0} → Checked A → (A → Checked B) → Checked B
pass a >>= f = f a
reject r >>= f = reject r

abbrev pub ◌>>◌ : {B : Type 0} → Checked (Unit {0}) → Checked B → Checked B
m >> k = m >>= λ _. k

abbrev pub refuse_if : Bool → Response → Checked (Unit {0})
refuse_if true r = reject r
refuse_if false r = pass tt

abbrev pub min_weeks : ℤ
min_weeks = pos 1

abbrev pub max_weeks : ℤ
max_weeks = pos 8

abbrev form_or : Option Values → Response → Checked Values
form_or none r = reject r
form_or (some form) r = pass form

-- The value of `weeks`; an error of `Atoi` is refused like a number out of range.
weeks_or : Option ℤ → Response → Checked ℤ
weeks_or none r = reject r
weeks_or (some weeks) r =
    if ltb_ℤ weeks min_weeks || ltb_ℤ max_weeks weeks then reject r else pass weeks

quantity_or : Option ℤ → Response → Checked ℤ
quantity_or none r = reject r
quantity_or (some q) r = if ltb_ℤ q (pos 1) then reject r else pass q

-- The quantity, 1 if the form has none.
parse_quantity : Str → Response → Checked ℤ
unfolding quantity_or
parse_quantity s r = if is_empty s then pass (pos 1) else quantity_or (parse_int32 s) r

-- What a request asks for.
pub record Asked : Type 0 where
  pub weeks : ℤ
  pub quantity : ℤ

-- The handler down to the `Get`.
unfoldable pub parse_reserve : Str → Request → Str → Checked Asked
unfolding weeks_or parse_quantity
parse_reserve lang r name = do
  refuse_if (is_empty name) (http_error 400 lang (str "err_missing_name"))
  form ← form_or r.form (http_error 400 lang (str "err_invalid_form"))
  weeks ←
      weeks_or (atoi (value (str "weeks") form))
        (http_errorf 400 lang (str "err_weeks_range") (min_weeks ∷ max_weeks ∷ []))
  quantity ←
      parse_quantity (value (str "quantity") form)
        (http_error 400 lang (str "err_invalid_quantity"))
  pass (record { weeks = weeks; quantity = quantity })

-- The availability check.
unfoldable pub check_available : Str → Wish → ℤ → Checked (Unit {0})
check_available lang w quantity =
    if not (is_unlimited w)
    then (let available = available_quantity w in
        if eqb_ℤ available (pos 0)
        then reject (http_error 409 lang (str "err_fully_reserved"))
        else if ltb_ℤ available quantity
        then reject (http_errorf 400 lang (str "err_quantity_exceeds") (available ∷ []))
        else pass tt)
    else pass tt

-- `time.Duration(weeks) * 7 * 24 * time.Hour`, in int64.
unfoldable pub reservation_time : ℤ → Duration
reservation_time weeks = wrap64 (wrap64 (wrap64 (weeks *ℤ pos 7) *ℤ pos 24) *ℤ pos 3600000000000)

unfoldable pub new_reservation : Time → Asked → Reservation
new_reservation now asked = record {
  quantity = asked.quantity;
  created_at = now;
  expires_at = now +ℤ reservation_time asked.weeks;
}

unfoldable pub add_reservation : Time → Asked → Wish → Wish
add_reservation now asked w = record w {
  status = record (w.status) {
    reservations = w.status.reservations ++ new_reservation now asked ∷ [];
  };
}

-- `client.ObjectKey{Name: name, Namespace: namespace}`
abbrev pub key_of : Str → Str → ObjectKey
key_of namespace name = record { namespace = namespace; name = name }

module _ (c : Client) (renders : Component → Bool) where
  open c use {Store, get, update_status}

  -- Rendering the card; `http.Error` if that fails.
  render_card : Str → Wish → Response
  render_card lang w =
      if renders (wish_card w lang)
      then record { status = 200; body = html (wish_card w lang) }
      else http_error 500 lang (str "err_render")

  -- The status update and what follows.
  store_wish : Str → Store → Wish → Store × Response
  store_wish lang s w =
      let (s', written) = update_status s w in
      if written
      then (s', render_card lang w)
      else (s', http_error 500 lang (str "err_reserve_failed"))

  reserve_checked : Str → Time → Asked → Store → Wish → Checked (Unit {0}) → Store × Response
  reserve_checked lang now asked s w (reject r) = (s, r)
  reserve_checked lang now asked s w (pass _) = store_wish lang s (add_reservation now asked w)

  -- The handler after the `Get`.
  unfoldable pub reserve_fetched : Str → Time → Asked → Store → Fetch → Store × Response
  unfolding reserve_checked store_wish render_card
  reserve_fetched lang now asked s not_found = (s, http_error 404 lang (str "err_not_found"))
  reserve_fetched lang now asked s failed = (s, http_error 500 lang (str "err_get_wish"))
  reserve_fetched lang now asked s (found w) =
      reserve_checked lang now asked s w (check_available lang w asked.quantity)

  reserve_parsed : Str → Str → Str → Time → Store → Checked Asked → Store × Response
  reserve_parsed lang namespace name now s (reject r) = (s, r)
  reserve_parsed lang namespace name now s (pass asked) =
      reserve_fetched lang now asked s (get s (key_of namespace name))

  unfoldable pub handle_reserve : Str → Time → Request → Str → Store → Store × Response
  unfolding reserve_parsed
  handle_reserve namespace now r name s =
      let lang = detect_language r in
      reserve_parsed lang namespace name now s (parse_reserve lang r name)
