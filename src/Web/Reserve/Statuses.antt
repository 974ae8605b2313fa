-- ===== src/Web/Reserve/Statuses.antt =====
-- The statuses that `handleReserve` answers with.
use wish_operator.Common.{◌≡◌, refl, Bool, true, arith, ℕ, Str, if◌then◌else◌, ◌==◌}
use wish_operator.Wish.{Time, Wish}
use wish_operator.Http.{Request}
use wish_operator.I18n.{detect_language}
use wish_operator.Client.{Client, Fetch, found, not_found, failed}
use wish_operator.Web.Reserve.{
  Component, Checked, pass, reject, Asked, parse_reserve, check_available, add_reservation,
  render_card, store_wish, reserve_checked, reserve_fetched, reserve_parsed, handle_reserve, key_of,
}
use wish_operator.Web.Reserve.Effects.{Refuses, IsBadRequest, parse_reserve-Refuses}

-- The statuses that the handler can answer with.
unfoldable pub is_reserve_status : ℕ → Bool
is_reserve_status status =
    if status == 200
    then true
    else if status == 400
    then true
    else if status == 404
    then true
    else if status == 409
    then true
    else status == 500

module _ (c : Client) (renders : Component → Bool) (now : Time) (s : c.Store) where
  store_wish-status :
      (lang : Str) (w : Wish) → is_reserve_status (store_wish c renders lang s w).1.status ≡ true
  unfolding store_wish render_card is_reserve_status
  store_wish-status lang w = ground arith

  reserve_checked-status :
      (lang : Str) (a : Asked) (w : Wish) (m : Checked (Unit {0}))
      → check_available lang w a.quantity ≡ m
      → is_reserve_status (reserve_checked c renders lang now a s w m).1.status ≡ true
  unfolding reserve_checked check_available is_reserve_status
  reserve_checked-status lang a w (reject r) e = ground arith
  reserve_checked-status lang a w (pass tt) e = store_wish-status lang (add_reservation now a w)

  reserve_fetched-status :
      (lang : Str) (a : Asked) (f : Fetch)
      → is_reserve_status (reserve_fetched c renders lang now a s f).1.status ≡ true
  unfolding reserve_fetched is_reserve_status
  reserve_fetched-status lang a not_found = refl
  reserve_fetched-status lang a failed = refl
  reserve_fetched-status lang a (found w) =
      reserve_checked-status lang a w (check_available lang w a.quantity) refl

  reserve_parsed-status :
      (lang namespace name : Str) (m : Checked Asked)
      → Refuses IsBadRequest m
      → is_reserve_status (reserve_parsed c renders lang namespace name now s m).1.status ≡ true
  unfolding reserve_parsed is_reserve_status
  reserve_parsed-status lang namespace name (reject r) bad = rw bad refl
  reserve_parsed-status lang namespace name (pass a) bad =
      reserve_fetched-status lang a (c.get s (key_of namespace name))

  pub handle_reserve-status :
      (namespace name : Str) (r : Request)
      → is_reserve_status (handle_reserve c renders namespace now r name s).1.status ≡ true
  unfolding handle_reserve
  handle_reserve-status namespace name r =
      let lang = detect_language r in
      reserve_parsed-status lang namespace name (parse_reserve lang r name)
        (parse_reserve-Refuses lang r name)
