-- ===== src/Web/Server/Statuses.antt =====
-- The statuses of the server's answers.
use wish_operator.Common.{
  ◌≡◌, ◌≢◌, ◌↔◌, inl, inr, sym, ap, ◌∙◌, Bool, true, false, Option, some, none, arith, Str, str_lt,
  ℕ,
}
use wish_operator.Wish.{Time}
use wish_operator.Http.{Request}
use wish_operator.Client.{Client}
use wish_operator.Sorting.{Sorter}
use wish_operator.Web.Reserve.{Component}
use wish_operator.Web.Reserve.Statuses.{is_reserve_status, handle_reserve-status}
use wish_operator.Web.Listing.{shown_before, Listing}
use wish_operator.Web.Listing.Page.{render_listing, render_wish_page, handle_index, handle_wishes}
use wish_operator.Web.Limit.{RateLimiter, Limiters, SplitHostPort, allow_ip, get_client_ip}
use wish_operator.Web.Server.Effects.{middleware-cases}
use wish_operator.Web.Server.{
  Route, to_index, to_wishes, to_reserve, to_none, route, dispatch, serve_mux, handler,
}

reserve_status-not-429 : (status : ℕ) → is_reserve_status status ≡ true → status ≢ 429
unfolding is_reserve_status
reserve_status-not-429 status h = ground arith

module _ (by_priority : Sorter shown_before) (by_text : Sorter str_lt) (renders : Component → Bool)
    (c : Client) (namespace : Str) (now : Time) (r : Request) (s : c.Store) where
  render_listing-not-429 :
      (full_page : Bool) (tag lang : Str) (l : Option Listing)
      → (render_listing by_priority by_text renders full_page tag lang l).status ≢ 429
  unfolding render_listing
  render_listing-not-429 full_page tag lang none = omega arith
  render_listing-not-429 full_page tag lang (some l) = ground arith

  dispatch-not-429 :
      (to : Route) → (dispatch by_priority by_text renders c namespace to now r s).1.status ≢ 429
  unfolding dispatch handle_index handle_wishes render_wish_page
  dispatch-not-429 to_index = render_listing-not-429 true _ _ _
  dispatch-not-429 to_wishes = render_listing-not-429 false _ _ _
  dispatch-not-429 (to_reserve name) =
      reserve_status-not-429 _ (handle_reserve-status c renders now s namespace name r)
  dispatch-not-429 to_none = omega arith

  -- The server answers 429 exactly when the limiter of the client's address refuses the request:
  -- no handler behind the limiter answers so.
  pub handler-limited_iff :
      (l : RateLimiter) (split_host_port : SplitHostPort) (arrival : Time) (m : Limiters l)
      → ((handler by_priority by_text renders c namespace l split_host_port arrival now r
            (m, s)).1.status
          ≡ 429)
        ↔ ((allow_ip l (get_client_ip split_host_port r) arrival m).1 ≡ false)
  unfolding handler serve_mux
  handler-limited_iff l split_host_port arrival m =
      let next = serve_mux by_priority by_text renders c namespace now in
      elim (middleware-cases l split_host_port next arrival r m s) [
        | inl (refused, same, answer) ↦ (λ _. refused, λ _. answer)
        | inr (allowed, passed_on) ↦ (
          λ h.
              absurd (
                dispatch-not-429 (route r.method r.path)
                  (sym (ap (λ x. x.1.status) passed_on) ∙ h)),
          λ refused. cc,
        )
      ]
