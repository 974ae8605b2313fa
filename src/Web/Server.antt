-- ===== src/Web/Server.antt =====
-- `Handler` of internal/web/server.go: the routes and the middleware around them.
-- A request stands here with the path that the ServeMux of net/http matches, after its redirects to
-- clean paths. A GET pattern also takes HEAD. What a path has no handler for is answered with 405,
-- since "GET /" takes every path.
pub mod Effects
pub mod Statuses
pub mod Chips
pub mod Admitted
pub mod Form
use wish_operator.Common.{
  Bool, true, false, Option, some, none, List, [], ◌∷◌, Str, str, str_lt, ◌=s=◌, ◌||◌, ◌&&◌,
  is_empty, if◌then◌else◌,
}
use wish_operator.Wish.{Wish, Time}
use wish_operator.Http.{Request}
use wish_operator.Client.{Client}
use wish_operator.Sorting.{Sorter}
use wish_operator.Web.Reserve.{Component, Response, handle_reserve, text}
use wish_operator.Web.Listing.{shown_before}
use wish_operator.Web.Listing.Page.{handle_index, handle_wishes}
use wish_operator.Web.Limit.{RateLimiter, Limiters, SplitHostPort, rate_limit_middleware}

-- The handler that a request is for.
pub data Route : Type 0 where
  to_index : Route
  to_wishes : Route
  to_reserve : Str → Route
  to_none : Route

is_read : Str → Bool
is_read method = method =s= str "GET" || method =s= str "HEAD"

-- "/wishes/{name}/reserve"
reserve_path : List Str → Option Str
reserve_path (first ∷ name ∷ last ∷ []) =
    if first =s= str "wishes" && last =s= str "reserve" then some name else none
reserve_path _ = none

is_wishes : List Str → Bool
is_wishes (first ∷ []) = first =s= str "wishes"
is_wishes _ = false

to_reserve_or_none : Option Str → Route
to_reserve_or_none none = to_none
to_reserve_or_none (some name) = to_reserve name

unfoldable pub route : Str → List Str → Route
unfolding is_read reserve_path is_wishes to_reserve_or_none
route method path =
    if is_read method
    then (if is_wishes path then to_wishes else to_index)
    else if method =s= str "POST"
    then to_reserve_or_none (reserve_path path)
    else to_none

module _ (by_priority : Sorter shown_before) (by_text : Sorter str_lt) (renders : Component → Bool)
    (c : Client) (namespace : Str) where
  open c use {Store}

  dispatch : Route → Time → Request → Store → Store × Response
  dispatch to_index now r s = (s, handle_index by_priority by_text renders c namespace r s)
  dispatch to_wishes now r s = (s, handle_wishes by_priority by_text renders c namespace r s)
  dispatch (to_reserve name) now r s = handle_reserve c renders namespace now r name s
  dispatch to_none now r s = (s, record { status = 405; body = text (str "Method Not Allowed") })

  unfoldable pub serve_mux : Time → Request → Store → Store × Response
  unfolding dispatch
  serve_mux now r s = dispatch (route r.method r.path) now r s

  -- The whole handler. The limiter reads the clock at `arrival`, the reservation at `now`.
  unfoldable pub handler :
      (l : RateLimiter)
      → SplitHostPort
      → Time
      → Time
      → Request
      → Limiters l × Store
      → (Limiters l × Store) × Response
  unfolding serve_mux
  handler l split_host_port arrival now r s =
      rate_limit_middleware l split_host_port (serve_mux now) arrival r s
