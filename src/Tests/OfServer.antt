-- ===== src/Tests/OfServer.antt =====
-- Tests of the routes, the limiter and the whole handler.
use wish_operator.Common.{
  ℕ, zero, suc, ◌≡◌, ◌↔◌, ◌⊎◌, refl, Bool, true, false, some, none, List, [], ◌∷◌, pos, Str, str,
  cut_before, split, trim_space, is_empty,
}
use wish_operator.Wish.{Time}
use wish_operator.Http.{value, Request}
use wish_operator.Web.Reserve.{Component}
use wish_operator.Web.Limit.{RateLimiter, Limiters, SplitHostPort, get_client_ip, allow_ip}
use wish_operator.Web.Limit.Isolation.{IsOwn, verdicts, of_ip, alone, verdicts-isolated}
use wish_operator.Web.Server.{to_reserve, route, handler}
use wish_operator.Web.Server.Effects.{MaySave, handler-writes}
use wish_operator.Web.Server.Statuses.{handler-limited_iff}
use wish_operator.Tests.Samples.{reserve_request, one_wish, three_keyboards}
use wish_operator.Tests.OfListing.{wish_sorter, text_sorter}

-- A limiter that lets a fixed number of requests through.
unfoldable pub spend : ℕ → ℕ × Bool
spend zero = (zero, false)
spend (suc n) = (n, true)

abbrev pub counter : ℕ → RateLimiter
counter burst = record { State = ℕ; new_limiter = burst; allow = λ n now. spend n }

abbrev pub split_at_colon : SplitHostPort
split_at_colon addr = some (cut_before b':' addr, [])

abbrev forwarded_request : Request
forwarded_request = record (reserve_request) {
  header = (str "X-Forwarded-For", str " 203.0.113.9 , 10.0.0.1") ∷ [];
}

abbrev pub all_render : Component → Bool
all_render component = true

abbrev two_clients : List (Str × Time)
two_clients = (str "a", pos 1) ∷ (str "b", pos 2) ∷ (str "a", pos 3) ∷ (str "b", pos 4) ∷ []

abbrev pub no_limiters : Limiters (counter 1)
no_limiters = record { pointers = λ ip. none; cell = λ p. 0; next = 0 }

no_limiters-IsOwn : IsOwn (counter 1) no_limiters
no_limiters-IsOwn = record { bound = λ ip p e. cc; unique = λ ip other p e f. cc }

reserve_route :
    route (str "POST") (str "wishes" ∷ str "tea" ∷ str "reserve" ∷ []) ≡ to_reserve (str "tea")
unfolding route
reserve_route = refl

forwarded_ip : get_client_ip split_at_colon forwarded_request ≡ str "203.0.113.9"
unfolding get_client_ip value split trim_space
forwarded_ip = refl

direct_ip : get_client_ip split_at_colon reserve_request ≡ str "192.0.2.1"
unfolding get_client_ip value cut_before
direct_ip = refl

has_forwarded : is_empty (value (str "X-Forwarded-For") forwarded_request.header) ≡ false
unfolding value
has_forwarded = refl

verdicts-isolated_example :
    of_ip (str "a") (verdicts (counter 1) no_limiters two_clients)
    ≡ alone (counter 1) 1 (pos 1 ∷ pos 3 ∷ [])
verdicts-isolated_example =
    verdicts-isolated (counter 1) (str "a") no_limiters two_clients no_limiters-IsOwn

handler-writes_example :
    let after =
      (handler wish_sorter text_sorter all_render
        (one_wish true)
        (str "default")
        (counter 1)
        split_at_colon
        (pos 600)
        (pos 601)
        reserve_request
        (no_limiters, three_keyboards)).0.1 in
    (after ≡ three_keyboards)
    ⊎ (((allow_ip
            (counter 1)
            (get_client_ip split_at_colon reserve_request)
            (pos 600)
            no_limiters).1
          ≡ true)
        × MaySave wish_sorter text_sorter all_render
            (one_wish true)
            (str "default")
            (pos 601)
            reserve_request
            three_keyboards
            after)
handler-writes_example =
    handler-writes wish_sorter text_sorter all_render (one_wish true) (str "default") (pos 601)
      reserve_request three_keyboards (counter 1) split_at_colon (pos 600) no_limiters

handler-limited_iff_example :
    ((handler wish_sorter text_sorter all_render
        (one_wish true)
        (str "default")
        (counter 1)
        split_at_colon
        (pos 600)
        (pos 601)
        reserve_request
        (no_limiters, three_keyboards)).1.status
      ≡ 429)
    ↔ ((allow_ip (counter 1) (get_client_ip split_at_colon reserve_request) (pos 600) no_limiters).1
        ≡ false)
handler-limited_iff_example =
    handler-limited_iff wish_sorter text_sorter all_render (one_wish true) (str "default") (pos 601)
      reserve_request three_keyboards (counter 1) split_at_colon (pos 600) no_limiters
