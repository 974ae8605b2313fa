-- ===== src/Web/Server/Admitted.antt =====
-- A request that the limiter admits.
use wish_operator.Common.{◌≡◌, refl, Bool, true, Str, str_lt}
use wish_operator.Wish.{Time}
use wish_operator.Client.{Client}
use wish_operator.Http.{Request}
use wish_operator.Sorting.{Sorter}
use wish_operator.Web.Reserve.{Component}
use wish_operator.Web.Listing.{shown_before}
use wish_operator.Web.Limit.{
  RateLimiter, Limiters, SplitHostPort, get_client_ip, allow_ip, rate_limit_middleware,
}
use wish_operator.Web.Server.{serve_mux, handler}

module _ (by_priority : Sorter shown_before) (by_text : Sorter str_lt) (renders : Component → Bool)
    (c : Client) (namespace : Str) where
  pub handler-admitted :
      (limiter : RateLimiter) (split_host_port : SplitHostPort) (arrival now : Time) (r : Request)
      (m : Limiters limiter) (s : c.Store)
      → (allow_ip limiter (get_client_ip split_host_port r) arrival m).1 ≡ true
      → let after =
          handler by_priority by_text renders c namespace limiter split_host_port arrival now r
            (m, s) in
        (after.0.1, after.1) ≡ serve_mux by_priority by_text renders c namespace now r s
  unfolding handler rate_limit_middleware
  handler-admitted limiter split_host_port arrival now r m s admitted = rw admitted refl
