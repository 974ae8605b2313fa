-- ===== src/Web/Limit/Race/Sequential.antt =====
-- Requests one at a time, against `allow_ip` on the map of limiters.
use wish_operator.Common.{ℕ, List, [], ◌∷◌}
use wish_operator.Wish.{Time}
use wish_operator.Web.Limit.{RateLimiter, Limiters}
use wish_operator.Web.Limit.Race.{Shared}

-- The three steps of a request, with nothing in between. A request that has its limiter after the
-- first has its verdict after the second.
abbrev pub without_pause : ℕ → Time → List (ℕ × Time)
without_pause i now = (i, now) ∷ (i, now) ∷ (i, now) ∷ []

module _ (l : RateLimiter) where
  open l use {State, new_limiter, allow}

  -- The shared state as the sequential model has it.
  unfoldable pub view : Shared l → Limiters l
  view s = record { pointers = s.limiters; cell = s.cell; next = s.next }
