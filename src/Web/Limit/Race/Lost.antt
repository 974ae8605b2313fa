-- ===== src/Web/Limit/Race/Lost.antt =====
-- Two requests of one address that both find no limiter.
use wish_operator.Common.{ℕ, ◌≡◌, ◌≢◌, ap, Option, List, ◌∷◌, ◌++◌, Str}
use wish_operator.Wish.{Time}
use wish_operator.Web.Limit.{RateLimiter}
use wish_operator.Web.Limit.Race.{
  Request, arrived, holding, Shared, load, move, step, verdict, verdicts_of,
}

-- One step of a schedule, for a request in a known state.
pub verdicts_of-step :
    (l : RateLimiter) (i : ℕ) (now : Time) (rest : List (ℕ × Time)) (s : Shared l) (r : Request)
    → s.requests i ≡ r
    → verdicts_of l ((i, now) ∷ rest) s
      ≡ verdict l i now r s ++ verdicts_of l rest (move l i now r s)
unfolding verdicts_of step
verdicts_of-step l i now rest s r e =
    ap (λ x. verdict l i now x s ++ verdicts_of l rest (move l i now x s)) e

pub move-arrived :
    (l : RateLimiter) (i : ℕ) (now : Time) (ip : Str) (s : Shared l) (o : Option ℕ)
    → s.limiters ip ≡ o
    → move l i now (arrived ip) s ≡ load l i ip o s
unfolding move
move-arrived l i now ip s o e = ap (λ x. load l i ip x s) e

module _ (l : RateLimiter) (i j : ℕ) (different : i ≢ j) where
  open l use {State, new_limiter, allow}

  -- Both requests are past their `Load`, and they do not hold the same limiter.
  record IsApart (s : Shared l) : Type 0 where
    first_loaded : (ip : Str) → s.requests i ≢ arrived ip
    second_loaded : (ip : Str) → s.requests j ≢ arrived ip
    apart :
        (ip other : Str) (p q : ℕ)
        → s.requests i ≡ holding ip p
        → s.requests j ≡ holding other q
        → p ≢ q
