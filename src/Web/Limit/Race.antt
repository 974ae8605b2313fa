-- ===== src/Web/Limit/Race.antt =====
-- `getLimiter` and the `Allow` after it, of requests that run at the same time.
-- The map and the limiters are shared: the map holds pointers to limiters, and each request moves
-- from its `Load` to its `Store` to its `Allow` in steps that interleave with the steps of the
-- others. Each of the three is atomic in its library.
pub mod Invariant
pub mod Lost
pub mod Sequential
pub mod Settled
use Prim.Native.Nat.{compare, Ordering}
use wish_operator.Common.{
  ℕ, suc, ◌+◌, ◌==◌, Bool, true, false, Option, some, none, List, [], ◌∷◌, ◌++◌, Str, ◌=s=◌,
  if◌then◌else◌,
}
use wish_operator.Wish.{Time}
use wish_operator.Web.Limit.{RateLimiter, at_pointer, at_ip}

-- Where a request stands: before its `Load`, after a `Load` that found nothing, before its `Allow`
-- with the limiter it got, and after it with the verdict.
pub data Request : Type 0 where
  arrived : Str → Request
  missed : Str → Request
  holding : Str → ℕ → Request
  judged : Str → Bool → Request

module _ (l : RateLimiter) where
  open l use {State, new_limiter, allow}

  -- The map, the limiters at their addresses, the next free address, and the requests by number.
  pub record Shared : Type 0 where
    pub limiters : Str → Option ℕ
    pub cell : ℕ → State
    pub next : ℕ
    pub requests : ℕ → Request

  -- `s.limiters.Load(ip)`
  unfoldable pub load : ℕ → Str → Option ℕ → Shared → Shared
  load i ip none s = record s { requests = at_pointer s.requests i (missed ip) }
  load i ip (some p) s = record s { requests = at_pointer s.requests i (holding ip p) }

  -- `rate.NewLimiter` and `s.limiters.Store(ip, limiter)`
  unfoldable pub store : ℕ → Str → Shared → Shared
  store i ip s = record {
    limiters = at_ip s.limiters ip s.next;
    cell = at_pointer s.cell s.next new_limiter;
    next = suc s.next;
    requests = at_pointer s.requests i (holding ip s.next);
  }

  -- `limiter.Allow()` at a time.
  unfoldable pub judge : ℕ → Str → ℕ → Time → Shared → Shared
  judge i ip p now s =
      let (limiter, allowed) = allow (s.cell p) now in
      record s {
        cell = at_pointer s.cell p limiter;
        requests = at_pointer s.requests i (judged ip allowed);
      }

  unfoldable pub move : ℕ → Time → Request → Shared → Shared
  unfolding load store judge
  move i now (arrived ip) s = load i ip (s.limiters ip) s
  move i now (missed ip) s = store i ip s
  move i now (holding ip p) s = judge i ip p now s
  move i now (judged ip b) s = s

  -- The next step of the request with the given number.
  unfoldable pub step : ℕ → Time → Shared → Shared
  unfolding move
  step i now s = move i now (s.requests i) s

  -- The steps of a schedule, each the number of a request and the time.
  unfoldable pub run : List (ℕ × Time) → Shared → Shared
  unfolding step
  run [] s = s
  run ((i, now) ∷ rest) s = run rest (step i now s)

  -- The verdict that a step gives, with its address and time.
  unfoldable pub verdict : ℕ → Time → Request → Shared → List (Str × (Time × Bool))
  verdict i now (arrived ip) s = []
  verdict i now (missed ip) s = []
  verdict i now (holding ip p) s = (ip, (now, (allow (s.cell p) now).1)) ∷ []
  verdict i now (judged ip b) s = []

  -- The verdicts that a schedule gives, in order.
  unfoldable pub verdicts_of : List (ℕ × Time) → Shared → List (Str × (Time × Bool))
  unfolding verdict
  verdicts_of [] s = []
  verdicts_of ((i, now) ∷ rest) s =
      verdict i now (s.requests i) s ++ verdicts_of rest (step i now s)
