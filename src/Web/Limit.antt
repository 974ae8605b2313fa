-- ===== src/Web/Limit.antt =====
-- `getClientIP`, `getLimiter` and `rateLimitMiddleware` of internal/web/server.go.
-- Parameters: `net.SplitHostPort` and the limiters of golang.org/x/time/rate. The map holds
-- pointers to limiters, as a function of the address; `Allow` changes the limiter at its pointer.
pub mod Address
pub mod Isolation
pub mod Race
use wish_operator.Common.{
  Bool, true, false, not, Option, some, none, List, [], ◌∷◌, Str, str, is_empty, split, trim_space,
  ◌=s=◌, if◌then◌else◌, ℕ, suc, ◌==◌,
}
use wish_operator.Wish.{Time}
use wish_operator.Http.{value, Request}
use wish_operator.I18n.{detect_language}
use wish_operator.Web.Reserve.{Response, http_error}

-- The host and the port of an address; `none` is the error.
abbrev pub SplitHostPort : Type 0
SplitHostPort = Str → Option (Str × Str)

-- `NewLimiter` with the server's rate and burst, and `Allow` at a time.
pub record RateLimiter : Type 1 where
  pub State : Type 0
  pub new_limiter : State
  pub allow : State → Time → State × Bool

or_remote : Str → Option (Str × Str) → Str
or_remote remote none = remote
or_remote remote (some (host, port)) = host

-- The address without X-Forwarded-For.
direct_ip : SplitHostPort → Request → Str
unfolding or_remote
direct_ip split_host_port r =
    let xri = value (str "X-Real-IP") r.header in
    if not (is_empty xri) then xri else or_remote r.remote_addr (split_host_port r.remote_addr)

-- The first of the addresses, if there is one.
first_or : List Str → Str → Str
first_or [] other = other
first_or (ip ∷ ips) other = trim_space ip

unfoldable pub get_client_ip : SplitHostPort → Request → Str
unfolding direct_ip first_or
get_client_ip split_host_port r =
    let xff = value (str "X-Forwarded-For") r.header in
    if not (is_empty xff)
    then first_or (split b',' xff) (direct_ip split_host_port r)
    else direct_ip split_host_port r

-- A write at an address, and one under an address of a client.
abbrev pub at_pointer : {A : Type 0} → (ℕ → A) → ℕ → A → ℕ → A
at_pointer f p a q = if p == q then a else f q

abbrev pub at_ip : (Str → Option ℕ) → Str → ℕ → Str → Option ℕ
at_ip m ip p other = if ip =s= other then some p else m other

module _ (l : RateLimiter) where
  open l use {State, new_limiter, allow}

  -- The map of pointers, the limiters that they point to, and the next free pointer.
  pub record Limiters : Type 0 where
    pub pointers : Str → Option ℕ
    pub cell : ℕ → State
    pub next : ℕ

  -- `rate.NewLimiter` and `s.limiters.Store(ip, limiter)`
  unfoldable pub store_limiter : Str → Limiters → Limiters × ℕ
  store_limiter ip m = (
    record {
      pointers = at_ip m.pointers ip m.next;
      cell = at_pointer m.cell m.next new_limiter;
      next = suc m.next;
    },
    m.next,
  )

  unfoldable pub loaded : Str → Limiters → Option ℕ → Limiters × ℕ
  unfolding store_limiter
  loaded ip m (some p) = (m, p)
  loaded ip m none = store_limiter ip m

  unfoldable pub get_limiter : Str → Limiters → Limiters × ℕ
  unfolding loaded
  get_limiter ip m = loaded ip m (m.pointers ip)

  -- `limiter.Allow()` changes the limiter that the pointer points to.
  unfoldable pub allow_at : Time → Limiters × ℕ → Limiters × Bool
  allow_at now (m, p) =
      let (limiter, allowed) = allow (m.cell p) now in
      (record m { cell = at_pointer m.cell p limiter }, allowed)

  -- `s.getLimiter(ip)` and `limiter.Allow()`.
  unfoldable pub allow_ip : Str → Time → Limiters → Limiters × Bool
  unfolding get_limiter allow_at
  allow_ip ip now m = allow_at now (get_limiter ip m)

  -- The middleware around a handler with the state `S`.
  unfoldable pub rate_limit_middleware :
      {S : Type 0}
      → SplitHostPort
      → (Request → S → S × Response)
      → Time
      → Request
      → Limiters × S
      → (Limiters × S) × Response
  unfolding allow_ip
  rate_limit_middleware split_host_port next now r (m, s) =
      let (m', allowed) = allow_ip (get_client_ip split_host_port r) now m in
      if not allowed
      then ((m', s), http_error 429 (detect_language r) (str "err_rate_limit"))
      else (let (s', response) = next r s in ((m', s'), response))
