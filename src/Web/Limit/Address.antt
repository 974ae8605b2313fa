-- ===== src/Web/Limit/Address.antt =====
-- The address that a request is counted under.
use wish_operator.Common.{
  ℕ, prepend, ◌≡◌, refl, ap, false, List, [], ◌∷◌, ◌==◌, Str, str, is_empty, split, cut_before,
  trim_space, Bool-cases, inl, inr,
}
use wish_operator.Http.{value, Request}
use wish_operator.Web.Limit.{SplitHostPort, get_client_ip, first_or, direct_ip}

first-split : (sep : ℕ) (s : Str) → (rest : List Str) × (split sep s ≡ cut_before sep s ∷ rest)
unfolding split cut_before prepend
first-split sep [] = ([], refl)
first-split sep (c ∷ s) = elim (Bool-cases (c == sep)) [
  | inl here ↦ (split sep s, rw here refl)
  | inr later ↦ let (rest, e) = first-split sep s in (rest, rw later (ap (prepend c) e))
]

-- A request with an X-Forwarded-For header is counted under what stands in the header before its
-- first comma, without the space around it, whatever its other headers and its connection are.
get_client_ip-forwarded :
    (split_host_port : SplitHostPort) (r : Request)
    → is_empty (value (str "X-Forwarded-For") r.header) ≡ false
    → get_client_ip split_host_port r
      ≡ trim_space (cut_before b',' (value (str "X-Forwarded-For") r.header))
unfolding get_client_ip first_or
get_client_ip-forwarded split_host_port r h =
    let xff = value (str "X-Forwarded-For") r.header in
    let (rest, e) = first-split b',' xff in
    rw h (ap (λ ips. first_or ips (direct_ip split_host_port r)) e)
