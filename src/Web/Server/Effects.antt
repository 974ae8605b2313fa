-- ===== src/Web/Server/Effects.antt =====
-- What one request to the server does to the stored wishes.
use wish_operator.Common.{
  ◌≡◌, ◌⊎◌, inl, inr, refl, sym, ap, ◌∙◌, subst, Bool, true, false, Option, some, none, List, [],
  ◌∷◌, arith, Str, str, str_lt, ◌=s=◌, =s=_sound, Bool-cases, if◌then◌else◌,
}
use wish_operator.Wish.{Time}
use wish_operator.Http.{Request}
use wish_operator.I18n.{detect_language}
use wish_operator.Client.{Client}
use wish_operator.Sorting.{Sorter}
use wish_operator.Web.Reserve.{Component, Response, Asked, pass, parse_reserve, key_of}
use wish_operator.Web.Reserve.Effects.{WritesOnce, handle_reserve-writes}
use wish_operator.Web.Listing.{shown_before}
use wish_operator.Web.Limit.{
  RateLimiter, Limiters, SplitHostPort, rate_limit_middleware, allow_ip, get_client_ip,
}
use wish_operator.Web.Server.{
  Route, to_index, to_wishes, to_reserve, to_none, is_read, is_wishes, reserve_path,
  to_reserve_or_none, route, dispatch, serve_mux, handler,
}

abbrev pub reserve_segments : Str → List Str
reserve_segments name = str "wishes" ∷ name ∷ str "reserve" ∷ []

reserve_path-some :
    (path : List Str) (name : Str) → reserve_path path ≡ some name → path ≡ reserve_segments name
unfolding reserve_path
reserve_path-some [] name h = cc
reserve_path-some (a ∷ []) name h = cc
reserve_path-some (a ∷ b ∷ []) name h = cc
reserve_path-some (a ∷ b ∷ d ∷ []) name h =
    ground (arith, =s=_sound a (str "wishes"), =s=_sound d (str "reserve"))
reserve_path-some (a ∷ b ∷ d ∷ e ∷ rest) name h = cc

-- The tests of `route` for a route to the reservation handler.
reserve_chosen :
    (read wishes post : Bool) (found_name : Option Str) (name : Str)
    → (if read
        then (if wishes then to_wishes else to_index)
        else if post
        then to_reserve_or_none found_name
        else to_none)
      ≡ to_reserve name
    → (post ≡ true) × (found_name ≡ some name)
unfolding to_reserve_or_none
reserve_chosen true true post o name h = cc
reserve_chosen true false post o name h = cc
reserve_chosen false wishes true none name h = cc
reserve_chosen false wishes true (some found_name) name h = (refl, cc)
reserve_chosen false wishes false o name h = cc

route-reserve :
    (method : Str) (path : List Str) (name : Str)
    → route method path ≡ to_reserve name
    → (method ≡ str "POST") × (path ≡ reserve_segments name)
unfolding route
route-reserve method path name h =
    let (post, segments) =
      reserve_chosen (is_read method) (is_wishes path) (method =s= str "POST") (reserve_path path)
        name h in
    (=s=_sound method (str "POST") post, reserve_path-some path name segments)

-- A refused request is answered with 429 and changes nothing; any other is passed on.
pub middleware-cases :
    (l : RateLimiter) {S : Type 0} (split_host_port : SplitHostPort)
    (next : Request → S → S × Response) (now : Time) (r : Request) (m : Limiters l) (s : S)
    → let done = rate_limit_middleware l split_host_port next now r (m, s) in
      let allowed = (allow_ip l (get_client_ip split_host_port r) now m).1 in
      ((allowed ≡ false) × (done.0.1 ≡ s) × (done.1.status ≡ 429))
      ⊎ ((allowed ≡ true) × Path (S × Response) (done.0.1, done.1) (next r s))
unfolding rate_limit_middleware
middleware-cases l split_host_port next now r m s =
    elim (Bool-cases (allow_ip l (get_client_ip split_host_port r) now m).1) [
      | inl ok ↦ inr (ok, rw ok refl)
      | inr refused ↦ inl (refused, rw refused refl, rw refused refl)
    ]

module _ (by_priority : Sorter shown_before) (by_text : Sorter str_lt) (renders : Component → Bool)
    (c : Client) (namespace : Str) (now : Time) (r : Request) (s : c.Store) where
  open c use {get}

  -- The request was a POST to the path of a wish, and at most one reservation was added to that wish.
  abbrev pub MaySave : c.Store → Type 0
  MaySave after =
      (name : Str) × (r.method ≡ str "POST")
      × (r.path ≡ reserve_segments name)
      × ((a : Asked) × (parse_reserve (detect_language r) r name ≡ pass a)
          × WritesOnce c renders (detect_language r) now s a (get s (key_of namespace name)) after)

  dispatch-writes :
      (to : Route)
      → route r.method r.path ≡ to
      → ((dispatch by_priority by_text renders c namespace to now r s).0 ≡ s)
        ⊎ MaySave (dispatch by_priority by_text renders c namespace to now r s).0
  unfolding dispatch
  dispatch-writes to_index e = inl refl
  dispatch-writes to_wishes e = inl refl
  dispatch-writes (to_reserve name) e =
      let (method, path) = route-reserve r.method r.path name e in
      elim (handle_reserve-writes c renders namespace now r name s) [
        | inl same ↦ inl same
        | inr saved ↦ inr (name, method, path, saved)
      ]
  dispatch-writes to_none e = inl refl

  -- Whatever the request is, the stored wishes stay as they were, or the limiter of the client's
  -- address let the request through, it is a POST to the reserve path of a wish with a valid form,
  -- and at most one status update was made, which adds one reservation that the wish has room for.
  pub handler-writes :
      (l : RateLimiter) (split_host_port : SplitHostPort) (arrival : Time) (m : Limiters l)
      → let after =
          (handler by_priority by_text renders c namespace l split_host_port arrival now r
            (m, s)).0.1 in
        (after ≡ s)
        ⊎ (((allow_ip l (get_client_ip split_host_port r) arrival m).1 ≡ true) × MaySave after)
  unfolding handler serve_mux
  handler-writes l split_host_port arrival m =
      let next = serve_mux by_priority by_text renders c namespace now in
      elim (middleware-cases l split_host_port next arrival r m s) [
        | inl (refused, same, answer) ↦ inl same
        | inr (allowed, passed_on) ↦ elim (dispatch-writes (route r.method r.path) refl) [
          | inl same ↦ inl (ap (λ x. x.0) passed_on ∙ same)
          | inr saved ↦ inr (allowed, subst MaySave (sym (ap (λ x. x.0) passed_on)) saved)
        ]
      ]
