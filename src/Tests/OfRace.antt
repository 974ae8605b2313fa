-- ===== src/Tests/OfRace.antt =====
-- Tests of the limiters of requests that run at the same time.
use wish_operator.Common.{
  ℕ, zero, suc, ◌≡◌, ◌≢◌, refl, arith, none, some, List, [], ◌∷◌, pos, Str, str, inl, inr, ◌=s=◌,
  if◌then◌else◌, =s=_sound, Bool-cases, sym, ◌∙◌,
}
use wish_operator.Wish.{Time}
use wish_operator.Web.Limit.Race.{Request, arrived, missed, holding, Shared, run, verdicts_of}
use wish_operator.Web.Limit.Race.Invariant.{IsSound, run-IsSound}
use wish_operator.Web.Limit.Race.Settled.{IsSettled, AsAlone, verdicts_of-AsAlone}
use wish_operator.Tests.OfServer.{counter}

-- Two requests of the address "a" and one of "b", with no limiters yet.
three_requests : ℕ → Request
three_requests zero = arrived (str "a")
three_requests (suc zero) = arrived (str "a")
three_requests (suc (suc n)) = arrived (str "b")

abbrev empty_map : Shared (counter 1)
empty_map = record { limiters = λ ip. none; cell = λ p. 1; next = 0; requests = three_requests }

all_arrived : (i p : ℕ) (ip : Str) → three_requests i ≢ holding ip p
unfolding three_requests
all_arrived zero p ip e = cc
all_arrived (suc zero) p ip e = cc
all_arrived (suc (suc n)) p ip e = cc

empty_map-IsSound : IsSound (counter 1) empty_map
empty_map-IsSound = record {
  bound = λ ip p r. elim r [ inl e ↦ cc | inr (i, e) ↦ absurd (all_arrived i p ip e) ];
  unique = λ ip other p r q. elim r [ inl e ↦ cc | inr (i, e) ↦ absurd (all_arrived i p ip e) ];
}

-- "b" runs alone, then the two requests of "a" interleave.
abbrev schedule : List (ℕ × Time)
schedule = (2, pos 1) ∷ (0, pos 1) ∷ (1, pos 2) ∷ (2, pos 2) ∷ (0, pos 3) ∷ (1, pos 3) ∷ []

run-IsSound_example : IsSound (counter 1) (run (counter 1) schedule empty_map)
run-IsSound_example = run-IsSound (counter 1) schedule empty_map empty_map-IsSound

-- Both requests of "a" have found nothing; then both store.
both_missed : ℕ → Request
both_missed zero = missed (str "a")
both_missed (suc n) = missed (str "a")

abbrev missed_map : Shared (counter 1)
missed_map = record (empty_map) { requests = both_missed }

abbrev first_pointer : ℕ
first_pointer = 0

-- The same requests when "a" has a limiter.
abbrev known_map : Shared (counter 1)
known_map = record {
  limiters = λ ip. if str "a" =s= ip then some 0 else none;
  cell = λ p. 1;
  next = 1;
  requests = three_requests;
}

only_a : (ip : Str) (p : ℕ) → known_map.limiters ip ≡ some p → str "a" ≡ ip
only_a ip p e = elim (Bool-cases (str "a" =s= ip)) [
  | inl same ↦ =s=_sound (str "a") ip same
  | inr other ↦ ground (arith, e, other)
]

never_missed : (i : ℕ) → three_requests i ≢ missed (str "a")
unfolding three_requests
never_missed zero e = cc
never_missed (suc zero) e = cc
never_missed (suc (suc n)) e = cc

known_map-IsSound : IsSound (counter 1) known_map
known_map-IsSound = record {
  bound = λ ip p r. elim r [ inl e ↦ ground arith | inr (i, e) ↦ absurd (all_arrived i p ip e) ];
  unique = λ ip other p r q. elim r [
    | inl e ↦ elim q [
      | inl f ↦ sym (only_a ip p e) ∙ only_a other p f
      | inr (i, f) ↦ absurd (all_arrived i p other f)
    ]
    | inr (i, e) ↦ absurd (all_arrived i p ip e)
  ];
}

known_map-IsSettled : IsSettled (counter 1) (str "a") 0 known_map
known_map-IsSettled = record {
  stored = refl;
  none_missed = λ i. never_missed i;
  held = λ i q e. absurd (all_arrived i q (str "a") e);
}

verdicts_of-AsAlone_example :
    AsAlone (counter 1) (str "a") 0 (known_map.cell 0) (verdicts_of (counter 1) schedule known_map)
verdicts_of-AsAlone_example =
    verdicts_of-AsAlone (counter 1) (str "a") 0 schedule known_map known_map-IsSound
      known_map-IsSettled
