-- ===== src/Web/Limit/Race/Invariant.antt =====
-- Which requests and addresses refer to a limiter, along the interleavings.
use wish_operator.Common.{
  ℕ, suc, ◌<◌, ◌≡◌, ◌⊎◌, inl, inr, refl, sym, ◌∙◌, subst, Option, some, none, List, [], ◌∷◌, arith,
  Str, ◌=s=◌, =s=_sound, Bool-cases,
}
use wish_operator.Wish.{Time}
use wish_operator.Web.Limit.{at_pointer, RateLimiter}
use wish_operator.Web.Limit.Race.{
  Request, arrived, missed, holding, judged, Shared, load, store, judge, move, step, run,
}

module _ (l : RateLimiter) where
  open l use {State, new_limiter, allow}

  -- A limiter that stands in the map under an address, or that a request of the address has got.
  abbrev pub Refers : Shared l → Str → ℕ → Type 0
  Refers s ip p = (s.limiters ip ≡ some p) ⊎ ((i : ℕ) × (s.requests i ≡ holding ip p))

  pub record IsSound (s : Shared l) : Type 0 where
    pub bound : (ip : Str) (p : ℕ) → Refers s ip p → p < s.next
    pub unique : (ip other : Str) (p : ℕ) → Refers s ip p → Refers s other p → ip ≡ other

  -- Nothing refers to a limiter that it did not refer to before.
  abbrev Keeps : Shared l → Shared l → Type 0
  Keeps s t = (t.next ≡ s.next) × ((ip : Str) (p : ℕ) → Refers t ip p → Refers s ip p)

  -- One address refers to a new limiter.
  abbrev Adds : Str → Shared l → Shared l → Type 0
  Adds owner s t =
      (t.next ≡ suc s.next)
      × ((ip : Str) (p : ℕ) → Refers t ip p → Refers s ip p ⊎ ((p ≡ s.next) × (ip ≡ owner)))

  Keeps-IsSound : (s t : Shared l) → Keeps s t → IsSound s → IsSound t
  Keeps-IsSound s t (same, back) h = record {
    bound = λ ip p r. subst (λ n. p < n) (sym same) (h.bound ip p (back ip p r));
    unique = λ ip other p r q. h.unique ip other p (back ip p r) (back other p q);
  }

  Adds-IsSound : (owner : Str) (s t : Shared l) → Adds owner s t → IsSound s → IsSound t
  Adds-IsSound owner s t (more, back) h = record {
    bound = λ ip p r. elim (back ip p r) [
      | inl old ↦ omega (arith, more, h.bound ip p old)
      | inr (e, own) ↦ omega (arith, more, e)
    ];
    unique = λ ip other p r q. elim (back ip p r) [
      | inl old ↦ elim (back other p q) [
        | inl old' ↦ h.unique ip other p old old'
        | inr (e, own) ↦ absurd (omega (arith, e, h.bound ip p old))
      ]
      | inr (e, own) ↦ elim (back other p q) [
        | inl old' ↦ absurd (omega (arith, e, h.bound other p old'))
        | inr (e', own') ↦ own ∙ sym own'
      ]
    ];
  }

  -- A request moved to a state that refers to nothing, or to a limiter that was referred to.
  pub held_after :
      (s : Shared l) (i j : ℕ) (r : Request) (ip : Str) (p : ℕ)
      → at_pointer s.requests i r j ≡ holding ip p
      → (r ≡ holding ip p) ⊎ (s.requests j ≡ holding ip p)
  held_after s i j r ip p h = ground arith

  judge-Keeps :
      (i : ℕ) (ip : Str) (q : ℕ) (now : Time) (s : Shared l) → Keeps s (judge l i ip q now s)
  unfolding judge
  judge-Keeps i ip q now s = (
    refl,
    λ other p r. elim r [
      | inl in_map ↦ inl in_map
      | inr (j, h) ↦ elim (held_after s i j (judged ip (allow (s.cell q) now).1) other p h) [
        | inl e ↦ cc
        | inr old ↦ inr (j, old)
      ]
    ],
  )

  load-Keeps :
      (i : ℕ) (ip : Str) (s : Shared l) (o : Option ℕ)
      → s.limiters ip ≡ o
      → Keeps s (load l i ip o s)
  unfolding load
  load-Keeps i ip s none found = (
    refl,
    λ other p r. elim r [
      | inl in_map ↦ inl in_map
      | inr (j, h) ↦ elim (held_after s i j (missed ip) other p h) [
        | inl e ↦ cc
        | inr old ↦ inr (j, old)
      ]
    ],
  )
  load-Keeps i ip s (some q) found = (
    refl,
    λ other p r. elim r [
      | inl in_map ↦ inl in_map
      | inr (j, h) ↦ elim (held_after s i j (holding ip q) other p h) [
        | inl e ↦ inl (ground (arith, found, e))
        | inr old ↦ inr (j, old)
      ]
    ],
  )

  store-Adds : (i : ℕ) (ip : Str) (s : Shared l) → Adds ip s (store l i ip s)
  unfolding store
  store-Adds i ip s = (
    refl,
    λ other p r. elim r [
      | inl in_map ↦ elim (Bool-cases (ip =s= other)) [
        | inl same ↦ inr (ground (arith, in_map, same, =s=_sound ip other same))
        | inr different ↦ inl (inl (ground (arith, in_map, different)))
      ]
      | inr (j, h) ↦ elim (held_after s i j (holding ip s.next) other p h) [
        | inl e ↦ inr (cc, cc)
        | inr old ↦ inl (inr (j, old))
      ]
    ],
  )

  pub move-IsSound :
      (i : ℕ) (now : Time) (r : Request) (s : Shared l) → IsSound s → IsSound (move l i now r s)
  unfolding move
  move-IsSound i now (arrived ip) s h =
      Keeps-IsSound s (load l i ip (s.limiters ip) s) (load-Keeps i ip s (s.limiters ip) refl) h
  move-IsSound i now (missed ip) s h = Adds-IsSound ip s (store l i ip s) (store-Adds i ip s) h
  move-IsSound i now (holding ip p) s h =
      Keeps-IsSound s (judge l i ip p now s) (judge-Keeps i ip p now s) h
  move-IsSound i now (judged ip b) s h = h

  pub step-IsSound : (i : ℕ) (now : Time) (s : Shared l) → IsSound s → IsSound (step l i now s)
  unfolding step
  step-IsSound i now s h = move-IsSound i now (s.requests i) s h

  -- Whatever the interleaving of the requests, no two addresses come to share a limiter, whether it
  -- stands in the map or was handed to a request, and every limiter in use stays below the next free
  -- address.
  pub run-IsSound :
      (schedule : List (ℕ × Time)) (s : Shared l) → IsSound s → IsSound (run l schedule s)
  unfolding run
  run-IsSound [] s h = h
  run-IsSound ((i, now) ∷ rest) s h = run-IsSound rest (step l i now s) (step-IsSound i now s h)
