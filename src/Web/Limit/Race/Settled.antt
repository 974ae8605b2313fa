-- ===== src/Web/Limit/Race/Settled.antt =====
-- Interleaved requests of an address that has its limiter.
use wish_operator.Common.{
  ℕ, ◌<◌, ◌≡◌, ◌≢◌, inl, inr, refl, sym, ap, ◌∙◌, subst, Bool, false, Option, some, none, List, [],
  ◌∷◌, ◌++◌, map, arith, ◌==◌, Str, ◌=s=◌, =s=_sound, =s=_refl, Bool-cases,
}
use wish_operator.Wish.{Time}
use wish_operator.Web.Limit.{at_pointer, RateLimiter}
use wish_operator.Web.Limit.Isolation.{of_ip, alone}
use wish_operator.Web.Limit.Race.{
  Request, arrived, missed, holding, judged, Shared, load, store, judge, move, step, verdict,
  verdicts_of,
}
use wish_operator.Web.Limit.Race.Invariant.{IsSound, move-IsSound, held_after}

module _ (l : RateLimiter) (ip : Str) (p : ℕ) where
  open l use {State, new_limiter, allow}

  -- The address has the limiter, no request of it is between its `Load` and its `Store`, and those
  -- that wait for their verdict have got that limiter.
  pub record IsSettled (s : Shared l) : Type 0 where
    pub stored : s.limiters ip ≡ some p
    pub none_missed : (i : ℕ) → s.requests i ≢ missed ip
    pub held : (i q : ℕ) → s.requests i ≡ holding ip q → q ≡ p

  not_same : (other : Str) → other ≢ ip → (other =s= ip) ≡ false
  not_same other h = elim (Bool-cases (other =s= ip)) [
    | inl same ↦ absurd (h (=s=_sound other ip same))
    | inr different ↦ different
  ]

  same_request :
      (other : Str) {q q' : ℕ} → holding other q ≡ holding ip q' → missed other ≡ missed ip
  same_request other k = cc

  -- A request moved to another state, with the map and the other requests as they were.
  moved-IsSettled :
      (s t : Shared l) (i : ℕ) (r : Request)
      → t.requests ≡ at_pointer s.requests i r
      → t.limiters ip ≡ some p
      → r ≢ missed ip
      → ((q : ℕ) → r ≡ holding ip q → q ≡ p)
      → IsSettled s
      → IsSettled t
  moved-IsSettled s t i r e found out got h = record {
    stored = found;
    none_missed = λ j m. elim (Bool-cases (i == j)) [
      | inl same ↦ out (ground (arith, sym m, ap (λ f. f j) e))
      | inr different ↦ h.none_missed j (ground (arith, m, ap (λ f. f j) e))
    ];
    held = λ j q m. elim (held_after l s i j r ip q (sym (ap (λ f. f j) e) ∙ m)) [
      | inl mine ↦ got q mine
      | inr old ↦ h.held j q old
    ];
  }

  load-IsSettled :
      (i : ℕ) (other : Str) (s : Shared l) (o : Option ℕ)
      → s.limiters other ≡ o
      → IsSettled s
      → IsSettled (load l i other o s)
  unfolding load
  load-IsSettled i other s none found h =
      moved-IsSettled s (load l i other none s) i (missed other) refl h.stored
        (λ e. cc (e, found, h.stored)) (λ q e. cc) h
  load-IsSettled i other s (some q) found h =
      moved-IsSettled s (load l i other (some q) s) i (holding other q) refl h.stored (λ e. cc)
        (λ q' e. cc (e, found, h.stored)) h

  move-IsSettled :
      (i : ℕ) (now : Time) (r : Request) (s : Shared l)
      → s.requests i ≡ r
      → IsSettled s
      → IsSettled (move l i now r s)
  unfolding move store judge
  move-IsSettled i now (arrived other) s e h = load-IsSettled i other s (s.limiters other) refl h
  move-IsSettled i now (missed other) s e h =
      let different = not_same other (λ same. h.none_missed i (e ∙ ap missed same)) in
      moved-IsSettled s (store l i other s) i (holding other s.next) refl
        (ground (arith, different, h.stored)) (λ k. cc)
        (λ q k. absurd (h.none_missed i (e ∙ same_request other k))) h
  move-IsSettled i now (holding other q) s e h =
      moved-IsSettled s (judge l i other q now s) i (judged other (allow (s.cell q) now).1) refl
        h.stored (λ k. cc) (λ q' k. cc) h
  move-IsSettled i now (judged other b) s e h = h

  load-cell :
      (i : ℕ) (other : Str) (s : Shared l) (o : Option ℕ) → (load l i other o s).cell p ≡ s.cell p
  unfolding load
  load-cell i other s none = refl
  load-cell i other s (some q) = refl

  store-cell :
      (i : ℕ) (other : Str) (s : Shared l) → p < s.next → (store l i other s).cell p ≡ s.cell p
  unfolding store
  store-cell i other s h = ground arith

  -- The limiter of the address changes only when a request of the address is judged.
  judge-cell :
      (i : ℕ) (other : Str) (q : ℕ) (now : Time) (s : Shared l)
      → IsSound l s
      → IsSettled s
      → s.requests i ≡ holding other q
      → (other =s= ip) ≡ false
      → (judge l i other q now s).cell p ≡ s.cell p
  unfolding judge
  judge-cell i other q now s sound h e different = elim (Bool-cases (q == p)) [
    | inl same ↦
        let e' : s.requests i ≡ holding other p = ground (arith, e) in
        let one = sound.unique other ip p (inr (i, e')) (inl h.stored) in
        ground (arith, one, =s=_refl ip, different)
    | inr other_cell ↦ rw other_cell refl
  ]

  judge-own :
      (i : ℕ) (other : Str) (q : ℕ) (now : Time) (s : Shared l)
      → q ≡ p
      → (judge l i other q now s).cell p ≡ (allow (s.cell p) now).0
  unfolding judge
  judge-own i other q now s e = rw e (ground arith)

  -- The verdicts of the address in a list of verdicts are those of the limiter, from a state on.
  abbrev pub AsAlone : State → List (Str × (Time × Bool)) → Type 0
  AsAlone limiter vs = map (λ v. v.1) (of_ip ip vs) ≡ alone l limiter (map (λ v. v.0) (of_ip ip vs))

  verdict-AsAlone :
      (i : ℕ) (now : Time) (r : Request) (s : Shared l) (vs : List (Str × (Time × Bool)))
      → IsSound l s
      → IsSettled s
      → s.requests i ≡ r
      → AsAlone ((move l i now r s).cell p) vs
      → AsAlone (s.cell p) (verdict l i now r s ++ vs)
  unfolding verdict move
  verdict-AsAlone i now (arrived other) s vs sound h e later =
      subst (λ x. AsAlone x vs) (load-cell i other s (s.limiters other)) later
  verdict-AsAlone i now (missed other) s vs sound h e later =
      subst (λ x. AsAlone x vs) (store-cell i other s (sound.bound ip p (inl h.stored))) later
  verdict-AsAlone i now (holding other q) s vs sound h e later = elim (Bool-cases (other =s= ip)) [
    | inl same ↦
        let own = h.held i q (e ∙ ap (λ a. holding a q) (=s=_sound other ip same)) in
        rw (same, own)
          (ap (λ bs. (allow (s.cell p) now).1 ∷ bs)
            (subst (λ x. AsAlone x vs) (judge-own i other q now s own) later))
    | inr different ↦
        rw different
          (subst (λ x. AsAlone x vs) (judge-cell i other q now s sound h e different) later)
  ]
  verdict-AsAlone i now (judged other b) s vs sound h e later = later

  -- When no two addresses share a limiter, and an address has its limiter with no request of it
  -- between `Load` and `Store` and none that got another limiter, then under every schedule the
  -- verdicts of that address are those of its one limiter alone, in the order of the schedule.
  pub verdicts_of-AsAlone :
      (schedule : List (ℕ × Time)) (s : Shared l)
      → IsSound l s
      → IsSettled s
      → AsAlone (s.cell p) (verdicts_of l schedule s)
  unfolding verdicts_of step
  verdicts_of-AsAlone [] s sound h = refl
  verdicts_of-AsAlone ((i, now) ∷ rest) s sound h =
      let r = s.requests i in
      let after = move l i now r s in
      verdict-AsAlone i now r s (verdicts_of l rest after) sound h refl (
        verdicts_of-AsAlone rest after (move-IsSound l i now r s sound)
          (move-IsSettled i now r s refl h))
