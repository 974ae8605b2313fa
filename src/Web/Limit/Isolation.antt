-- ===== src/Web/Limit/Isolation.antt =====
-- Each address has a limiter of its own.
use wish_operator.Common.{
  ◌≡◌, ◌<◌, ℕ, arith, sym, subst, Option-cases, refl, ap, ◌∙◌, Bool, false, Option, some, none,
  List, [], ◌∷◌, Str, ◌=s=◌, =s=_refl, =s=_sound, if◌then◌else◌, Bool-cases, inl, inr,
}
use wish_operator.Wish.{Time}
use wish_operator.Web.Limit.{
  RateLimiter, Limiters, store_limiter, get_limiter, allow_ip, allow_at, loaded, at_pointer,
}

-- What stands under an address.
abbrev pub of_ip : {A : Type 0} → Str → List (Str × A) → List A
of_ip ip [] = []
of_ip ip ((other, a) ∷ l) = if other =s= ip then a ∷ of_ip ip l else of_ip ip l

module _ (l : RateLimiter) where
  open l use {State, new_limiter, allow}

  -- The verdicts on a sequence of requests, each an address and the time of the request.
  abbrev pub verdicts : Limiters l → List (Str × Time) → List (Str × Bool)
  verdicts m [] = []
  verdicts m ((ip, now) ∷ rs) =
      let (m', allowed) = allow_ip l ip now m in (ip, allowed) ∷ verdicts m' rs

  -- The verdicts of one limiter that is asked at the given times.
  abbrev pub alone : State → List Time → List Bool
  alone limiter [] = []
  alone limiter (now ∷ times) =
      let (limiter', allowed) = allow limiter now in allowed ∷ alone limiter' times

  -- The limiter of an address, a new one if it has none.
  abbrev pub or_new : Option State → State
  or_new none = new_limiter
  or_new (some limiter) = limiter

  abbrev at_cell : (ℕ → State) → Option ℕ → Option State
  at_cell cell none = none
  at_cell cell (some p) = some (cell p)

  -- The limiter of an address, if it has one.
  abbrev pub limiter_of : Limiters l → Str → Option State
  limiter_of m ip = at_cell m.cell (m.pointers ip)

  -- The pointers in the map are below the next free one, and no two addresses have the same.
  pub record IsOwn (m : Limiters l) : Type 0 where
    pub bound : (ip : Str) (p : ℕ) → m.pointers ip ≡ some p → p < m.next
    pub unique :
        (ip other : Str) (p : ℕ) → m.pointers ip ≡ some p → m.pointers other ≡ some p → ip ≡ other

  -- A request of an address, by what the map has for it.
  module _ (ip : Str) (now : Time) (m : Limiters l) (own : IsOwn m) where
    asked-IsOwn : (o : Option ℕ) → m.pointers ip ≡ o → IsOwn (allow_at l now (loaded l ip m o)).0
    unfolding allow_at loaded store_limiter
    asked-IsOwn (some p) e = record { bound = own.bound; unique = own.unique }
    asked-IsOwn none e = record {
      bound = λ a p h. elim (Bool-cases (ip =s= a)) [
        | inl same ↦ ground (arith, same)
        | inr different ↦ ground (arith, different, own.bound a p)
      ];
      unique = λ a b p h k. elim (Bool-cases (ip =s= a)) [
        | inl same ↦ elim (Bool-cases (ip =s= b)) [
          | inl too ↦ sym (=s=_sound ip a same) ∙ =s=_sound ip b too
          | inr other ↦ absurd (ground (arith, same, other, own.bound b p))
        ]
        | inr different ↦ elim (Bool-cases (ip =s= b)) [
          | inl too ↦ absurd (ground (arith, different, too, own.bound a p))
          | inr other ↦ own.unique a b p (ground (arith, different)) (ground (arith, other))
        ]
      ];
    }

    asked-verdict :
        (o : Option ℕ)
        → m.pointers ip ≡ o
        → (allow_at l now (loaded l ip m o)).1 ≡ (allow (or_new (at_cell m.cell o)) now).1
    unfolding allow_at loaded store_limiter
    asked-verdict (some p) e = refl
    asked-verdict none e = ap (λ s. (allow s now).1) (ground arith)

    asked-same :
        (o : Option ℕ)
        → m.pointers ip ≡ o
        → limiter_of (allow_at l now (loaded l ip m o)).0 ip
          ≡ some (allow (or_new (at_cell m.cell o)) now).0
    unfolding allow_at loaded store_limiter
    asked-same (some p) e = rw e (ap some (ground arith))
    asked-same none e =
        let new : at_pointer m.cell m.next new_limiter m.next ≡ new_limiter = ground arith in
        rw (=s=_refl ip, new) (ap some (ground arith))

    asked-other :
        (o : Option ℕ) (other : Str)
        → m.pointers ip ≡ o
        → ip =s= other ≡ false
        → limiter_of (allow_at l now (loaded l ip m o)).0 other ≡ limiter_of m other
    unfolding allow_at loaded store_limiter
    asked-other (some p) other e h = elim (Option-cases (m.pointers other)) [
      | inl unknown ↦ rw unknown refl
      | inr (q, known) ↦ rw known (ground (arith, e, known, h, own.unique ip other p, =s=_refl ip))
    ]
    asked-other none other e h = elim (Option-cases (m.pointers other)) [
      | inl unknown ↦ rw (h, unknown) refl
      | inr (q, known) ↦ rw (h, known) (ground (arith, own.bound other q known))
    ]

  allow_ip-IsOwn :
      (ip : Str) (now : Time) (m : Limiters l) → IsOwn m → IsOwn (allow_ip l ip now m).0
  unfolding allow_ip get_limiter
  allow_ip-IsOwn ip now m own = asked-IsOwn ip now m own (m.pointers ip) refl

  -- For a map in which no two addresses share a limiter: the verdicts on the requests from one address
  -- are those of a limiter of its own that is asked at the times of these requests only, the one it
  -- has or a new one. Requests from other addresses, in any interleaving, neither use up nor restore
  -- its allowance.
  pub verdicts-isolated :
      (ip : Str) (m : Limiters l) (rs : List (Str × Time))
      → IsOwn m
      → of_ip ip (verdicts m rs) ≡ alone (or_new (limiter_of m ip)) (of_ip ip rs)
  unfolding allow_ip get_limiter
  verdicts-isolated ip m [] own = refl
  verdicts-isolated ip m ((other, now) ∷ rs) own =
      let m' = (allow_ip l other now m).0 in
      let bs = of_ip ip (verdicts m' rs) in
      let from = λ (o : Option State). alone (or_new o) (of_ip ip rs) in
      let rest = verdicts-isolated ip m' rs (allow_ip-IsOwn other now m own) in
      elim (Bool-cases (other =s= ip)) [
        | inl same ↦
            let e = =s=_sound other ip same in
            let b = (allow (or_new (limiter_of m ip)) now).1 in
            let now_same =
              subst
                (λ x.
                  limiter_of (allow_ip l x now m).0 ip
                  ≡ some (allow (or_new (limiter_of m ip)) now).0)
                (sym e) (asked-same ip now m own (m.pointers ip) refl) in
            let verdict =
              subst (λ x. (allow_ip l x now m).1 ≡ (allow (or_new (limiter_of m ip)) now).1) (sym e)
                (asked-verdict ip now m own (m.pointers ip) refl) in
            rw same (ap (λ v. v ∷ bs) verdict ∙ ap (λ l. b ∷ l) (rest ∙ ap from now_same))
        | inr different ↦
            rw different
              (rest ∙ ap from (asked-other other now m own (m.pointers other) ip refl different))
      ]
