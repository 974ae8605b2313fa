-- ===== src/DeepCopy/Items.antt =====
-- The deep copy of a list of wishes.
use wish_operator.Common.{
  ℕ, ◌<◌, ◌≤◌, ◌≡◌, ◌↔◌, refl, sym, ap, ◌∙◌, subst, arith, some, none, List, [], ◌∷◌, map, All,
  All-weaken,
}
use wish_operator.DeepCopy.{
  Ref, WishRef, Cell, wishes, unused, Memory, write, alloc, deep_copy_wish, deep_copy_items,
  items_of, deep_copy_list,
}
use wish_operator.DeepCopy.Refs.{
  Below, Within, Extends, Extends-refl, Extends-trans, Below-weaken, Below-of_Within, Within-lower,
  Within-weaken,
}
use wish_operator.DeepCopy.Independence.{
  refs, Avoids-of_Within, Value, value_of, IsAllocated, deep_copy_wish-value, deep_copy_wish-Within,
  deep_copy_wish-Extends, value_of-Extends, write-value,
}

module _ (Condition : Type 0) where
  -- The slices and pointers of the wishes stand in a range of addresses.
  abbrev pub AllWithin : ℕ → ℕ → List WishRef → Type 0
  AllWithin lo hi ws = All (λ w. All (Within lo hi) (refs w)) ws

  abbrev pub values : Memory Condition → List WishRef → List (Value Condition)
  values m ws = map (value_of Condition m) ws

  -- The items that a slice of wishes holds.
  abbrev pub items_at : Memory Condition → Ref → List WishRef
  items_at m none = []
  items_at m (some p) = items_of Condition (m.cell p)

  values-Extends :
      (m m' : Memory Condition) (ws : List WishRef)
      → Extends Condition m m'
      → All (IsAllocated Condition m) ws
      → values m' ws ≡ values m ws
  values-Extends m m' [] h a = refl
  values-Extends m m' (w ∷ ws) h (b, a) =
      ap (λ v. v ∷ values m' ws) (value_of-Extends Condition m m' w h b)
      ∙ ap (λ vs. value_of Condition m w ∷ vs) (values-Extends m m' ws h a)

  later-IsAllocated :
      (m m' : Memory Condition) (ws : List WishRef)
      → Extends Condition m m'
      → All (IsAllocated Condition m) ws
      → All (IsAllocated Condition m') ws
  later-IsAllocated m m' ws h a =
      All-weaken (IsAllocated Condition m) (IsAllocated Condition m') ws
        (λ w b. Below-weaken m.next m'.next (refs w) h.grows b) a

  deep_copy_items-Extends :
      (m : Memory Condition) (ws : List WishRef)
      → Extends Condition m (deep_copy_items Condition m ws).0
  unfolding deep_copy_items
  deep_copy_items-Extends m [] = Extends-refl Condition m
  deep_copy_items-Extends m (w ∷ ws) =
      let m₁ = (deep_copy_wish Condition m w).0 in
      Extends-trans Condition m m₁ (deep_copy_items Condition m₁ ws).0
        (deep_copy_wish-Extends Condition m w) (deep_copy_items-Extends m₁ ws)

  deep_copy_items-Within :
      (m : Memory Condition) (ws : List WishRef)
      → AllWithin m.next (deep_copy_items Condition m ws).0.next (deep_copy_items Condition m ws).1
  unfolding deep_copy_items
  deep_copy_items-Within m [] = tt
  deep_copy_items-Within m (w ∷ ws) =
      let m₁ = (deep_copy_wish Condition m w).0 in
      let v = (deep_copy_wish Condition m w).1 in
      let last = (deep_copy_items Condition m₁ ws).0.next in
      (
        All-weaken (Within m.next m₁.next) (Within m.next last) (refs v)
            (λ o k. Within-weaken m.next m₁.next last o (deep_copy_items-Extends m₁ ws).grows k)
            (deep_copy_wish-Within Condition m w),
        All-weaken (λ u. All (Within m₁.next last) (refs u))
            (λ u. All (Within m.next last) (refs u)) (deep_copy_items Condition m₁ ws).1
            (λ u k.
              Within-lower m.next m₁.next last (refs u) (deep_copy_wish-Extends Condition m w).grows
                k)
            (deep_copy_items-Within m₁ ws),
      )

  deep_copy_items-values :
      (m : Memory Condition) (ws : List WishRef)
      → All (IsAllocated Condition m) ws
      → values (deep_copy_items Condition m ws).0 (deep_copy_items Condition m ws).1 ≡ values m ws
  unfolding deep_copy_items
  deep_copy_items-values m [] a = refl
  deep_copy_items-values m (w ∷ ws) (b, a) =
      let m₁ = (deep_copy_wish Condition m w).0 in
      let v = (deep_copy_wish Condition m w).1 in
      let m₂ = (deep_copy_items Condition m₁ ws).0 in
      let grown = deep_copy_wish-Extends Condition m w in
      let new =
        All-weaken (Within m.next m₁.next) (Below m₁.next) (refs v)
          (λ o k. Below-of_Within m.next m₁.next o k) (deep_copy_wish-Within Condition m w) in
      let kept = value_of-Extends Condition m₁ m₂ v (deep_copy_items-Extends m₁ ws) new in
      let rest = deep_copy_items-values m₁ ws (later-IsAllocated m m₁ ws grown a) in
      ap (λ x. x ∷ values m₂ (deep_copy_items Condition m₁ ws).1)
        (kept ∙ deep_copy_wish-value Condition m w b)
      ∙ ap (λ xs. value_of Condition m w ∷ xs) (rest ∙ values-Extends m m₁ ws grown a)

  alloc-Extends :
      (m : Memory Condition) (c : Cell Condition) → Extends Condition m (alloc Condition m c).0
  alloc-Extends m c = record { grows = omega arith; keeps = λ q h. ground arith }

  write-Extends :
      (m m' : Memory Condition) (q : ℕ) (c : Cell Condition)
      → m.next ≤ q
      → Extends Condition m m'
      → Extends Condition m (write Condition m' q c)
  write-Extends m m' q c h e = record {
    grows = e.grows;
    keeps = λ p k. ground (arith, h, k, e.keeps p k);
  }

  write-values :
      (m : Memory Condition) (q lo hi : ℕ) (c : Cell Condition) (ws : List WishRef)
      → q < lo
      → AllWithin lo hi ws
      → values (write Condition m q c) ws ≡ values m ws
  write-values m q lo hi c [] h k = refl
  write-values m q lo hi c (w ∷ ws) h (a, k) =
      ap (λ v. v ∷ values (write Condition m q c) ws)
        (write-value Condition m w q c (Avoids-of_Within q lo hi (refs w) h a))
      ∙ ap (λ vs. value_of Condition m w ∷ vs) (write-values m q lo hi c ws h k)

  stored_items :
      (m : Memory Condition) (q : ℕ) (vs : List WishRef)
      → items_at (write Condition m q (wishes vs)) (some q) ≡ vs
  unfolding items_of
  stored_items m q vs = ground arith

  -- For a list whose items have all their slices and pointers allocated, the deep copy is nil exactly
  -- for nil and has items that stand for the same values in the same order. All that they refer to is new,
  -- and no cell that was allocated before is changed.
  pub deep_copy_list-values :
      (m : Memory Condition) (o : Ref)
      → All (IsAllocated Condition m) (items_at m o)
      → let (m', copy) = deep_copy_list Condition m o in
        ((copy ≡ none) ↔ (o ≡ none))
        × (values m' (items_at m' copy) ≡ values m (items_at m o))
        × AllWithin m.next m'.next (items_at m' copy)
        × Extends Condition m m'
  unfolding deep_copy_list items_of
  deep_copy_list-values m none a = ((λ e. e, λ e. e), refl, tt, Extends-refl Condition m)
  deep_copy_list-values m (some p) a =
      let ws = items_at m (some p) in
      let m₁ = (alloc Condition m unused).0 in
      let m₂ = (deep_copy_items Condition m₁ ws).0 in
      let vs = (deep_copy_items Condition m₁ ws).1 in
      let grown = alloc-Extends m unused in
      let within = deep_copy_items-Within m₁ ws in
      let stored : items_at (write Condition m₂ m.next (wishes vs)) (some m.next) ≡ vs =
        stored_items m₂ m.next vs in
      let m' = write Condition m₂ m.next (wishes vs) in
      let same =
        write-values m₂ m.next m₁.next m₂.next (wishes vs) vs (omega arith) within
        ∙ deep_copy_items-values m₁ ws (later-IsAllocated m m₁ ws grown a)
        ∙ values-Extends m m₁ ws grown a in
      let new =
        All-weaken (λ u. All (Within m₁.next m₂.next) (refs u))
          (λ u. All (Within m.next m₂.next) (refs u)) vs
          (λ u k. Within-lower m.next m₁.next m₂.next (refs u) (omega arith) k) within in
      let (values_same, all_new) =
        subst (λ xs. (values m' xs ≡ values m ws) × AllWithin m.next m₂.next xs) (sym stored)
          (same, new) in
      (
        (λ e. cc, λ e. cc),
        values_same,
        all_new,
        write-Extends m m₂ m.next (wishes vs) (omega arith)
            (Extends-trans Condition m m₁ m₂ grown (deep_copy_items-Extends m₁ ws)),
      )
