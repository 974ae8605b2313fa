-- ===== src/DeepCopy/Refs.antt =====
-- Copying a list of slices and pointers, one after the other.
use wish_operator.Common.{
  ℕ, ◌<◌, ◌≤◌, ◌≡◌, refl, ap, ◌∙◌, arith, Option, some, none, List, [], ◌∷◌, map, All,
}
use wish_operator.Wish.{Reservation}
use wish_operator.DeepCopy.{
  Ref, Cell, texts, reservations, conditions, duration, time, wishes, unused, Memory,
  deep_copy_reservation, copy_cell, copy_ref,
}

deep_copy_reservation_lem : (rs : List Reservation) → map deep_copy_reservation rs ≡ rs
unfolding deep_copy_reservation
deep_copy_reservation_lem [] = refl
deep_copy_reservation_lem (r ∷ rs) = ap (λ l. r ∷ l) (deep_copy_reservation_lem rs)

-- Below an address, and in a range of addresses. Nil is everywhere.
abbrev pub Below : ℕ → Ref → Type 0
Below n none = Unit {0}
Below n (some p) = p < n

abbrev pub Within : ℕ → ℕ → Ref → Type 0
Within lo hi none = Unit {0}
Within lo hi (some p) = (lo ≤ p) × (p < hi)

pub Within-weaken : (lo hi hi' : ℕ) (o : Ref) → hi ≤ hi' → Within lo hi o → Within lo hi' o
Within-weaken lo hi hi' none h w = tt
Within-weaken lo hi hi' (some p) h w = omega (arith, h, w)

pub Within-lower :
    (lo lo' hi : ℕ) (os : List Ref) → lo ≤ lo' → All (Within lo' hi) os → All (Within lo hi) os
Within-lower lo lo' hi [] h w = tt
Within-lower lo lo' hi (none ∷ os) h (a, w) = (tt, Within-lower lo lo' hi os h w)
Within-lower lo lo' hi (some p ∷ os) h (a, w) = (omega (arith, h, a), Within-lower lo lo' hi os h w)

pub Below-weaken : (n n' : ℕ) (os : List Ref) → n ≤ n' → All (Below n) os → All (Below n') os
Below-weaken n n' [] h b = tt
Below-weaken n n' (none ∷ os) h (a, b) = (tt, Below-weaken n n' os h b)
Below-weaken n n' (some p ∷ os) h (a, b) = (omega (arith, h, a), Below-weaken n n' os h b)

pub Below-of_Within : (lo hi : ℕ) (o : Ref) → Within lo hi o → Below hi o
Below-of_Within lo hi none w = tt
Below-of_Within lo hi (some p) w = w.1

module _ (Condition : Type 0) where
  unfoldable pub copy_refs : Memory Condition → List Ref → Memory Condition × List Ref
  copy_refs m [] = (m, [])
  copy_refs m (o ∷ os) =
      let (m₁, o') = copy_ref Condition m o in let (m₂, os') = copy_refs m₁ os in (m₂, o' ∷ os')

  -- What a slice or a pointer stands for; `none` is nil.
  abbrev pub content : Memory Condition → Ref → Option (Cell Condition)
  content m none = none
  content m (some p) = some (m.cell p)

  -- A memory that has grown and kept its cells.
  pub record Extends (m m' : Memory Condition) : Type 0 where
    pub grows : m.next ≤ m'.next
    pub keeps : (p : ℕ) → p < m.next → m'.cell p ≡ m.cell p

  copy_cell_lem : (c : Cell Condition) → copy_cell Condition c ≡ c
  unfolding copy_cell
  copy_cell_lem (texts ts) = refl
  copy_cell_lem (reservations rs) = ap reservations (deep_copy_reservation_lem rs)
  copy_cell_lem (conditions cs) = refl
  copy_cell_lem (duration d) = refl
  copy_cell_lem (time t) = refl
  copy_cell_lem (wishes ws) = refl
  copy_cell_lem unused = refl

  pub Extends-refl : (m : Memory Condition) → Extends m m
  Extends-refl m = record { grows = omega arith; keeps = λ p h. refl }

  pub Extends-trans : (m n o : Memory Condition) → Extends m n → Extends n o → Extends m o
  Extends-trans m n o h k = record {
    grows = omega (arith, h.grows, k.grows);
    keeps = λ p lt. k.keeps p (omega (arith, h.grows)) ∙ h.keeps p lt;
  }

  copy_ref-Extends : (m : Memory Condition) (o : Ref) → Extends m (copy_ref Condition m o).0
  unfolding copy_ref
  copy_ref-Extends m none = Extends-refl m
  copy_ref-Extends m (some p) = record { grows = omega arith; keeps = λ q h. ground arith }

  content-Extends :
      (m m' : Memory Condition) (o : Ref)
      → Extends m m'
      → Below m.next o
      → content m' o ≡ content m o
  content-Extends m m' none h b = refl
  content-Extends m m' (some p) h b = ap some (h.keeps p b)

  copy_ref-content :
      (m : Memory Condition) (o : Ref)
      → content (copy_ref Condition m o).0 (copy_ref Condition m o).1 ≡ content m o
  unfolding copy_ref
  copy_ref-content m none = refl
  copy_ref-content m (some p) = ap some (ground (arith, copy_cell_lem (m.cell p)))

  copy_ref-Within :
      (m : Memory Condition) (o : Ref)
      → Within m.next (copy_ref Condition m o).0.next (copy_ref Condition m o).1
  unfolding copy_ref
  copy_ref-Within m none = tt
  copy_ref-Within m (some p) = omega arith

  pub contents-Extends :
      (m m' : Memory Condition) (os : List Ref)
      → Extends m m'
      → All (Below m.next) os
      → map (content m') os ≡ map (content m) os
  contents-Extends m m' [] h b = refl
  contents-Extends m m' (o ∷ os) h (a, b) =
      ap (λ c. c ∷ map (content m') os) (content-Extends m m' o h a)
      ∙ ap (λ cs. content m o ∷ cs) (contents-Extends m m' os h b)

  -- The copies stand for what the originals stand for, at new addresses; the old cells are kept.
  pub copy_refs-Extends : (m : Memory Condition) (os : List Ref) → Extends m (copy_refs m os).0
  unfolding copy_refs
  copy_refs-Extends m [] = Extends-refl m
  copy_refs-Extends m (o ∷ os) =
      let m₁ = (copy_ref Condition m o).0 in
      Extends-trans m m₁ (copy_refs m₁ os).0 (copy_ref-Extends m o) (copy_refs-Extends m₁ os)

  pub copy_refs-Within :
      (m : Memory Condition) (os : List Ref)
      → All (Within m.next (copy_refs m os).0.next) (copy_refs m os).1
  unfolding copy_refs
  copy_refs-Within m [] = tt
  copy_refs-Within m (o ∷ os) =
      let m₁ = (copy_ref Condition m o).0 in
      let last = (copy_refs m₁ os).0.next in
      (
        Within-weaken m.next m₁.next last (copy_ref Condition m o).1 (copy_refs-Extends m₁ os).grows
            (copy_ref-Within m o),
        Within-lower m.next m₁.next last (copy_refs m₁ os).1 (copy_ref-Extends m o).grows
            (copy_refs-Within m₁ os),
      )

  pub copy_refs-contents :
      (m : Memory Condition) (os : List Ref)
      → All (Below m.next) os
      → map (content (copy_refs m os).0) (copy_refs m os).1 ≡ map (content m) os
  unfolding copy_refs
  copy_refs-contents m [] b = refl
  copy_refs-contents m (o ∷ os) (a, b) =
      let m₁ = (copy_ref Condition m o).0 in
      let o₁ = (copy_ref Condition m o).1 in
      let m₂ = (copy_refs m₁ os).0 in
      let kept =
        content-Extends m₁ m₂ o₁ (copy_refs-Extends m₁ os)
          (Below-of_Within m.next m₁.next o₁ (copy_ref-Within m o)) in
      let rest =
        copy_refs-contents m₁ os (Below-weaken m.next m₁.next os (copy_ref-Extends m o).grows b) in
      ap (λ c. c ∷ map (content m₂) (copy_refs m₁ os).1) (kept ∙ copy_ref-content m o)
      ∙ ap (λ cs. content m o ∷ cs) (rest ∙ contents-Extends m m₁ os (copy_ref-Extends m o) b)
