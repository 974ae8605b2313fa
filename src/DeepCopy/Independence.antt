-- ===== src/DeepCopy/Independence.antt =====
-- What a deep copy stands for, and what it shares with the original.
use mathlib.Core.List.{Memᴰ}
use wish_operator.Common.{
  ℕ, ◌<◌, ◌≤◌, ◌≡◌, ◌≢◌, refl, sym, ap, ◌∙◌, subst, arith, Option, some, none, List, [], ◌∷◌, map,
  All, All-mem, All-weaken,
}
use wish_operator.DeepCopy.{Ref, WishRef, Cell, Memory, write, deep_copy_wish}
use wish_operator.DeepCopy.Refs.{
  copy_refs, content, Below, Within, Extends, contents-Extends, copy_refs-Extends, copy_refs-Within,
  copy_refs-contents,
}

-- The slices and pointers of a wish, in the order in which they are copied.
abbrev pub refs : WishRef → List Ref
refs w =
    w.spec.purchase_urls ∷ w.spec.tags ∷ w.spec.context_tags ∷ w.spec.ttl ∷ w.status.reservations
    ∷ w.status.conditions ∷ w.status.reserved_at ∷ w.status.reservation_expires ∷ []

-- The wish without them.
unfoldable pub without_refs : WishRef → WishRef
without_refs w = record w {
  spec = record (w.spec) { purchase_urls = none; tags = none; context_tags = none; ttl = none };
  status = record (w.status) {
    reservations = none;
    conditions = none;
    reserved_at = none;
    reservation_expires = none;
  };
}

-- The slice or the pointer is not at the address.
abbrev pub Avoids : ℕ → Ref → Type 0
Avoids q none = Unit {0}
Avoids q (some p) = q ≢ p

pub Avoids-of_Within :
    (q lo hi : ℕ) (os : List Ref) → q < lo → All (Within lo hi) os → All (Avoids q) os
Avoids-of_Within q lo hi [] h w = tt
Avoids-of_Within q lo hi (none ∷ os) h (a, w) = (tt, Avoids-of_Within q lo hi os h w)
Avoids-of_Within q lo hi (some p ∷ os) h (a, w) =
    (λ e. omega (arith, h, a, e), Avoids-of_Within q lo hi os h w)

Avoids-of_Below : (q n : ℕ) (os : List Ref) → n ≤ q → All (Below n) os → All (Avoids q) os
Avoids-of_Below q n [] h w = tt
Avoids-of_Below q n (none ∷ os) h (a, w) = (tt, Avoids-of_Below q n os h w)
Avoids-of_Below q n (some p ∷ os) h (a, w) =
    (λ e. omega (arith, h, a, e), Avoids-of_Below q n os h w)

-- The wish refers to the address.
abbrev pub Reaches : WishRef → ℕ → Type 0
Reaches w p = Memᴰ (some p) (refs w)

module _ (Condition : Type 0) where
  -- Everything that a wish stands for, what it refers to included.
  abbrev pub Value : Type 0
  Value = WishRef × List (Option (Cell Condition))

  unfoldable pub value_of : Memory Condition → WishRef → Value
  unfolding without_refs
  value_of m w = (without_refs w, map (content Condition m) (refs w))

  -- All that the wish refers to is allocated.
  abbrev pub IsAllocated : Memory Condition → WishRef → Type 0
  IsAllocated m w = All (Below m.next) (refs w)

  abbrev pub write_all : Memory Condition → List (ℕ × Cell Condition) → Memory Condition
  write_all m [] = m
  write_all m ((p, c) ∷ ws) = write_all (write Condition m p c) ws

  deep_copy_wish-refs :
      (m : Memory Condition) (w : WishRef)
      → Path
          (Memory Condition × List Ref)
          ((deep_copy_wish Condition m w).0, refs (deep_copy_wish Condition m w).1)
          (copy_refs Condition m (refs w))
  unfolding deep_copy_wish copy_refs
  deep_copy_wish-refs m w = refl

  deep_copy_wish-without :
      (m : Memory Condition) (w : WishRef)
      → without_refs (deep_copy_wish Condition m w).1 ≡ without_refs w
  unfolding deep_copy_wish without_refs
  deep_copy_wish-without m w = refl

  -- The copy of a wish stands for the same value as the wish, nil slices and pointers included.
  pub deep_copy_wish-value :
      (m : Memory Condition) (w : WishRef)
      → IsAllocated m w
      → value_of (deep_copy_wish Condition m w).0 (deep_copy_wish Condition m w).1 ≡ value_of m w
  unfolding value_of
  deep_copy_wish-value m w h =
      let copied = ap (λ r. map (content Condition r.0) r.1) (deep_copy_wish-refs m w) in
      ap
        (λ v. (
          v,
          map (content Condition (deep_copy_wish Condition m w).0)
              (refs (deep_copy_wish Condition m w).1),
        ))
        (deep_copy_wish-without m w)
      ∙ ap (λ cs. (without_refs w, cs)) (copied ∙ copy_refs-contents Condition m (refs w) h)

  write-contents :
      (m : Memory Condition) (q : ℕ) (c : Cell Condition) (os : List Ref)
      → All (Avoids q) os
      → map (content Condition (write Condition m q c)) os ≡ map (content Condition m) os
  write-contents m q c [] h = refl
  write-contents m q c (none ∷ os) (a, h) = ap (λ cs. none ∷ cs) (write-contents m q c os h)
  write-contents m q c (some p ∷ os) (a, h) =
      ap (λ x. some x ∷ map (content Condition (write Condition m q c)) os) (ground (arith, a))
      ∙ ap (λ cs. some (m.cell p) ∷ cs) (write-contents m q c os h)

  pub write-value :
      (m : Memory Condition) (w : WishRef) (q : ℕ) (c : Cell Condition)
      → All (Avoids q) (refs w)
      → value_of (write Condition m q c) w ≡ value_of m w
  unfolding value_of
  write-value m w q c a = ap (λ cs. (without_refs w, cs)) (write-contents m q c (refs w) a)

  -- Writes to cells outside of a wish do not change what it stands for.
  write_all-value :
      (m : Memory Condition) (w : WishRef) (ws : List (ℕ × Cell Condition))
      → All (λ x. All (Avoids x.0) (refs w)) ws
      → value_of (write_all m ws) w ≡ value_of m w
  unfolding value_of
  write_all-value m w [] h = refl
  write_all-value m w ((q, c) ∷ ws) (a, h) =
      write_all-value (write Condition m q c) w ws h ∙ write-value m w q c a

  pub deep_copy_wish-Within :
      (m : Memory Condition) (w : WishRef)
      → All
          (Within m.next (deep_copy_wish Condition m w).0.next)
          (refs (deep_copy_wish Condition m w).1)
  deep_copy_wish-Within m w =
      subst (λ r. All (Within m.next r.0.next) r.1) (sym (deep_copy_wish-refs m w))
        (copy_refs-Within Condition m (refs w))

  pub deep_copy_wish-Extends :
      (m : Memory Condition) (w : WishRef) → Extends Condition m (deep_copy_wish Condition m w).0
  deep_copy_wish-Extends m w =
      subst (λ r. Extends Condition m r.0) (sym (deep_copy_wish-refs m w))
        (copy_refs-Extends Condition m (refs w))

  pub value_of-Extends :
      (m m' : Memory Condition) (w : WishRef)
      → Extends Condition m m'
      → IsAllocated m w
      → value_of m' w ≡ value_of m w
  unfolding value_of
  value_of-Extends m m' w h a =
      ap (λ cs. (without_refs w, cs)) (contents-Extends Condition m m' (refs w) h a)

  -- A write to what the original refers to is not one to the copy, and the other way round.
  original-apart :
      (m : Memory Condition) (w : WishRef) (ws : List (ℕ × Cell Condition))
      → IsAllocated m w
      → All (λ x. Reaches w x.0) ws
      → All (λ x. All (Avoids x.0) (refs (deep_copy_wish Condition m w).1)) ws
  original-apart m w ws a h =
      All-weaken (λ x. Reaches w x.0)
        (λ x. All (Avoids x.0) (refs (deep_copy_wish Condition m w).1)) ws
        (λ x reached.
          Avoids-of_Within x.0 m.next (deep_copy_wish Condition m w).0.next
            (refs (deep_copy_wish Condition m w).1) (All-mem (Below m.next) (refs w) a reached)
            (deep_copy_wish-Within m w))
        h

  copy-apart :
      (m : Memory Condition) (w : WishRef) (ws : List (ℕ × Cell Condition))
      → IsAllocated m w
      → All (λ x. Reaches (deep_copy_wish Condition m w).1 x.0) ws
      → All (λ x. All (Avoids x.0) (refs w)) ws
  copy-apart m w ws a h =
      let v = (deep_copy_wish Condition m w).1 in
      let last = (deep_copy_wish Condition m w).0.next in
      All-weaken (λ x. Reaches v x.0) (λ x. All (Avoids x.0) (refs w)) ws
        (λ x reached.
          Avoids-of_Below x.0 m.next (refs w)
            (All-mem (Within m.next last) (refs v) (deep_copy_wish-Within m w) reached).0 a)
        h

  -- For a wish whose slices and pointers are all allocated, the deep copy stands for the same value
  -- as the wish. Whatever is then written to addresses that the original refers to, the copy still
  -- stands for that value, and whatever is written to addresses that the copy refers to, the original
  -- does.
  pub deep_copy_wish-independent :
      (m : Memory Condition) (w : WishRef) (to_original to_copy : List (ℕ × Cell Condition))
      → IsAllocated m w
      → All (λ x. Reaches w x.0) to_original
      → All (λ x. Reaches (deep_copy_wish Condition m w).1 x.0) to_copy
      → let (m', v) = deep_copy_wish Condition m w in
        (value_of m' v ≡ value_of m w)
        × (value_of (write_all m' to_original) v ≡ value_of m w)
        × (value_of (write_all m' to_copy) w ≡ value_of m w)
  deep_copy_wish-independent m w to_original to_copy a h k =
      let m' = (deep_copy_wish Condition m w).0 in
      let v = (deep_copy_wish Condition m w).1 in
      let same = deep_copy_wish-value m w a in
      (
        same,
        write_all-value m' v to_original (original-apart m w to_original a h) ∙ same,
        write_all-value m' w to_copy (copy-apart m w to_copy a k)
            ∙ value_of-Extends m m' w (deep_copy_wish-Extends m w) a,
      )
