-- ===== src/Sorting/Insertion.antt =====
-- Insertion sort meets the contract for every strict weak ordering.
use mathlib.Core.List.{Pairwise, Pairwise-cons, mem-cons, not-mem-nil}
use mathlib.Core.List.Perm
use mathlib.Core.Logic.Or
use mathlib.Core.Bool.{Bool-set}
use wish_operator.Common.{
  inl, inr, ◌≡◌, Bool, false, List, [], ◌∷◌, Perm, if◌then◌else◌, Bool-cases,
}
use wish_operator.Sorting.{Sorter, IsStrictWeak}

module _ {A : Type 0} (less : A → A → Bool) where
  insert : A → List A → List A
  insert x [] = x ∷ []
  insert x (y ∷ ys) = if less y x then y ∷ insert x ys else x ∷ y ∷ ys

  unfoldable pub insertion_sort : List A → List A
  unfolding insert
  insertion_sort [] = []
  insertion_sort (x ∷ xs) = insert x (insertion_sort xs)

  insert-perm : (x : A) (ys : List A) → Perm (insert x ys) (x ∷ ys)
  unfolding insert
  insert-perm x [] = Perm.refl (x ∷ [])
  insert-perm x (y ∷ ys) = elim (Bool-cases (less y x)) [
    | inl before ↦ rw before (Perm.trans (Perm.cons y (insert-perm x ys)) (Perm.swap x y ys))
    | inr after ↦ rw after (Perm.refl (x ∷ y ∷ ys))
  ]

  pub insertion_sort-perm : (xs : List A) → Perm (insertion_sort xs) xs
  unfolding insertion_sort
  insertion_sort-perm [] = Perm.refl []
  insertion_sort-perm (x ∷ xs) =
      Perm.trans (insert-perm x (insertion_sort xs)) (Perm.cons x (insertion_sort-perm xs))

  abbrev pub Ordered : A → A → Type 0
  Ordered a b = less b a ≡ false

  module _ (weak : IsStrictWeak less) where
    insert-Ordered : (x : A) (ys : List A) → Pairwise Ordered ys → Pairwise Ordered (insert x ys)
    unfolding insert
    insert-Ordered x [] h = Pairwise-cons.1 ((λ z m. absurd (not-mem-nil m)), h)
    insert-Ordered x (y ∷ ys) h =
        let (first, rest) = Pairwise-cons.0 h in
        elim (Bool-cases (less y x)) [
          | inl before ↦ rw before (
              Pairwise-cons.1 (
                (λ z m.
                    Or.elim (Bool-set _ _) (mem-cons.0 ((Perm.mem_iff (insert-perm x ys)).0 m))
                      (λ e. rw e (weak.asymmetric y x before)) (λ k. first z k)),
                insert-Ordered x ys rest,
              ))
          | inr after ↦ rw after (
              Pairwise-cons.1 (
                (λ z m.
                    Or.elim (Bool-set _ _) (mem-cons.0 m) (λ e. rw e after)
                      (λ k. weak.negatively_transitive x y z after (first z k))),
                h,
              ))
        ]

    pub insertion_sort-Ordered : (xs : List A) → Pairwise Ordered (insertion_sort xs)
    unfolding insertion_sort
    insertion_sort-Ordered [] = Pairwise.nil
    insertion_sort-Ordered (x ∷ xs) =
        insert-Ordered x (insertion_sort xs) (insertion_sort-Ordered xs)

    abbrev pub insertion_sorter : Sorter less
    insertion_sorter = record {
      sort = insertion_sort;
      sort_perm = insertion_sort-perm;
      sort_ordered = insertion_sort-Ordered;
    }
