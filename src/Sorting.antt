-- ===== src/Sorting.antt =====
-- The contract of package sort: the result has the same items, and no later item is less than an
-- earlier one. Items that are equal under `less` may come in any order, so the sort is a parameter.
pub mod Insertion
use mathlib.Core.List.{Pairwise}
use wish_operator.Common.{◌≡◌, Bool, true, false, List, Perm}

pub record Sorter {A : Type 0} (less : A → A → Bool) : Type 0 where
  pub sort : List A → List A
  pub sort_perm : (xs : List A) → Perm (sort xs) xs
  pub sort_ordered : (xs : List A) → Pairwise (λ a b. less b a ≡ false) (sort xs)

-- What package sort asks of `less`: a strict weak ordering.
pub record IsStrictWeak {A : Type 0} (less : A → A → Bool) : Type 0 where
  pub asymmetric : (a b : A) → less a b ≡ true → less b a ≡ false
  pub negatively_transitive : (a b c : A) → less b a ≡ false → less c b ≡ false → less c a ≡ false
