-- ===== src/Common/Lists.antt =====
-- Lists over the native numbers, and predicates on all the items of a list.
use Prim.Native.Nat.{ℕ, zero, suc, ◌+◌, ◌≤◌}
use mathlib.Core.Path.{◌≡◌, refl, sym, subst}
use mathlib.Core.Bool.{Bool}
use mathlib.Core.List.{Memᴰ, List, [], ◌∷◌, ◌++◌}
use native.Mathlib.Omega.{arith}
use wish_operator.Common.Tests.{if◌then◌else◌}

module _ {ℓ} {A : Type ℓ} where
  abbrev pub length : List A → ℕ
  length [] = 0
  length (x ∷ xs) = suc (length xs)

  abbrev pub replicate : ℕ → A → List A
  replicate zero a = []
  replicate (suc n) a = a ∷ replicate n a

  -- A slice filtered by a Boolean test.
  abbrev pub keep : (A → Bool) → List A → List A
  keep p [] = []
  keep p (x ∷ xs) = if p x then x ∷ keep p xs else keep p xs

  pub length-append : (xs ys : List A) → length (xs ++ ys) ≡ length xs + length ys
  length-append [] ys = omega arith
  length-append (x ∷ xs) ys = omega (arith, length-append xs ys)

  pub length-keep : (p : A → Bool) (xs : List A) → length (keep p xs) ≤ length xs
  length-keep p [] = omega arith
  length-keep p (x ∷ xs) = ground (arith, length-keep p xs)

  -- A filter that drops nothing by its length returns the list itself.
  pub keep_all : (p : A → Bool) (xs : List A) → length (keep p xs) ≡ length xs → keep p xs ≡ xs
  keep_all p [] h = refl
  keep_all p (x ∷ xs) h = ground (arith, keep_all p xs, length-keep p xs)

module _ {ℓ κ} {A : Type ℓ} (P : A → Type κ) where
  abbrev pub All : List A → Type κ
  All [] = Unit
  All (x ∷ xs) = P x × All xs

  pub All-append : (xs ys : List A) → All xs → All ys → All (xs ++ ys)
  All-append [] ys _ k = k
  All-append (x ∷ xs) ys (p, h) k = (p, All-append xs ys h k)

  pub All-keep : (p : A → Bool) (xs : List A) → All xs → All (keep p xs)
  All-keep p [] h = tt
  All-keep p (x ∷ xs) (q, h) = ground (arith, All-keep p xs h)

  pub All-mem : {x : A} (xs : List A) → All xs → Memᴰ x xs → P x
  All-mem [] h m = elim m [ ]
  All-mem (y ∷ xs) (p, h) (Memᴰ.head e) = subst P (sym e) p
  All-mem (y ∷ xs) (p, h) (Memᴰ.tail m) = All-mem xs h m

pub All-weaken {ℓ κ} :
    {A : Type ℓ} (P Q : A → Type κ) (xs : List A) → ((x : A) → P x → Q x) → All P xs → All Q xs
All-weaken P Q [] f h = tt
All-weaken P Q (x ∷ xs) f (p, h) = (f x p, All-weaken P Q xs f h)

pub not-mem_nil {ℓ} : {A : Type ℓ} {x : A} (xs : List A) → xs ≡ [] → Memᴰ x xs → ⊥
not-mem_nil [] e m = elim m [ ]
not-mem_nil (y ∷ xs) e m = cc
