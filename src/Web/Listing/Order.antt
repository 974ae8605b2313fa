-- ===== src/Web/Listing/Order.antt =====
-- The comparison functions are strict weak orderings, as package sort asks.
use wish_operator.Common.{◌≡◌, refl, true, false, [], ◌∷◌, arith, Str, str_lt}
use wish_operator.Wish.{Wish}
use wish_operator.Sorting.{IsStrictWeak}
use wish_operator.Web.Listing.{shown_before}

str_lt-asymmetric : (s t : Str) → str_lt s t ≡ true → str_lt t s ≡ false
unfolding str_lt
str_lt-asymmetric s [] h = cc
str_lt-asymmetric [] (d ∷ t) h = refl
str_lt-asymmetric (c ∷ s) (d ∷ t) h = ground (arith, str_lt-asymmetric s t)

str_lt-negatively_transitive :
    (s t u : Str) → str_lt t s ≡ false → str_lt u t ≡ false → str_lt u s ≡ false
unfolding str_lt
str_lt-negatively_transitive [] t u h k = refl
str_lt-negatively_transitive (c ∷ s) [] u h k = cc
str_lt-negatively_transitive (c ∷ s) (d ∷ t) [] h k = cc
str_lt-negatively_transitive (c ∷ s) (d ∷ t) (e ∷ u) h k =
    ground (arith, str_lt-negatively_transitive s t u)

-- Two texts of which neither is before the other are equal.
pub str_lt-total : (s t : Str) → str_lt s t ≡ false → str_lt t s ≡ false → s ≡ t
unfolding str_lt
str_lt-total [] [] h k = refl
str_lt-total [] (d ∷ t) h k = cc
str_lt-total (c ∷ s) [] h k = cc
str_lt-total (c ∷ s) (d ∷ t) h k = ground (arith, str_lt-total s t)

pub str_lt-IsStrictWeak : IsStrictWeak str_lt
str_lt-IsStrictWeak = record {
  asymmetric = str_lt-asymmetric;
  negatively_transitive = str_lt-negatively_transitive;
}

shown_before-asymmetric : (a b : Wish) → shown_before a b ≡ true → shown_before b a ≡ false
unfolding shown_before
shown_before-asymmetric a b h = ground (arith, str_lt-asymmetric a.spec.title b.spec.title)

shown_before-negatively_transitive :
    (a b c : Wish) → shown_before b a ≡ false → shown_before c b ≡ false → shown_before c a ≡ false
unfolding shown_before
shown_before-negatively_transitive a b c h k =
    ground (arith, str_lt-negatively_transitive a.spec.title b.spec.title c.spec.title)

-- The comparison that the wishes are sorted by is a strict weak ordering, as package sort requires.
pub shown_before-IsStrictWeak : IsStrictWeak shown_before
shown_before-IsStrictWeak = record {
  asymmetric = shown_before-asymmetric;
  negatively_transitive = shown_before-negatively_transitive;
}
