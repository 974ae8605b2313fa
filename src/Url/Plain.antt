-- ===== src/Url/Plain.antt =====
-- Texts that stand in a target as they are, and cuts at a character that they do not hold.
use wish_operator.Common.{
  ℕ, ◌≡◌, refl, ap, Bool, true, false, ◌&&◌, ◌||◌, ◌==◌, leb, some, [], ◌∷◌, ◌++◌, Str, arith,
  split, prepend, cut_before,
}
use wish_operator.Url.{QueryUnescape, cut_after, has_char}

-- The characters that a browser sends as they are in every part of a target.
unfoldable pub is_unreserved : ℕ → Bool
is_unreserved c =
    (leb b'a' c && leb c b'z')
    || (leb b'A' c && leb c b'Z')
    || (leb b'0' c && leb c b'9')
    || c == b'-'
    || c == b'_'
    || c == b'.'
    || c == b'~'

unfoldable pub is_plain : Str → Bool
unfolding is_unreserved
is_plain [] = true
is_plain (c ∷ s) = is_unreserved c && is_plain s

-- What `QueryUnescape` documents for such texts.
abbrev pub KeepsPlain : QueryUnescape → Type 0
KeepsPlain unescape = (s : Str) → is_plain s ≡ true → unescape s ≡ some s

pub has_char-plain :
    (c : ℕ) (s : Str) → is_plain s ≡ true → is_unreserved c ≡ false → has_char c s ≡ false
unfolding has_char is_plain
has_char-plain c [] h k = refl
has_char-plain c (d ∷ s) h k = ground (arith, has_char-plain c s, ap is_unreserved {x = d} {y = c})

pub has_char-append : (c : ℕ) (s t : Str) → has_char c (s ++ t) ≡ has_char c s || has_char c t
unfolding has_char
has_char-append c [] t = refl
has_char-append c (d ∷ s) t = ground (arith, has_char-append c s t)

pub cut_before-whole : (c : ℕ) (s : Str) → has_char c s ≡ false → cut_before c s ≡ s
unfolding cut_before has_char
cut_before-whole c [] h = refl
cut_before-whole c (d ∷ s) h = ground (arith, cut_before-whole c s)

pub cut_before-append :
    (c : ℕ) (s t : Str) → has_char c s ≡ false → cut_before c (s ++ t) ≡ s ++ cut_before c t
unfolding cut_before has_char
cut_before-append c [] t h = refl
cut_before-append c (d ∷ s) t h = ground (arith, cut_before-append c s t)

pub split-whole : (c : ℕ) (s : Str) → has_char c s ≡ false → split c s ≡ s ∷ []
unfolding split has_char prepend
split-whole c [] h = refl
split-whole c (d ∷ s) h = ground (arith, split-whole c s)

pub split-at : (c : ℕ) (s t : Str) → has_char c s ≡ false → split c (s ++ c ∷ t) ≡ s ∷ split c t
unfolding split has_char prepend
split-at c [] t h = ground arith
split-at c (d ∷ s) t h = ground (arith, split-at c s t)

pub cut_before-at : (c : ℕ) (s t : Str) → has_char c s ≡ false → cut_before c (s ++ c ∷ t) ≡ s
unfolding cut_before has_char
cut_before-at c [] t h = ground arith
cut_before-at c (d ∷ s) t h = ground (arith, cut_before-at c s t)

pub cut_after-at : (c : ℕ) (s t : Str) → has_char c s ≡ false → cut_after c (s ++ c ∷ t) ≡ t
unfolding cut_after has_char
cut_after-at c [] t h = ground arith
cut_after-at c (d ∷ s) t h = ground (arith, cut_after-at c s t)
