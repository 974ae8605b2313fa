-- ===== src/Web/CardForm/Fields.antt =====
-- The fields of a card's form, read from the pieces that the card writes, and what a browser can post
-- for them.
use mathlib.Core.List.{Memᴰ}
use wish_operator.Common.{
  ℕ, ◌<◌, ◌≤◌, ◌≡◌, Bool, true, false, ◌||◌, ◌==◌, Option, none, some, List, [], ◌∷◌, ◌++◌, two31,
  Str, str, ◌=s=◌, if◌then◌else◌,
}
use wish_operator.Numbers.{decimal}
use wish_operator.Web.Html.{Piece, raw, escaped, attribute, link, classes}

-- What follows a prefix.
unfoldable pub after_prefix : Str → Str → Option Str
after_prefix [] s = some s
after_prefix (c ∷ p) [] = none
after_prefix (c ∷ p) (d ∷ s) = let rest = after_prefix p s in if c == d then rest else none

unfoldable pub prepend_char : ℕ → Option Str → Option Str
prepend_char c none = none
prepend_char c (some s) = some (c ∷ s)

-- The text up to the closing quotation mark, if there is one.
unfoldable pub quoted : Str → Option Str
unfolding prepend_char
quoted [] = none
quoted (c ∷ s) = let rest = prepend_char c (quoted s) in if c == b'"' then some [] else rest

unfoldable pub quoted_in : Option Str → Option Str
unfolding quoted
quoted_in none = none
quoted_in (some s) = quoted s

unfoldable pub add_some : Option Str → List Str → List Str
add_some none vs = vs
add_some (some v) vs = v ∷ vs

-- The `value` attributes that stand in a raw text.
unfoldable pub raw_values : Str → List Str
unfolding after_prefix quoted_in add_some
raw_values [] = []
raw_values (c ∷ s) = add_some (quoted_in (after_prefix (str "value=\"") (c ∷ s))) (raw_values s)

-- The text ends where a `value` attribute begins.
unfoldable pub opens_value : Str → Bool
opens_value [] = false
opens_value (c ∷ s) = (c ∷ s) =s= str "value=\"" || opens_value s

-- The `value` attributes of pieces, in order; the first piece may be the text of one.
unfoldable pub values : Bool → List Piece → List Str
unfolding raw_values opens_value
values started [] = []
values started (raw s ∷ ps) = raw_values s ++ values (opens_value s) ps
values started (attribute v ∷ ps) = let rest = values false ps in if started then v ∷ rest else rest
values started (escaped s ∷ ps) = values false ps
values started (link s ∷ ps) = values false ps
values started (classes cs ∷ ps) = values false ps

-- The pieces begin with an input for a number from 1 on.
unfoldable pub is_number_input : List Piece → Bool
unfolding after_prefix
is_number_input (raw s ∷ ps) =
    elim (after_prefix
      (str " <input type=\"number\" name=\"quantity\" value=\"1\" min=\"1\" required>") s) [
        | none ↦ false
        | some rest ↦ true
      ]
is_number_input _ = false

-- The number input takes any number from 1 on, here up to the largest int32; a select its options.
abbrev pub Enters : Bool → List Piece → Str → Type 0
Enters true ps q = (i : ℕ) × (q ≡ decimal i) × (1 ≤ i) × (i < two31)
Enters false ps q = Memᴰ q (values false ps)

-- What can be posted as the quantity; without a field it is "".
abbrev pub Posts : List Piece → Str → Type 0
Posts [] q = q ≡ []
Posts (p ∷ ps) q = Enters (is_number_input (p ∷ ps)) (p ∷ ps) q
