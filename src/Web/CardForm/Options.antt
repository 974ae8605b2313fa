-- ===== src/Web/CardForm/Options.antt =====
-- The loop over the quantities of the form.
use wish_operator.Common.{
  ℕ, zero, suc, ◌+◌, ◌<◌, ◌≡◌, refl, ap, ◌∙◌, Bool, true, none, some, List, [], ◌∷◌, ◌++◌, arith, ℤ,
  pos, ◌+ℤ◌, leb_ℤ, wrap32, IsInt32, wrap32-IsInt32, wrap32_of_IsInt32, two31, if◌then◌else◌,
}
use wish_operator.Wish.{max_int32}
use wish_operator.Web.Html.{Piece, prepend_pieces}
use wish_operator.Web.CardForm.{option_pieces, quantity_options}

-- `count` numbers from `i` on.
unfoldable pub choices : ℕ → ℕ → List ℕ
choices i zero = []
choices i (suc count) = i ∷ choices (suc i) count

unfoldable pub option_list : List ℕ → List Piece
option_list [] = []
option_list (i ∷ is) = option_pieces (pos i) ++ option_list is

pub next_choice : (i : ℕ) → suc i < two31 → wrap32 (pos i +ℤ pos 1) ≡ pos (suc i)
unfolding ◌+ℤ◌
next_choice i h =
    let e : pos i +ℤ pos 1 ≡ pos (suc i) = ground arith in
    rw e (wrap32_of_IsInt32 (pos (suc i)) (record { above = omega arith; below = h }))

pub if_then : {A : Type 0} (b : Bool) (x y : A) → b ≡ true → (if b then x else y) ≡ x
if_then b x y h = rw h refl

in_range : (i : ℤ) → IsInt32 i → leb_ℤ i max_int32 ≡ true
in_range i h = ground (arith, h.below)

options_from :
    (fuel i count available : ℕ)
    → count < fuel
    → suc available ≡ i + count
    → suc available < two31
    → quantity_options fuel (pos i) (pos available) ≡ some (option_list (choices i count))
unfolding quantity_options choices option_list prepend_pieces
options_from zero i count available f e h = absurd (omega arith)
options_from (suc fuel) i zero available f e h = ground arith
options_from (suc fuel) i (suc count) available f e h =
    let rest = options_from fuel (suc i) count available (omega arith) (omega arith) h in
    if_then (leb_ℤ (pos i) (pos available)) _ _ (ground arith)
    ∙ ap (prepend_pieces (option_pieces (pos i)))
        (ap (λ n. quantity_options fuel n (pos available)) (next_choice i (omega arith)) ∙ rest)

-- The loop offers the quantities from 1 to the available one, each once and in order, when the
-- available quantity is less than the largest int32; one more round than options is enough.
pub quantity_options-choices :
    (fuel available : ℕ)
    → available < fuel
    → suc available < two31
    → quantity_options fuel (pos 1) (pos available) ≡ some (option_list (choices 1 available))
quantity_options-choices fuel available f h =
    options_from fuel 1 available available f (omega arith) h

endless_from : (fuel : ℕ) (i : ℤ) → IsInt32 i → quantity_options fuel i max_int32 ≡ none
unfolding quantity_options prepend_pieces
endless_from zero i h = refl
endless_from (suc fuel) i h =
    if_then (leb_ℤ i max_int32) _ _ (in_range i h)
    ∙ ap (prepend_pieces (option_pieces i))
        (endless_from fuel (wrap32 (i +ℤ pos 1)) (wrap32-IsInt32 (i +ℤ pos 1)))

-- When the available quantity is the largest int32, the loop never ends: the counter wraps around
-- to the smallest int32 and stays within the bound, so no number of rounds is enough.
pub quantity_options-endless : (fuel : ℕ) → quantity_options fuel (pos 1) max_int32 ≡ none
quantity_options-endless fuel =
    endless_from fuel (pos 1) (record { above = omega arith; below = omega arith })
