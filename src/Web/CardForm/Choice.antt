-- ===== src/Web/CardForm/Choice.antt =====
-- What can be posted for the form of a card.
use mathlib.Core.List.{Memᴰ}
use wish_operator.Common.{
  ℕ, zero, suc, ◌+◌, ◌<◌, ◌≤◌, ◌≡◌, ◌⊎◌, inl, inr, refl, sym, ap, ◌∙◌, subst, true, false, Option,
  none, some, List, [], ◌∷◌, ◌++◌, map, arith, ℤ, pos, negsuc, ◌≤ℤ◌, leb_ℤ, ltb_ℤ, ltb, pos_part,
  two31, Str, str, Bool-cases,
}
use wish_operator.Wish.{max_int32, Wish, is_unlimited, available_quantity}
use wish_operator.Wish.Quantity.{available_range}
use wish_operator.Numbers.{decimal, decimal_ℤ}
use wish_operator.Web.Html.{Piece, raw, prepend_pieces, append_pieces}
use wish_operator.Web.CardForm.{
  option_pieces, quantity_options, quantity_input, weeks_select, week_text, offers_form,
}
use wish_operator.Web.CardForm.Options.{
  choices, option_list, if_then, next_choice, quantity_options-choices, quantity_options-endless,
}
use wish_operator.Web.CardForm.Fields.{
  after_prefix, raw_values, opens_value, values, is_number_input, Posts,
}

pub choice_in :
    (i n : ℕ) {v : Str}
    → Memᴰ v (map decimal (choices i n))
    → (k : ℕ) × (v ≡ decimal k) × (i ≤ k) × (k < i + n)
unfolding choices
choice_in i zero m = elim m [ ]
choice_in i (suc n) (Memᴰ.head e) = (i, e, omega arith, omega arith)
choice_in i (suc n) (Memᴰ.tail m) =
    let (k, e, above, below) = choice_in (suc i) n m in
    (k, e, omega (arith, above), omega (arith, below))

pub weeks_select-values :
    (lang : Str) → values false (weeks_select lang) ≡ map decimal (choices 1 8)
unfolding values weeks_select week_text choices decimal
weeks_select-values lang = refl

option_list-values :
    (is : List ℕ) → values false (option_list is ++ raw (str "</select> ") ∷ []) ≡ map decimal is
unfolding values option_list option_pieces decimal_ℤ
option_list-values [] = refl
option_list-values (i ∷ is) = ap (λ vs. decimal i ∷ vs) (option_list-values is)

options_short :
    (fuel i count available : ℕ)
    → fuel ≤ count
    → suc available ≡ i + count
    → suc available < two31
    → quantity_options fuel (pos i) (pos available) ≡ none
unfolding quantity_options prepend_pieces
options_short zero i count available f e h = refl
options_short (suc fuel) i zero available f e h = absurd (omega (arith, f))
options_short (suc fuel) i (suc count) available f e h =
    if_then (leb_ℤ (pos i) (pos available)) _ _ (ground arith)
    ∙ ap (prepend_pieces (option_pieces (pos i))) (
        ap (λ n. quantity_options fuel n (pos available)) (next_choice i (omega arith))
        ∙ options_short fuel (suc i) count available (omega arith) (omega arith) h)

options_result :
    (fuel : ℕ) (a : ℤ) (os : List Piece)
    → pos 0 ≤ℤ a
    → a ≤ℤ max_int32
    → quantity_options fuel (pos 1) a ≡ some os
    → os ≡ option_list (choices 1 (pos_part a))
options_result fuel (negsuc n) os nonneg most e = absurd (omega (arith, nonneg))
options_result fuel (pos n) os nonneg most e = elim (Bool-cases (ltb (suc n) two31)) [
  | inl small ↦ elim (Bool-cases (ltb n fuel)) [
    | inl enough ↦
        cc (e, quantity_options-choices fuel n (ground (arith, enough)) (ground (arith, small)))
    | inr short ↦ absurd (
        cc (
          e,
          options_short fuel 1 n n (ground (arith, short)) (omega arith) (ground (arith, small)),
        ))
  ]
  | inr large ↦
      let full : pos n ≡ max_int32 = ap pos (ground (arith, large, most)) in
      absurd (cc (e, ap (quantity_options fuel (pos 1)) full, quantity_options-endless fuel))
]

all_available : (w : Wish) → is_unlimited w ≡ true → available_quantity w ≡ max_int32
unfolding available_quantity
all_available w h = rw h refl

some_inj : {a b : List Piece} → some a ≡ some b → a ≡ b
some_inj e = cc

-- The select around some options.
select_of : Option (List Piece) → Option (List Piece)
unfolding prepend_pieces append_pieces
select_of os =
    prepend_pieces (raw (str " <select name=\"quantity\" required>") ∷ [])
      (append_pieces os (raw (str "</select> ") ∷ []))

within_part : (a : ℤ) (i : ℕ) → pos 1 ≤ℤ a → i < 1 + pos_part a → pos i ≤ℤ a
within_part (pos n) i one h = omega (arith, h)
within_part (negsuc n) i one h = absurd (omega (arith, one))

selected_from :
    (a : ℤ) (o : Option (List Piece)) (qs : List Piece) (q : Str)
    → pos 1 ≤ℤ a
    → ((os : List Piece) → o ≡ some os → os ≡ option_list (choices 1 (pos_part a)))
    → select_of o ≡ some qs
    → Posts qs q
    → (i : ℕ) × (q ≡ decimal i) × (1 ≤ i) × (pos i ≤ℤ a)
unfolding select_of prepend_pieces append_pieces values is_number_input after_prefix raw_values
    opens_value
selected_from a none qs q one known e posted = cc
selected_from a (some os) qs q one known e posted =
    let entered : Memᴰ q (values false (os ++ raw (str "</select> ") ∷ [])) =
      subst (λ ps. Posts ps q) (some_inj (sym e)) posted in
    let listed =
      subst (λ l. Memᴰ q (values false (l ++ raw (str "</select> ") ∷ []))) (known os refl)
        entered in
    let (i, same, above, below) =
      choice_in 1 (pos_part a)
        (subst (λ vs. Memᴰ q vs) (option_list-values (choices 1 (pos_part a))) listed) in
    (i, same, above, within_part a i one below)

selected :
    (fuel : ℕ) (w : Wish) (qs : List Piece) (q : Str)
    → pos 1 ≤ℤ available_quantity w
    → select_of (quantity_options fuel (pos 1) (available_quantity w)) ≡ some qs
    → Posts qs q
    → (i : ℕ) × (q ≡ decimal i) × (1 ≤ i) × (pos i ≤ℤ available_quantity w)
selected fuel w qs q one =
    selected_from (available_quantity w) (quantity_options fuel (pos 1) (available_quantity w)) qs q
      one
      (λ os.
        options_result fuel (available_quantity w) os (available_range w).0 (available_range w).1)

-- What is posted as the quantity is "", where the card has no such field, or the number of a quantity that is
-- available.
pub posted_quantity :
    (fuel : ℕ) (w : Wish) (qs : List Piece) (q : Str)
    → offers_form w ≡ true
    → quantity_input fuel w ≡ some qs
    → Posts qs q
    → (pos 1 ≤ℤ available_quantity w)
      × ((q ≡ []) ⊎ ((i : ℕ) × (q ≡ decimal i) × (1 ≤ i) × (pos i ≤ℤ available_quantity w)))
unfolding quantity_input offers_form append_pieces prepend_pieces select_of is_number_input
    after_prefix
posted_quantity fuel w qs q offered e posted = elim (Bool-cases (is_unlimited w)) [
  | inl unlimited ↦
      let all = all_available w unlimited in
      let field : List Piece =
        raw (str " <input type=\"number\" name=\"quantity\" value=\"1\" min=\"1\" required> ")
        ∷ [] in
      let written : quantity_input fuel w ≡ some field = rw unlimited refl in
      let entered : Posts field q = subst (λ ps. Posts ps q) (some_inj (sym e ∙ written)) posted in
      let (i, same, above, below) = entered in
      (rw all (omega arith), inr (i, same, above, rw all (omega (arith, below))))
  | inr limited ↦
      let one : pos 1 ≤ℤ available_quantity w = ground (arith, limited, offered) in
      elim (Bool-cases (ltb_ℤ (pos 1) (available_quantity w))) [
        | inr last ↦
            let written : quantity_input fuel w ≡ some [] = rw (limited, last) refl in
            (one, inl (subst (λ ps. Posts ps q) (some_inj (sym e ∙ written)) posted))
        | inl more ↦
            let written : select_of (quantity_options fuel (pos 1) (available_quantity w))
                ≡ quantity_input fuel w =
              rw (limited, more) refl in
            let select : select_of (quantity_options fuel (pos 1) (available_quantity w))
                ≡ some qs =
              written ∙ e in
            (one, inr (selected fuel w qs q one select posted))
      ]
]
