-- ===== src/Web/CardForm/Result.antt =====
-- When the rendering of the form ends.
use wish_operator.Common.{
  [], ◌∷◌, ◌≤ℤ◌, ◌≤◌, suc, negsuc, ℕ, ◌<◌, none, ◌⊎◌, inl, inr, ap, two31, pos_part, ◌≡◌, ◌≢◌, refl,
  true, false, arith, ℤ, pos, ltb_ℤ, Str, str,
}
use wish_operator.Wish.{max_int32, Wish, is_unlimited, available_quantity}
use wish_operator.Wish.Quantity.{available_range}
use wish_operator.Web.Html.{raw, prepend_pieces, append_pieces}
use wish_operator.Web.Html.Result.{
  HasResult, if-HasResult, prepend_pieces-HasResult, append_pieces-HasResult,
}
use wish_operator.Web.CardForm.{
  badge, form_start, weeks_select, offers_form, quantity_options, quantity_input, reserve_block,
}
use wish_operator.Web.CardForm.Options.{
  choices, option_list, quantity_options-choices, quantity_options-endless,
}

not_largest : (n : ℕ) → n ≤ 2147483647 → n ≢ 2147483647 → suc n < two31
not_largest n h k = omega (arith, k)

quantity_options-HasResult :
    (fuel : ℕ) (a : ℤ)
    → pos 0 ≤ℤ a
    → a ≤ℤ max_int32
    → a ≢ max_int32
    → pos_part a < fuel
    → HasResult (quantity_options fuel (pos 1) a)
quantity_options-HasResult fuel (negsuc n) low high not_most f = absurd (omega arith)
quantity_options-HasResult fuel (pos n) low high not_most f = (
  option_list (choices 1 n),
  quantity_options-choices fuel n f
      (not_largest n (omega (arith, high)) (λ e. not_most (ap pos e))),
)

module _ (fuel : ℕ) (w : Wish) (f : pos_part (available_quantity w) < fuel)
    (h : (is_unlimited w ≡ true) ⊎ (available_quantity w ≢ max_int32)) where
  quantity_input-HasResult : HasResult (quantity_input fuel w)
  unfolding quantity_input
  quantity_input-HasResult = elim h [
    | inl unlimited ↦ rw unlimited (_, refl)
    | inr not_most ↦
        let (low, high) = available_range w in
        let options = quantity_options-HasResult fuel (available_quantity w) low high not_most f in
        if-HasResult (is_unlimited w) _ _ (_, refl)
          (if-HasResult (ltb_ℤ (pos 1) (available_quantity w)) _ _
            (prepend_pieces-HasResult (raw (str " <select name=\"quantity\" required>") ∷ []) _
              (append_pieces-HasResult _ _ options))
            ([], refl))
  ]

  pub reserve_block-HasResult : (lang : Str) → HasResult (reserve_block fuel lang w)
  unfolding reserve_block
  reserve_block-HasResult lang =
      if-HasResult (offers_form w) _ _
        (prepend_pieces-HasResult (form_start lang w) _
          (append_pieces-HasResult _ (weeks_select lang) quantity_input-HasResult))
        (badge lang, refl)

pub reserve_block-endless :
    (fuel : ℕ) (lang : Str) (w : Wish)
    → is_unlimited w ≡ false
    → available_quantity w ≡ max_int32
    → reserve_block fuel lang w ≡ none
unfolding reserve_block prepend_pieces append_pieces quantity_input offers_form
reserve_block-endless fuel lang w limited most =
    rw (limited, most, quantity_options-endless fuel) refl
