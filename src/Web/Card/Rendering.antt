-- ===== src/Web/Card/Rendering.antt =====
-- When the rendering of a card ends.
use wish_operator.Common.{
  [], ◌∷◌, ℕ, ◌<◌, List, some, none, ◌⊎◌, pos_part, ◌≡◌, ◌≢◌, refl, true, false, Str, str,
}
use wish_operator.Wish.{max_int32, Time, Wish, is_unlimited, available_quantity}
use wish_operator.I18n.{FormatTime}
use wish_operator.Web.Html.{Piece, raw, prepend_pieces, append_pieces}
use wish_operator.Web.CardForm.{reserve_block}
use wish_operator.Web.Html.Result.{prepend_pieces-HasResult, append_pieces-HasResult}
use wish_operator.Web.CardForm.Result.{reserve_block-HasResult, reserve_block-endless}
use wish_operator.Web.Card.{card_head, wish_card}

module _ (fuel : ℕ) (w : Wish) (f : pos_part (available_quantity w) < fuel)
    (h : (is_unlimited w ≡ true) ⊎ (available_quantity w ≢ max_int32)) where
  -- The rendering of the card of an unlimited wish, or of one of which less than the largest int32
  -- is available, ends: one round more than the available quantity is enough.
  pub wish_card-ends :
      (format : FormatTime) (lang : Str) (now later : Time)
      → (card : List Piece) × (wish_card fuel format lang now later w ≡ some card)
  unfolding wish_card
  wish_card-ends format lang now later =
      prepend_pieces-HasResult (card_head format lang now later w) _ (
        append_pieces-HasResult (reserve_block fuel lang w) (raw (str "</div>") ∷ [])
          (reserve_block-HasResult fuel w f h lang))

-- A limited wish of which the largest int32 is available has no card: the loop over its quantities
-- never ends, whatever number of rounds it is given.
pub wish_card-endless :
    (fuel : ℕ) (format : FormatTime) (lang : Str) (now later : Time) (w : Wish)
    → is_unlimited w ≡ false
    → available_quantity w ≡ max_int32
    → wish_card fuel format lang now later w ≡ none
unfolding wish_card prepend_pieces append_pieces
wish_card-endless fuel format lang now later w limited most =
    rw (reserve_block-endless fuel lang w limited most) refl
