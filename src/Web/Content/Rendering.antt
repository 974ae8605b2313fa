-- ===== src/Web/Content/Rendering.antt =====
-- When the rendering of the list of wishes ends.
use mathlib.Core.List.{Memᴰ}
use wish_operator.Common.{
  ℕ, suc, ◌<◌, ◌≡◌, ◌≢◌, ◌⊎◌, refl, subst, Bool, true, false, not, ◌&&◌, eqb_ℤ, inl, inr,
  Bool-cases, arith, Option, none, some, List, [], ◌∷◌, Str, pos_part, All,
}
use wish_operator.Wish.{max_int32, Wish, is_unlimited, available_quantity}
use wish_operator.I18n.{FormatTime}
use wish_operator.Web.Html.{Piece, prepend_pieces, append_pieces}
use wish_operator.Web.Html.Result.{HasResult, prepend_pieces-HasResult, append_pieces-HasResult}
use wish_operator.Web.Card.Rendering.{wish_card-ends, wish_card-endless}
use wish_operator.Web.Content.{CardTimes, join_pieces, wish_cards, content_body, wish_content}

-- A limited wish of which the largest int32 is available.
unfoldable pub is_endless : Wish → Bool
is_endless w = not (is_unlimited w) && eqb_ℤ (available_quantity w) max_int32

-- The card of the wish ends within the fuel, by `wish_card-ends`.
abbrev pub CardEnds : ℕ → Wish → Type 0
CardEnds fuel w = (is_endless w ≡ false) × (pos_part (available_quantity w) < fuel)

not_endless :
    (w : Wish) → is_endless w ≡ false → (is_unlimited w ≡ true) ⊎ (available_quantity w ≢ max_int32)
unfolding is_endless
not_endless w h = elim (Bool-cases (is_unlimited w)) [
  | inl unlimited ↦ inl unlimited
  | inr limited ↦ inr (λ e. ground (arith, limited, e))
]

endless_parts :
    (w : Wish) → is_endless w ≡ true → (is_unlimited w ≡ false) × (available_quantity w ≡ max_int32)
unfolding is_endless
endless_parts w h = ground arith

join_pieces-HasResult :
    (o rest : Option (List Piece)) → HasResult o → HasResult rest → HasResult (join_pieces o rest)
unfolding join_pieces
join_pieces-HasResult none rest h k = h
join_pieces-HasResult (some ps) rest h k = prepend_pieces-HasResult ps rest k

join_pieces-none : (o : Option (List Piece)) → join_pieces o none ≡ none
unfolding join_pieces
join_pieces-none none = refl
join_pieces-none (some ps) = refl

module _ (fuel : ℕ) (format : FormatTime) (times : CardTimes) (lang : Str) where
  wish_cards-HasResult :
      (i : ℕ) (ws : List Wish)
      → All (CardEnds fuel) ws
      → HasResult (wish_cards fuel format times lang i ws)
  unfolding wish_cards
  wish_cards-HasResult i [] h = ([], refl)
  wish_cards-HasResult i (w ∷ ws) ((ends, enough), h) =
      join_pieces-HasResult _ _
        (wish_card-ends fuel w enough (not_endless w ends) format lang (times i).0 (times i).1)
        (wish_cards-HasResult (suc i) ws h)

  wish_cards-endless :
      (i : ℕ) {w : Wish} (ws : List Wish)
      → Memᴰ w ws
      → is_endless w ≡ true
      → wish_cards fuel format times lang i ws ≡ none
  unfolding wish_cards join_pieces
  wish_cards-endless i [] m h = elim m [ ]
  wish_cards-endless i (v ∷ ws) (Memᴰ.head e) h =
      let (limited, most) = endless_parts v (subst (λ x. is_endless x ≡ true) e h) in
      rw (wish_card-endless fuel format lang (times i).0 (times i).1 v limited most) refl
  wish_cards-endless i (v ∷ ws) (Memᴰ.tail m) h =
      rw (wish_cards-endless (suc i) ws m h) (join_pieces-none _)

  module _ (all_tags : List Str) (active_tag : Str) where
    pub wish_content-HasResult :
        (ws : List Wish)
        → All (CardEnds fuel) ws
        → HasResult (wish_content fuel format times ws all_tags active_tag lang)
    unfolding wish_content content_body
    wish_content-HasResult [] h = (_, refl)
    wish_content-HasResult (w ∷ ws) h =
        prepend_pieces-HasResult _ _
          (append_pieces-HasResult _ _ (wish_cards-HasResult 0 (w ∷ ws) h))

    pub wish_content-endless :
        {w : Wish} (ws : List Wish)
        → Memᴰ w ws
        → is_endless w ≡ true
        → wish_content fuel format times ws all_tags active_tag lang ≡ none
    unfolding wish_content content_body prepend_pieces append_pieces
    wish_content-endless [] m h = elim m [ ]
    wish_content-endless (v ∷ ws) m h = rw (wish_cards-endless 0 (v ∷ ws) m h) refl
