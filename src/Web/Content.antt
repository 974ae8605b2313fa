-- ===== src/Web/Content.antt =====
-- `WishContent` of internal/templates/wish_list_templ.go, generated from wish_list.templ.
pub mod Rendering
use wish_operator.Common.{
  ℕ, suc, ◌+◌, Bool, true, false, not, Option, none, some, List, [], ◌∷◌, ◌++◌, Str, str, is_empty,
  if◌then◌else◌,
}
use wish_operator.Wish.{Time, Wish}
use wish_operator.I18n.{translate, FormatTime}
use wish_operator.Web.Html.{Piece, raw, escaped, prepend_pieces, append_pieces}
use wish_operator.Web.FilterBar.{filter_bar}
use wish_operator.Web.Card.{wish_card}

-- The two readings of the clock that the card at a position makes.
abbrev pub CardTimes : Type 0
CardTimes = ℕ → Time × Time

-- The message in place of the cards.
empty_text : Str → Str → List Piece
empty_text active_tag lang =
    raw (str "<div class=\"empty\">")
      ∷ (if not (is_empty active_tag)
          then raw (str "<p>")
            ∷ escaped (translate lang (str "empty_filtered"))
            ∷ raw (str " \"")
            ∷ escaped active_tag
            ∷ raw (str "\".</p>")
            ∷ []
          else raw (str "<p>")
            ∷ escaped (translate lang (str "empty_default"))
            ∷ raw (str "</p>")
            ∷ [])
    ++ raw (str "</div>") ∷ []

join_pieces : Option (List Piece) → Option (List Piece) → Option (List Piece)
unfolding prepend_pieces
join_pieces none rest = none
join_pieces (some ps) rest = prepend_pieces ps rest

-- The cards of the wishes, the first of them at position `i`. Each card has `fuel`.
wish_cards : ℕ → FormatTime → CardTimes → Str → ℕ → List Wish → Option (List Piece)
unfolding join_pieces
wish_cards fuel format times lang i [] = some []
wish_cards fuel format times lang i (w ∷ ws) =
    join_pieces (wish_card fuel format lang (times i).0 (times i).1 w)
      (wish_cards fuel format times lang (suc i) ws)

content_body : ℕ → FormatTime → CardTimes → List Wish → Str → Str → Option (List Piece)
unfolding empty_text wish_cards
content_body fuel format times [] active_tag lang = some (empty_text active_tag lang)
content_body fuel format times (w ∷ ws) active_tag lang =
    wish_cards fuel format times lang 0 (w ∷ ws)

unfoldable pub wish_content :
    ℕ → FormatTime → CardTimes → List Wish → List Str → Str → Str → Option (List Piece)
unfolding content_body prepend_pieces append_pieces
wish_content fuel format times wishes all_tags active_tag lang =
    prepend_pieces
      (filter_bar all_tags active_tag lang ++ raw (str "<div id=\"wishes\" class=\"wishes\">") ∷ [])
      (append_pieces (content_body fuel format times wishes active_tag lang)
        (raw (str "</div>") ∷ []))
