-- ===== src/Web/Card.antt =====
-- The card of a wish: internal/templates/wish_card_templ.go, which templ generates from wish_card.templ.
-- A card is the sequence of its writes: raw text, text that templ escapes, attribute values, links
-- and class lists.
-- The texts that package time makes of dates are a parameter.
pub mod Stars
pub mod Rendering
use wish_operator.Common.{
  ℕ, zero, suc, ◌+◌, ◌-◌, Bool, true, false, not, ◌||◌, ◌&&◌, ◌==◌, Option, none, some, List, [],
  ◌∷◌, ◌++◌, ℤ, pos, ◌+ℤ◌, ltb_ℤ, leb_ℤ, wrap32, pos_part, Str, str, is_empty, if◌then◌else◌,
  replicate, length,
}
use wish_operator.Wish.{
  Time, Reservation, Wish, is_unlimited, get_quantity, available_quantity, active_reservations,
  is_fully_reserved,
}
use wish_operator.I18n.{translate, weeks, FormatTime, format_date}
use wish_operator.Numbers.{decimal_ℤ, sprintf, decimal}
use wish_operator.Web.Html.{
  Piece, raw, escaped, attribute, link, classes, prepend_pieces, append_pieces,
}
use wish_operator.Web.CardForm.{reserve_block}

-- `stars`; 9733 and 9734 are the full and the empty star.
filled_stars : ℤ → ℕ
filled_stars priority =
    let low = if ltb_ℤ (pos 5) priority then pos 5 else priority in
    pos_part (if ltb_ℤ low (pos 0) then pos 0 else low)

unfoldable pub stars : ℤ → Str
unfolding filled_stars
stars priority =
    let filled = filled_stars priority in replicate filled 9733 ++ replicate (5 - filled) 9734

heading : Wish → List Piece
heading w =
    raw (str "<h2>")
      ∷ (if not (is_empty w.spec.official_url)
          then raw (str "<a href=\"")
            ∷ link w.spec.official_url
            ∷ raw (str "\" target=\"_blank\">")
            ∷ escaped w.spec.title
            ∷ raw (str "</a>")
            ∷ []
          else escaped w.spec.title ∷ [])
    ++ raw (str "</h2>") ∷ []

-- An element with an escaped text, unless the text is empty.
text_block : Str → Str → List Piece
text_block start s =
    if not (is_empty s) then raw start ∷ escaped s ∷ raw (str "</div>") ∷ [] else []

image : Wish → List Piece
image w =
    if not (is_empty w.spec.image_url)
    then raw (str "<img src=\"")
      ∷ attribute w.spec.image_url
      ∷ raw (str "\" alt=\"")
      ∷ attribute w.spec.title
      ∷ raw (str "\">")
      ∷ []
    else []

stars_block : Wish → List Piece
stars_block w =
    if ltb_ℤ (pos 0) w.spec.priority
    then raw (str "<div class=\"stars\">")
      ∷ escaped (stars w.spec.priority)
      ∷ raw (str "</div>")
      ∷ []
    else []

tag_pieces : Str → Str → List Str → List Piece
tag_pieces start end [] = []
tag_pieces start end (tag ∷ tags) = raw start ∷ escaped tag ∷ raw end ∷ tag_pieces start end tags

purchase_links : ℕ → List Str → List Piece
purchase_links i [] = []
purchase_links i (url ∷ urls) =
    raw (str "<a href=\"")
    ∷ link url
    ∷ raw (str "\" target=\"_blank\">")
    ∷ escaped (str "[" ++ decimal (i + 1) ++ str "]")
    ∷ raw (str "</a>")
    ∷ purchase_links (i + 1) urls

purchase_block : Str → List Str → List Piece
unfolding purchase_links
purchase_block lang [] = []
purchase_block lang (url ∷ urls) =
    raw (str "<div class=\"purchase-links\"><span>")
      ∷ escaped (translate lang (str "buy_label"))
      ∷ raw (str "</span> ")
      ∷ purchase_links 0 (url ∷ urls)
    ++ raw (str "</div>") ∷ []

quantity_info : Str → Wish → List Piece
quantity_info lang w =
    if is_unlimited w
    then raw (str "<div class=\"quantity-info unlimited\">")
      ∷ escaped (translate lang (str "unlimited_available"))
      ∷ raw (str "</div>")
      ∷ []
    else if ltb_ℤ (pos 1) (get_quantity w)
    then raw (str "<div class=\"quantity-info\">")
      ∷ escaped (
          translate lang (str "available_label")
          ++ sprintf (str " %d/%d") (available_quantity w ∷ get_quantity w ∷ []))
      ∷ raw (str "</div>")
      ∷ []
    else []

-- `fmt.Sprintf` with a number and a text, as `reserved_count` uses it: the text stands for `%s`.
fill_text : Str → Str → Str
fill_text date [] = []
fill_text date (c ∷ []) = c ∷ []
fill_text date (c ∷ d ∷ s) =
    let filled = date ++ fill_text date s in
    let plain = c ∷ fill_text date (d ∷ s) in if c == b'%' && d == b's' then filled else plain

reservation_items : FormatTime → Str → List Reservation → List Piece
unfolding fill_text
reservation_items format lang [] = []
reservation_items format lang (res ∷ rs) =
    raw (str "<div class=\"reservation-item\">")
    ∷ escaped (
        fill_text (format_date format lang res.expires_at)
          (sprintf (translate lang (str "reserved_count")) (res.quantity ∷ [])))
    ∷ raw (str "</div>")
    ∷ reservation_items format lang rs

-- The list of reservations; `ActiveReservations` is called, and the clock read, twice.
reservations_block : FormatTime → Str → Time → Time → Wish → List Piece
unfolding reservation_items
reservations_block format lang now later w =
    if ltb_ℤ (pos 0) (pos (length (active_reservations now w)))
    then raw (str "<div class=\"reservations-list\">")
        ∷ reservation_items format lang (active_reservations later w)
      ++ raw (str "</div>") ∷ []
    else []

-- Everything before the form.
card_head : FormatTime → Str → Time → Time → Wish → List Piece
unfolding heading text_block image stars_block tag_pieces purchase_block quantity_info
    reservations_block
card_head format lang now later w =
    (raw (str "<div id=\"")
      ∷ attribute (str "wish-" ++ w.name)
      ∷ raw (str "\" class=\"")
      ∷ classes (str "wish-card" ∷ (if is_fully_reserved w then str "fully-reserved" ∷ [] else []))
      ∷ raw (str "\">")
      ∷ [])
    ++ image w
    ++ heading w
    ++ text_block (str "<div class=\"price\">") w.spec.msrp
    ++ stars_block w
    ++ (raw (str "<div class=\"tags\">") ∷ [])
    ++ tag_pieces (str "<span class=\"tag\">") (str "</span> ") w.spec.tags
    ++ tag_pieces (str "<span class=\"tag context-tag\">") (str "</span>") w.spec.context_tags
    ++ (raw (str "</div>") ∷ [])
    ++ text_block (str "<div class=\"description\">") w.spec.description
    ++ purchase_block lang w.spec.purchase_urls
    ++ quantity_info lang w
    ++ reservations_block format lang now later w

-- The whole card.
unfoldable pub wish_card : ℕ → FormatTime → Str → Time → Time → Wish → Option (List Piece)
unfolding card_head prepend_pieces append_pieces
wish_card fuel format lang now later w =
    prepend_pieces (card_head format lang now later w)
      (append_pieces (reserve_block fuel lang w) (raw (str "</div>") ∷ []))
