-- ===== src/Web/CardForm.antt =====
-- The reserve form of a card: the second half of WishCard in internal/templates/wish_card_templ.go.
-- The loop over the quantities runs on fuel; `none` says that it did not suffice.
pub mod Options
pub mod Offer
pub mod Post
pub mod Choice
pub mod Fields
pub mod Result
use wish_operator.Common.{
  ℕ, zero, suc, ◌+◌, ◌-◌, Bool, true, false, not, ◌||◌, ◌&&◌, ◌==◌, Option, none, some, List, [],
  ◌∷◌, ◌++◌, ℤ, pos, ◌+ℤ◌, ltb_ℤ, leb_ℤ, wrap32, pos_part, Str, str, is_empty, if◌then◌else◌,
  replicate, length,
}
use wish_operator.Wish.{
  Time, Reservation, Wish, is_unlimited, get_quantity, available_quantity, active_reservations,
  is_fully_reserved,
}
use wish_operator.I18n.{translate, weeks, FormatTime, format_date}
use wish_operator.Numbers.{decimal_ℤ, sprintf, decimal}
use wish_operator.Web.Html.{
  Piece, raw, escaped, attribute, link, classes, prepend_pieces, append_pieces,
}

unfoldable pub option_pieces : ℤ → List Piece
option_pieces i =
    raw (str "<option value=\"")
    ∷ attribute (decimal_ℤ i)
    ∷ raw (str "\">")
    ∷ escaped (decimal_ℤ i)
    ∷ raw (str "</option>")
    ∷ []

-- `for i := int32(1); i <= wish.AvailableQuantity(); i++`, from `i` on. The increment wraps around.
unfoldable pub quantity_options : ℕ → ℤ → ℤ → Option (List Piece)
unfolding prepend_pieces
quantity_options zero i available = none
quantity_options (suc fuel) i available =
    let rest = quantity_options fuel (wrap32 (i +ℤ pos 1)) available in
    if leb_ℤ i available then prepend_pieces (option_pieces i) rest else some []

unfoldable pub quantity_input : ℕ → Wish → Option (List Piece)
unfolding append_pieces prepend_pieces
quantity_input fuel w =
    let options = quantity_options fuel (pos 1) (available_quantity w) in
    if is_unlimited w
    then some (
        raw (str " <input type=\"number\" name=\"quantity\" value=\"1\" min=\"1\" required> ") ∷ [])
    else if ltb_ℤ (pos 1) (available_quantity w)
    then prepend_pieces (raw (str " <select name=\"quantity\" required>") ∷ [])
        (append_pieces options (raw (str "</select> ") ∷ []))
    else some []

week_text : Str → ℕ → Piece
week_text lang n = escaped (decimal n ++ str " " ++ weeks lang (pos n))

unfoldable pub weeks_select : Str → List Piece
unfolding week_text
weeks_select lang =
    raw (str "<select name=\"weeks\" required><option value=\"1\">")
    ∷ escaped (str "1 " ++ translate lang (str "week_one"))
    ∷ raw (str "</option> <option value=\"2\">")
    ∷ week_text lang 2
    ∷ raw (str "</option> <option value=\"3\">")
    ∷ week_text lang 3
    ∷ raw (str "</option> <option value=\"4\" selected>")
    ∷ week_text lang 4
    ∷ raw (str "</option> <option value=\"5\">")
    ∷ week_text lang 5
    ∷ raw (str "</option> <option value=\"6\">")
    ∷ week_text lang 6
    ∷ raw (str "</option> <option value=\"7\">")
    ∷ week_text lang 7
    ∷ raw (str "</option> <option value=\"8\">")
    ∷ week_text lang 8
    ∷ raw (str "</option></select> <button type=\"submit\">")
    ∷ escaped (translate lang (str "reserve_btn"))
    ∷ raw (str "</button></form>")
    ∷ []

-- Where the form is posted to.
unfoldable pub post_link : Str → Str → Str
post_link name lang = str "/wishes/" ++ name ++ str "/reserve?lang=" ++ lang

-- The start tag of the form.
form_start : Str → Wish → List Piece
form_start lang w =
    raw (str "<form class=\"reserve-form\" hx-post=\"")
    ∷ attribute (post_link w.name lang)
    ∷ raw (str "\" hx-target=\"")
    ∷ attribute (str "#wish-" ++ w.name)
    ∷ raw (str "\" hx-swap=\"outerHTML\">")
    ∷ []

badge : Str → List Piece
badge lang =
    raw (str "<div class=\"fully-reserved-badge\">")
    ∷ escaped (translate lang (str "err_fully_reserved"))
    ∷ raw (str "</div>")
    ∷ []

-- Whether the card has the form.
unfoldable pub offers_form : Wish → Bool
offers_form w = is_unlimited w || ltb_ℤ (pos 0) (available_quantity w)

-- The form, or the badge of a fully reserved wish.
unfoldable pub reserve_block : ℕ → Str → Wish → Option (List Piece)
unfolding quantity_input prepend_pieces append_pieces form_start weeks_select offers_form badge
reserve_block fuel lang w =
    if offers_form w
    then prepend_pieces (form_start lang w)
        (append_pieces (quantity_input fuel w) (weeks_select lang))
    else some (badge lang)
