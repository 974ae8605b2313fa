-- ===== src/Web/FilterBar.antt =====
-- `FilterBar` of internal/templates/index_templ.go, generated from index.templ.
pub mod Links
pub mod Chips
use wish_operator.Common.{
  Bool, true, false, List, [], ◌∷◌, ◌++◌, Str, str, ◌=s=◌, is_empty, if◌then◌else◌,
}
use wish_operator.I18n.{translate}
use wish_operator.Web.Html.{Piece, raw, escaped, attribute, link, classes}

-- `{ "filter-chip", templ.KV("active", active) }`
chip_classes : Bool → Piece
chip_classes active = classes (str "filter-chip" ∷ (if active then str "active" ∷ [] else []))

-- The addresses of a chip: the page, and the part of it that htmx fetches.
unfoldable pub page_link : Str → Str
page_link tag = str "/?tag=" ++ tag

unfoldable pub fetch_link : Str → Str → Str
fetch_link tag lang = str "/wishes?tag=" ++ tag ++ str "&lang=" ++ lang

all_chip : Str → Str → List Piece
unfolding chip_classes
all_chip active_tag lang =
    raw (str "<a href=\"/\" class=\"")
    ∷ chip_classes (is_empty active_tag)
    ∷ raw (str "\" hx-get=\"")
    ∷ attribute (str "/wishes?lang=" ++ lang)
    ∷ raw (str "\" hx-target=\"#wish-content\" hx-swap=\"innerHTML\" hx-push-url=\"/\">")
    ∷ escaped (translate lang (str "filter_all"))
    ∷ raw (str "</a> ")
    ∷ []

tag_chip : Str → Str → Str → List Piece
unfolding chip_classes
tag_chip active_tag lang tag =
    raw (str "<a href=\"")
    ∷ link (page_link tag)
    ∷ raw (str "\" class=\"")
    ∷ chip_classes (active_tag =s= tag)
    ∷ raw (str "\" hx-get=\"")
    ∷ attribute (fetch_link tag lang)
    ∷ raw (str "\" hx-target=\"#wish-content\" hx-swap=\"innerHTML\" hx-push-url=\"")
    ∷ attribute (page_link tag)
    ∷ raw (str "\">")
    ∷ escaped tag
    ∷ raw (str "</a>")
    ∷ []

tag_chips : Str → Str → List Str → List Piece
unfolding tag_chip
tag_chips active_tag lang [] = []
tag_chips active_tag lang (tag ∷ tags) =
    tag_chip active_tag lang tag ++ tag_chips active_tag lang tags

bar_label : Str → List Piece
bar_label lang =
    raw (str "<div class=\"filter-bar\" id=\"filter-bar\"><span class=\"filter-label\">")
    ∷ escaped (translate lang (str "filter_label"))
    ∷ raw (str "</span> ")
    ∷ []

bar_end : List Piece
bar_end = raw (str "</div>") ∷ []

unfoldable pub filter_bar : List Str → Str → Str → List Piece
unfolding all_chip tag_chips bar_label bar_end
filter_bar [] active_tag lang = []
filter_bar (tag ∷ tags) active_tag lang =
    bar_label lang ++ all_chip active_tag lang ++ tag_chips active_tag lang (tag ∷ tags) ++ bar_end
