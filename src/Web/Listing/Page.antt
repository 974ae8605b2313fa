-- ===== src/Web/Listing/Page.antt =====
-- `renderWishPage`, `handleIndex` and `handleWishes` of internal/web/server.go.
use wish_operator.Common.{Bool, true, false, Option, some, none, Str, str, str_lt, if◌then◌else◌}
use wish_operator.Http.{value, Request}
use wish_operator.I18n.{detect_language}
use wish_operator.Client.{Client}
use wish_operator.Sorting.{Sorter}
use wish_operator.Web.Reserve.{Component, Response, http_error, index, wish_content, html}
use wish_operator.Web.Listing.{shown_before, Listing, list_wishes}

module _ (by_priority : Sorter shown_before) (by_text : Sorter str_lt)
    (renders : Component → Bool) where
  page : Bool → Listing → Str → Str → Component
  page full_page l filter_tag lang =
      if full_page
      then index l.wishes l.tags filter_tag lang
      else wish_content l.wishes l.tags filter_tag lang

  -- The response after `listWishes`.
  unfoldable pub render_listing : Bool → Str → Str → Option Listing → Response
  unfolding page
  render_listing full_page filter_tag lang none = http_error 500 lang (str "err_list_wishes")
  render_listing full_page filter_tag lang (some l) =
      let component = page full_page l filter_tag lang in
      if renders component
      then record { status = 200; body = html component }
      else http_error 500 lang (str "err_render")

  unfoldable pub render_wish_page : (c : Client) → Str → Bool → Request → c.Store → Response
  unfolding render_listing
  render_wish_page c namespace full_page r s =
      let filter_tag = value (str "tag") r.query in
      render_listing full_page filter_tag (detect_language r)
        (list_wishes by_priority by_text c namespace s filter_tag)

  unfoldable pub handle_index : (c : Client) → Str → Request → c.Store → Response
  unfolding render_wish_page
  handle_index c namespace r s = render_wish_page c namespace true r s

  unfoldable pub handle_wishes : (c : Client) → Str → Request → c.Store → Response
  unfolding render_wish_page
  handle_wishes c namespace r s = render_wish_page c namespace false r s
