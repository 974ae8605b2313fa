-- ===== src/Web/Server/Chips.antt =====
-- From a chip of the filter bar through the whole handler to the wishes that are shown.
use mathlib.Core.List.{Pairwise}
use wish_operator.Common.{
  ◌≡◌, refl, ap, ◌∙◌, Bool, true, false, some, List, Str, str, str_lt, keep, Perm, is_empty,
  if◌then◌else◌,
}
use wish_operator.Wish.{Wish, Time}
use wish_operator.Client.{Client}
use wish_operator.Http.{value, Values, Request}
use wish_operator.I18n.{detect_language, is_supported}
use wish_operator.Sorting.{Sorter}
use wish_operator.Url.{QueryUnescape}
use wish_operator.Url.Plain.{is_plain, KeepsPlain}
use wish_operator.Web.Reserve.{Component, Response, http_error, wish_content, html}
use wish_operator.Web.Listing.{shown_before, Listing, list_wishes}
use wish_operator.Web.Listing.Filter.{shown, InOrder, list_wishes-wishes}
use wish_operator.Web.Listing.Page.{handle_wishes, render_wish_page, render_listing}
use wish_operator.Web.Limit.{RateLimiter, Limiters, SplitHostPort, get_client_ip, allow_ip}
use wish_operator.Web.Server.{dispatch, serve_mux, handler}
use wish_operator.Web.Server.Admitted.{handler-admitted}
use wish_operator.Web.FilterBar.{fetch_link}
use wish_operator.Web.FilterBar.Links.{get_link, fetch_link-followed}

module _ (by_priority : Sorter shown_before) (by_text : Sorter str_lt) (renders : Component → Bool)
    (c : Client) (namespace : Str) where
  -- The answer with a part of the page, or with an error when it cannot be rendered.
  unfoldable pub part_answer : Str → Str → Listing → Response
  part_answer tag lang l =
      let part = wish_content l.wishes l.tags tag lang in
      if renders part
      then record { status = 200; body = html part }
      else http_error 500 lang (str "err_render")

  handle_wishes-listed :
      (r : Request) (s : c.Store) (tag lang : Str) (l : Listing)
      → value (str "tag") r.query ≡ tag
      → detect_language r ≡ lang
      → list_wishes by_priority by_text c namespace s tag ≡ some l
      → handle_wishes by_priority by_text renders c namespace r s ≡ part_answer tag lang l
  unfolding handle_wishes render_wish_page render_listing part_answer
  handle_wishes-listed r s tag lang l asked answered listed = rw (asked, answered, listed) refl

  module _ (u : QueryUnescape) (law : KeepsPlain u) (header : Values) (remote_addr tag lang : Str)
      (plain : is_plain tag ≡ true) (plain_lang : is_plain lang ≡ true)
      (named : is_empty lang ≡ false) (supported : is_supported lang ≡ true) where
    -- When a browser follows the link of a chip, for a tag and a non-empty supported language of
    -- unreserved characters, the limiter admits it and the client lists the wishes, the whole handler
    -- answers with a part of the page, or 500 when that cannot be rendered, in the language of the link.
    -- The part shows exactly the active wishes with the tag of the chip among their tags or context
    -- tags, all the active wishes for an empty tag, none before one of higher priority or smaller
    -- title within a priority, and nothing is stored.
    pub handler-fetch_link :
        (limiter : RateLimiter) (split_host_port : SplitHostPort) (arrival now : Time)
        (m : Limiters limiter) (s : c.Store) (items : List Wish)
        → let r = get_link u header remote_addr (fetch_link tag lang) in
          let after =
            handler by_priority by_text renders c namespace limiter split_host_port arrival now r
              (m, s) in
          (allow_ip limiter (get_client_ip split_host_port r) arrival m).1 ≡ true
          → c.list s namespace ≡ some items
          → (l : Listing) × (after.0.1 ≡ s)
            × (after.1 ≡ part_answer tag lang l)
            × Perm l.wishes (keep (shown tag) items)
            × Pairwise InOrder l.wishes
    unfolding serve_mux dispatch
    handler-fetch_link limiter split_host_port arrival now m s items admitted listed =
        let r = get_link u header remote_addr (fetch_link tag lang) in
        let (to, asked, answered) =
          fetch_link-followed u law header remote_addr tag plain lang plain_lang named supported in
        let (l, found, same, sorted) =
          list_wishes-wishes by_priority by_text c namespace s tag items listed in
        let answer =
          handler-admitted by_priority by_text renders c namespace limiter split_host_port arrival
            now r m s admitted
          ∙ ap (λ w. dispatch by_priority by_text renders c namespace w now r s) to
          ∙ ap (λ a. (s, a)) (handle_wishes-listed r s tag lang l asked answered found) in
        (l, ap (λ p. p.0) answer, ap (λ p. p.1) answer, same, sorted)
