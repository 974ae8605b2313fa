-- ===== src/Web/FilterBar/Links.antt =====
-- Where the chips of the filter bar lead, and what the server reads there.
use wish_operator.Common.{
  ℕ, ◌≡◌, ◌≢◌, refl, sym, ap, ◌∙◌, true, false, none, [], ◌∷◌, ◌++◌, Str, str, arith, split,
  is_empty, append_assoc, length, length-append,
}
use wish_operator.Http.{Values, value, Request}
use wish_operator.I18n.{detect_language, is_supported}
use wish_operator.Url.{
  QueryUnescape, target_query, target_path, request_to, has_char, without_first,
}
use wish_operator.Url.Plain.{is_plain, KeepsPlain}
use wish_operator.Url.Query.{
  pair_text, target_query-first, target_query-one, target_query-two, target_path-at,
}
use wish_operator.Web.Server.{to_wishes, to_index, route}
use wish_operator.Web.FilterBar.{fetch_link, page_link}

-- A GET for a link, with any headers.
abbrev pub get_link : QueryUnescape → Values → Str → Str → Request
get_link u header remote_addr link = request_to u (str "GET") header none remote_addr link

fetch_link-parts :
    (tag lang : Str)
    → fetch_link tag lang
      ≡ str "/wishes" ++ b'?' ∷ (pair_text (str "tag") tag ++ b'&' ∷ pair_text (str "lang") lang)
unfolding fetch_link
fetch_link-parts tag lang = ap (λ t. str "/wishes?tag=" ++ t) (append_assoc tag (str "&lang=") lang)

-- A supported language in the query is the language of the answer.
pub detect_language-query :
    (r : Request) (lang : Str)
    → value (str "lang") r.query ≡ lang
    → is_empty lang ≡ false
    → is_supported lang ≡ true
    → detect_language r ≡ lang
unfolding detect_language
detect_language-query r lang asked named supported = rw (asked, named, supported) refl

module _ (u : QueryUnescape) (law : KeepsPlain u) (header : Values) (remote_addr tag : Str)
    (plain : is_plain tag ≡ true) where
  -- For a tag and a non-empty supported language of unreserved characters, the request for a chip's
  -- link is routed to `handleWishes`, has the chip's tag as its filter, and is answered in the
  -- language of the page.
  pub fetch_link-followed :
      (lang : Str)
      → is_plain lang ≡ true
      → is_empty lang ≡ false
      → is_supported lang ≡ true
      → let r = get_link u header remote_addr (fetch_link tag lang) in
        (route r.method r.path ≡ to_wishes)
        × (value (str "tag") r.query ≡ tag)
        × (detect_language r ≡ lang)
  unfolding value request_to route has_char without_first is_plain split
  fetch_link-followed lang plain_lang named supported =
      let r = get_link u header remote_addr (fetch_link tag lang) in
      let path : r.path ≡ str "wishes" ∷ [] =
        ap target_path (fetch_link-parts tag lang)
        ∙ target_path-at (str "/wishes")
            (pair_text (str "tag") tag ++ b'&' ∷ pair_text (str "lang") lang) refl refl in
      let query : r.query ≡ (str "tag", tag) ∷ (str "lang", lang) ∷ [] =
        ap (target_query u) (fetch_link-parts tag lang)
        ∙ target_query-two u law (str "/wishes") (str "tag") tag refl refl refl plain (str "lang")
            lang refl plain_lang in
      (
        ap (route (str "GET")) path,
        ap (value (str "tag")) query,
        detect_language-query r lang (ap (value (str "lang")) query) named supported,
      )

-- The address of a chip itself, which is also pushed to the history, leads to the page with the
-- chip's tag as filter, and names no language.
page_link-followed :
    (u : QueryUnescape)
    → KeepsPlain u
    → (header : Values) (remote_addr tag : Str) → is_plain tag ≡ true
    → let r = get_link u header remote_addr (page_link tag) in
      (route r.method r.path ≡ to_index)
      × (value (str "tag") r.query ≡ tag)
      × (value (str "lang") r.query ≡ [])
unfolding value request_to route has_char without_first is_plain split page_link
page_link-followed u law header remote_addr tag plain =
    let query = target_query-one u law (str "/") (str "tag") tag refl refl refl plain in
    (
      ap (route (str "GET")) (target_path-at (str "/") (pair_text (str "tag") tag) refl refl),
      ap (value (str "tag")) query,
      ap (value (str "lang")) query,
    )

append_longer : (s : Str) (c : ℕ) (t : Str) → s ≢ s ++ c ∷ t
append_longer s c t e = omega (arith, ap length e, length-append {A = ℕ} s (c ∷ t))

-- When a tag has an ampersand after unreserved characters, the request for its chip's link has only
-- these characters as its filter, and not the tag.
pub fetch_link-cut :
    (u : QueryUnescape)
    → KeepsPlain u
    → (header : Values) (remote_addr before after lang : Str) → is_plain before ≡ true
    → let r = get_link u header remote_addr (fetch_link (before ++ b'&' ∷ after) lang) in
      (value (str "tag") r.query ≡ before) × (value (str "tag") r.query ≢ before ++ b'&' ∷ after)
unfolding value request_to fetch_link has_char is_plain
fetch_link-cut u law header remote_addr before after lang plain =
    let rest = (after ++ str "&lang=") ++ lang in
    let link : fetch_link (before ++ b'&' ∷ after) lang
        ≡ str "/wishes" ++ b'?' ∷ (pair_text (str "tag") before ++ b'&' ∷ rest) =
      ap (λ t. str "/wishes?tag=" ++ t)
        (ap (λ t. t ++ lang) (append_assoc before (b'&' ∷ after) (str "&lang="))
          ∙ append_assoc before (b'&' ∷ (after ++ str "&lang=")) lang) in
    let query =
      ap (target_query u) link
      ∙ target_query-first u law (str "/wishes") (str "tag") before refl refl refl plain rest in
    let read = ap (value (str "tag")) query in
    (read, λ whole. append_longer before b'&' after (sym read ∙ whole))
