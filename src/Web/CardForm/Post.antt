-- ===== src/Web/CardForm/Post.antt =====
-- Where the form of a card is posted to.
use wish_operator.Common.{
  ℕ, ◌≡◌, refl, sym, ap, ◌∙◌, arith, true, false, Option, [], ◌∷◌, ◌++◌, Str, str, split, is_empty,
  append_assoc,
}
use wish_operator.Http.{Values, value}
use wish_operator.I18n.{detect_language, is_supported}
use wish_operator.Url.{
  QueryUnescape, target_query, target_path, request_to, has_char, without_first,
}
use wish_operator.Url.Plain.{
  is_plain, is_unreserved, KeepsPlain, has_char-plain, has_char-append, split-at,
}
use wish_operator.Url.Query.{pair_text, target_query-one, target_path-at}
use wish_operator.Web.Server.{to_reserve, route}
use wish_operator.Web.FilterBar.Links.{detect_language-query}
use wish_operator.Web.CardForm.{post_link}

post_path : Str → Str
post_path name = str "/wishes/" ++ (name ++ str "/reserve")

post_link-parts :
    (name lang : Str) → post_link name lang ≡ post_path name ++ b'?' ∷ pair_text (str "lang") lang
unfolding post_link post_path
post_link-parts name lang =
    let query = pair_text (str "lang") lang in
    ap (λ t. str "/wishes/" ++ t)
      (append_assoc name (str "/reserve?lang=") lang
        ∙ sym (append_assoc name (str "/reserve") (b'?' ∷ query)))

post_path-plain :
    (c : ℕ) (name : Str)
    → is_plain name ≡ true
    → is_unreserved c ≡ false
    → has_char c (str "/wishes/") ≡ false
    → has_char c (str "/reserve") ≡ false
    → has_char c (post_path name) ≡ false
unfolding post_path
post_path-plain c name plain out first last = ground (
  arith,
  first,
  last,
  has_char-append c (str "/wishes/") (name ++ str "/reserve"),
  has_char-append c name (str "/reserve"),
  has_char-plain c name plain out,
)

module _ (u : QueryUnescape) (law : KeepsPlain u) (header : Values) (form : Option Values)
    (remote_addr : Str) (name lang : Str) (plain_name : is_plain name ≡ true)
    (plain_lang : is_plain lang ≡ true) (named : is_empty lang ≡ false)
    (supported : is_supported lang ≡ true) where
  -- For a name and a non-empty supported language of unreserved characters, the request that the
  -- form of a card posts is routed to `handleReserve` with the name of the wish, and answered in the
  -- language of the card.
  pub post_link-followed :
      let r = request_to u (str "POST") header form remote_addr (post_link name lang) in
      (route r.method r.path ≡ to_reserve name) × (detect_language r ≡ lang)
  unfolding value request_to route has_char without_first is_plain is_unreserved split post_path
  post_link-followed =
      let r = request_to u (str "POST") header form remote_addr (post_link name lang) in
      let query_text = pair_text (str "lang") lang in
      let no_mark = post_path-plain b'?' name plain_name refl refl refl in
      let no_hash = post_path-plain b'#' name plain_name refl refl refl in
      let segments : r.path ≡ str "wishes" ∷ split b'/' (name ++ str "/reserve") =
        ap target_path (post_link-parts name lang)
        ∙ target_path-at (post_path name) query_text no_mark no_hash in
      let path : r.path ≡ str "wishes" ∷ name ∷ str "reserve" ∷ [] =
        segments
        ∙ ap (λ ps. str "wishes" ∷ ps)
            (split-at b'/' name (str "reserve") (has_char-plain b'/' name plain_name refl)) in
      let query : r.query ≡ (str "lang", lang) ∷ [] =
        ap (target_query u) (post_link-parts name lang)
        ∙ target_query-one u law (post_path name) (str "lang") lang no_mark no_hash refl
            plain_lang in
      (
        ap (route (str "POST")) path,
        detect_language-query r lang (ap (value (str "lang")) query) named supported,
      )
