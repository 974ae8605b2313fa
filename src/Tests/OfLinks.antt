-- ===== src/Tests/OfLinks.antt =====
-- Tests of the links of the pages.
use wish_operator.Common.{
  ◌≡◌, ◌≢◌, refl, arith, true, some, [], ◌∷◌, ◌++◌, map, split, cut_before, Str, str, ◌==◌, ap,
  if◌then◌else◌,
}
use mathlib.Core.List.{Pairwise}
use wish_operator.Common.{pos, Perm, keep}
use wish_operator.Http.{Values, value}
use wish_operator.I18n.{is_supported}
use wish_operator.Url.{QueryUnescape, request_to}
use wish_operator.Url.Plain.{is_unreserved, is_plain, KeepsPlain}
use wish_operator.Web.FilterBar.{fetch_link}
use wish_operator.Web.FilterBar.Links.{get_link, fetch_link-cut}
use wish_operator.Web.Listing.{Listing}
use wish_operator.Web.Listing.Filter.{shown, InOrder}
use wish_operator.Web.Limit.{allow_ip, allow_at, store_limiter, get_limiter, loaded, get_client_ip}
use wish_operator.Web.Server.{handler}
use wish_operator.Web.Server.Chips.{part_answer, handler-fetch_link}
use wish_operator.Tests.OfListing.{wish_sorter, text_sorter, shelf, shelf_client}
use wish_operator.Tests.OfServer.{spend, counter, split_at_colon, no_limiters, all_render}

-- `QueryUnescape` for texts without percent signs.
plus_as_space : QueryUnescape
plus_as_space s = some (map (λ c. if c == b'+' then b' ' else c) s)

plain_kept : (s : Str) → is_plain s ≡ true → map (λ c. if c == b'+' then b' ' else c) s ≡ s
unfolding is_plain is_unreserved
plain_kept [] h = refl
plain_kept (c ∷ s) h = ground (arith, plain_kept s)

plus_as_space-KeepsPlain : KeepsPlain plus_as_space
unfolding plus_as_space
plus_as_space-KeepsPlain s h = ap some (plain_kept s h)

kitchen_request :
    value (str "tag") (get_link plus_as_space [] [] (fetch_link (str "kitchen") (str "ru"))).query
    ≡ str "kitchen"
unfolding value request_to plus_as_space split cut_before fetch_link
kitchen_request = refl

fetch_link-cut_example :
    let r = get_link plus_as_space [] [] (fetch_link (str "R" ++ b'&' ∷ str "D") (str "en")) in
    (value (str "tag") r.query ≡ str "R") × (value (str "tag") r.query ≢ str "R" ++ b'&' ∷ str "D")
unfolding is_plain
fetch_link-cut_example =
    fetch_link-cut plus_as_space plus_as_space-KeepsPlain [] [] (str "R") (str "D") (str "en") refl

kitchen_link-admitted :
    (allow_ip
      (counter 1)
      (get_client_ip split_at_colon
        (get_link plus_as_space [] (str "192.0.2.1:80") (fetch_link (str "kitchen") (str "ru"))))
      (pos 600)
      no_limiters).1
    ≡ true
unfolding allow_ip get_limiter allow_at loaded spend store_limiter
kitchen_link-admitted = refl

handler-fetch_link_example :
    let r =
      get_link plus_as_space [] (str "192.0.2.1:80") (fetch_link (str "kitchen") (str "ru")) in
    let after =
      handler wish_sorter text_sorter all_render shelf_client
        (str "default")
        (counter 1)
        split_at_colon
        (pos 600)
        (pos 601)
        r
        (no_limiters, shelf) in
    (l : Listing) × (after.0.1 ≡ shelf)
    × (after.1
        ≡ part_answer wish_sorter text_sorter all_render shelf_client
            (str "default")
            (str "kitchen")
            (str "ru")
            l)
    × Perm l.wishes (keep (shown (str "kitchen")) shelf)
    × Pairwise InOrder l.wishes
unfolding is_plain is_supported
handler-fetch_link_example =
    handler-fetch_link wish_sorter text_sorter all_render shelf_client (str "default") plus_as_space
      plus_as_space-KeepsPlain [] (str "192.0.2.1:80") (str "kitchen") (str "ru") refl refl refl
      refl (counter 1) split_at_colon (pos 600) (pos 601) no_limiters shelf shelf
      kitchen_link-admitted refl

abbrev chosen : Values
chosen = (str "weeks", str "2") ∷ []
