-- ===== src/Web/Listing.antt =====
-- `listWishes` of internal/web/server.go.
-- The two sorts are parameters with the contract of package sort. Go ranges over the map of tags in
-- any order; the model takes them in the reverse order of insertion, and the sort removes the difference.
pub mod Order
pub mod Tags
pub mod Filter
pub mod Page
use wish_operator.Common.{
  Bool, true, false, not, ◌||◌, Option, none, some, List, [], ◌∷◌, ◌++◌, ltb_ℤ, eqb_ℤ, Str, str_lt,
  is_empty, contains, if◌then◌else◌,
}
use wish_operator.Wish.{Wish}
use wish_operator.Client.{Client}
use wish_operator.Sorting.{Sorter}

unfoldable pub wish_has_tag : Wish → Str → Bool
wish_has_tag w tag = contains w.spec.tags tag || contains w.spec.context_tags tag

-- `tagSet[tag] = struct{}{}`
add_tag : List Str → Str → List Str
add_tag set tag = if contains set tag then set else tag ∷ set

add_tags : List Str → List Str → List Str
unfolding add_tag
add_tags set [] = set
add_tags set (tag ∷ tags) = add_tags (add_tag set tag) tags

-- What the loop has collected: the set of tags and the wishes to show.
pub record Collected : Type 0 where
  pub tag_set : List Str
  pub wishes : List Wish

-- One round of the loop.
collect_wish : Str → Collected → Wish → Collected
unfolding add_tags
collect_wish filter_tag c w =
    if not w.status.active
    then c
    else (let tags = add_tags (add_tags c.tag_set w.spec.tags) w.spec.context_tags in
        if (if not (is_empty filter_tag) then not (wish_has_tag w filter_tag) else false)
        then record c { tag_set = tags }
        else record { tag_set = tags; wishes = c.wishes ++ w ∷ [] })

collect_from : Str → Collected → List Wish → Collected
collect_from filter_tag c [] = c
collect_from filter_tag c (w ∷ ws) = collect_from filter_tag (collect_wish filter_tag c w) ws

unfoldable pub collect : Str → List Wish → Collected
unfolding collect_from collect_wish
collect filter_tag ws = collect_from filter_tag (record { tag_set = []; wishes = [] }) ws

-- The comparison of wishes: priority descending, then title.
unfoldable pub shown_before : Wish → Wish → Bool
shown_before a b =
    if not (eqb_ℤ a.spec.priority b.spec.priority)
    then ltb_ℤ b.spec.priority a.spec.priority
    else str_lt a.spec.title b.spec.title

pub record Listing : Type 0 where
  pub wishes : List Wish
  pub tags : List Str

module _ (by_priority : Sorter shown_before) (by_text : Sorter str_lt) where
  unfoldable pub sorted_listing : Collected → Listing
  sorted_listing c = record { wishes = by_priority.sort c.wishes; tags = by_text.sort c.tag_set }

  listing_of : Str → Option (List Wish) → Option Listing
  listing_of filter_tag none = none
  listing_of filter_tag (some items) = some (sorted_listing (collect filter_tag items))

  -- `none` is the error of the `List` call.
  unfoldable pub list_wishes : (c : Client) → Str → c.Store → Str → Option Listing
  unfolding listing_of sorted_listing
  list_wishes c namespace s filter_tag = listing_of filter_tag (c.list s namespace)
