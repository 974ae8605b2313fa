-- ===== src/Tests/OfListing.antt =====
-- Tests of the listing.
use mathlib.Core.List.{Pairwise}
use wish_operator.Common.{
  ◌≡◌, ◌↔◌, refl, Bool, true, false, Option, some, none, List, [], ◌∷◌, ℤ, pos, Str, str, str_lt,
  Mem, Perm, keep, map, contains,
}
use wish_operator.Wish.{Wish}
use wish_operator.Client.{Client, failed}
use wish_operator.Sorting.{Sorter}
use wish_operator.Sorting.Insertion.{insertion_sorter, insertion_sort}
use wish_operator.Web.Listing.{
  shown_before, Listing, list_wishes, wish_has_tag, sorted_listing, collect,
}
use wish_operator.Web.Listing.Order.{shown_before-IsStrictWeak, str_lt-IsStrictWeak}
use wish_operator.Web.Listing.Tags.{offers, list_wishes-tags}
use wish_operator.Web.Listing.Filter.{shown, InOrder, list_wishes-wishes}
use wish_operator.Tests.Samples.{keyboard, status_of}

-- A wish with the given title, priority, tags and activity.
abbrev pub wish : Str → ℤ → List Str → Bool → Wish
wish title priority tags active =
    let w : Wish = record {
      namespace = str "default";
      name = title;
      resource_version = 1;
      creation_timestamp = pos 0;
      spec = record (keyboard (pos 1)) { title = title; priority = priority; tags = tags };
      status = record (status_of []) { active = active };
    } in
    w

abbrev pub shelf : List Wish
shelf =
    wish (str "tea") (pos 3) (str "kitchen" ∷ []) true
    ∷ wish (str "lamp") (pos 5) (str "home" ∷ []) true
    ∷ wish (str "rug") (pos 5) (str "attic" ∷ []) false
    ∷ wish (str "book") (pos 3) (str "home" ∷ str "kitchen" ∷ []) true
    ∷ []

abbrev pub shelf_client : Client
shelf_client = record {
  Store = List Wish;
  get = λ s key. failed;
  list = λ s namespace. some s;
  update_status = λ s w. (s, false);
}

abbrev pub wish_sorter : Sorter shown_before
wish_sorter = insertion_sorter shown_before shown_before-IsStrictWeak

abbrev pub text_sorter : Sorter str_lt
text_sorter = insertion_sorter str_lt str_lt-IsStrictWeak

titles : Option Listing → List Str
titles none = []
titles (some l) = map (λ w. w.spec.title) l.wishes

kitchen_titles :
    titles (list_wishes wish_sorter text_sorter shelf_client (str "default") shelf (str "kitchen"))
    ≡ str "book" ∷ str "tea" ∷ []
unfolding titles list_wishes insertion_sort shown_before collect wish_has_tag contains str_lt
    sorted_listing
kitchen_titles = refl

list_wishes-tags_example :
    (l : Listing) × (list_wishes wish_sorter text_sorter shelf_client
        (str "default")
        shelf
        (str "kitchen")
      ≡ some l)
    × ((tag : Str) → Mem tag l.tags ↔ (offers shelf tag ≡ true))
    × Pairwise (λ a b. str_lt a b ≡ true) l.tags
list_wishes-tags_example =
    list_wishes-tags wish_sorter text_sorter shelf_client (str "default") shelf (str "kitchen")
      shelf refl

list_wishes-wishes_example :
    (l : Listing) × (list_wishes wish_sorter text_sorter shelf_client
        (str "default")
        shelf
        (str "kitchen")
      ≡ some l)
    × Perm l.wishes (keep (shown (str "kitchen")) shelf)
    × Pairwise InOrder l.wishes
list_wishes-wishes_example =
    list_wishes-wishes wish_sorter text_sorter shelf_client (str "default") shelf (str "kitchen")
      shelf refl
