-- ===== src/Tests/OfPages.antt =====
-- Tests of the pages of a listing.
use mathlib.Core.List.{Memᴰ}
use wish_operator.Common.{
  ◌≡◌, refl, arith, true, some, List, [], ◌∷◌, pos, Str, str, ◌-ℤ◌, ◌+ℤ◌, wrap32, contains,
}
use wish_operator.Wish.{is_unlimited, available_quantity, get_quantity, total_reserved}
use wish_operator.Web.Html.Result.{HasResult}
use wish_operator.Web.Listing.{Listing, list_wishes}
use wish_operator.Web.Listing.Filter.{shown}
use wish_operator.Web.FilterBar.{filter_bar}
use wish_operator.Web.FilterBar.Chips.{count_active}
use wish_operator.Web.Content.{CardTimes, wish_content}
use wish_operator.Web.Content.Rendering.{is_endless, CardEnds}
use wish_operator.Web.IndexPage.{index_page}
use wish_operator.Web.IndexPage.Rendering.{pages-HasResult, pages-endless}
use wish_operator.Tests.Samples.{three_keyboards, one_wish}
use wish_operator.Tests.OfListing.{wish_sorter, text_sorter, shelf_client}
use wish_operator.Tests.OfCard.{plain_dates, huge}

abbrev at_600 : CardTimes
at_600 i = (pos 600, pos 600)

abbrev tags : List Str
tags = str "home" ∷ str "office" ∷ []

office_active : count_active (filter_bar tags (str "office") (str "en")) ≡ 1
unfolding count_active filter_bar contains
office_active = refl

keyboard_ends : CardEnds 5 three_keyboards
unfolding is_endless available_quantity is_unlimited get_quantity total_reserved wrap32 ◌-ℤ◌ ◌+ℤ◌
keyboard_ends = (refl, omega arith)

pages-HasResult_example :
    (l : Listing) × (list_wishes wish_sorter text_sorter
        (one_wish true)
        (str "default")
        three_keyboards
        []
      ≡ some l)
    × HasResult (wish_content 5 plain_dates at_600 l.wishes l.tags [] (str "en"))
    × HasResult (index_page 5 plain_dates at_600 l.wishes l.tags [] (str "en"))
pages-HasResult_example =
    pages-HasResult 5 plain_dates at_600 (str "en") wish_sorter text_sorter (one_wish true)
      (str "default") three_keyboards [] (three_keyboards ∷ []) refl ((λ on. keyboard_ends), tt)

huge-shown : shown [] huge ≡ true
unfolding shown
huge-shown = refl

huge_endless : is_endless huge ≡ true
unfolding is_endless available_quantity is_unlimited get_quantity total_reserved wrap32 ◌-ℤ◌ ◌+ℤ◌
huge_endless = refl

pages-endless_example :
    (l : Listing) × (list_wishes wish_sorter text_sorter shelf_client
        (str "default")
        (three_keyboards ∷ huge ∷ [])
        []
      ≡ some l)
    × ¬ HasResult (wish_content 1000 plain_dates at_600 l.wishes l.tags [] (str "en"))
    × ¬ HasResult (index_page 1000 plain_dates at_600 l.wishes l.tags [] (str "en"))
pages-endless_example =
    pages-endless 1000 plain_dates at_600 (str "en") wish_sorter text_sorter shelf_client
      (str "default") (three_keyboards ∷ huge ∷ []) [] (three_keyboards ∷ huge ∷ []) refl huge
      (Memᴰ.tail (Memᴰ.head refl)) huge-shown huge_endless
