-- ===== src/Web/IndexPage/Rendering.antt =====
-- When the rendering of the pages of a listing ends.
use mathlib.Core.List.{Memᴰ, Mem, mem-cons_self, mem-cons_of_mem}
use mathlib.Core.Bool.{Bool-set}
use mathlib.Core.Logic.{∥∥₁_elim}
use native.Mathlib.Bridge.{le_prop}
use mathlib.Core.List.Perm
use wish_operator.Common.{
  ℕ, ◌≡◌, Bool, true, some, List, [], ◌∷◌, Str, str_lt, subst, keep, All, All-mem, Perm, Bool-cases,
  inl, inr,
}
use wish_operator.Wish.{Wish}
use wish_operator.Client.{Client}
use wish_operator.I18n.{FormatTime}
use wish_operator.Sorting.{Sorter}
use wish_operator.Web.Html.Result.{
  HasResult, prepend_pieces-HasResult, append_pieces-HasResult, prepend_pieces-HasResult_inv,
  append_pieces-HasResult_inv, has_none,
}
use wish_operator.Web.Listing.{shown_before, Listing, list_wishes}
use wish_operator.Web.Listing.Filter.{shown, list_wishes-wishes}
use wish_operator.Web.Content.{CardTimes, wish_content}
use wish_operator.Web.Content.Rendering.{
  CardEnds, is_endless, wish_content-HasResult, wish_content-endless,
}
use wish_operator.Web.IndexPage.{index_page, page_start, page_end}

CardEnds-prop : (fuel : ℕ) (w : Wish) → IsProp (CardEnds fuel w)
CardEnds-prop fuel w a b i = (Bool-set _ _ a.0 b.0 i, le_prop a.1 b.1 i)

All-keep_of :
    (P : Wish → Type 0) (p : Wish → Bool) (ws : List Wish)
    → All (λ w. p w ≡ true → P w) ws
    → All P (keep p ws)
All-keep_of P p [] h = tt
All-keep_of P p (w ∷ ws) (k, h) = elim (Bool-cases (p w)) [
  | inl on ↦ rw on (k on, All-keep_of P p ws h)
  | inr off ↦ rw off (All-keep_of P p ws h)
]

mem-keep :
    (p : Wish → Bool) {w : Wish} (ws : List Wish) → Memᴰ w ws → p w ≡ true → Memᴰ w (keep p ws)
mem-keep p [] m h = elim m [ ]
mem-keep p (v ∷ ws) (Memᴰ.head e) h = rw (subst (λ x. p x ≡ true) e h) (Memᴰ.head e)
mem-keep p (v ∷ ws) (Memᴰ.tail m) h = elim (Bool-cases (p v)) [
  | inl on ↦ rw on (Memᴰ.tail (mem-keep p ws m h))
  | inr off ↦ rw off (mem-keep p ws m h)
]

All-of_mem : {P : Wish → Type 0} (ws : List Wish) → ((w : Wish) → Mem w ws → P w) → All P ws
All-of_mem [] h = tt
All-of_mem (w ∷ ws) h = (h w mem-cons_self, All-of_mem ws (λ v m. h v (mem-cons_of_mem w m)))

-- A property that has at most one proof holds of all the items of a list in any order.
All-perm :
    (P : Wish → Type 0) {vs ws : List Wish}
    → ((w : Wish) → IsProp (P w))
    → Perm vs ws
    → All P ws
    → All P vs
All-perm P {vs} {ws} prop same h =
    All-of_mem vs (λ w m. ∥∥₁_elim ((Perm.mem_iff same).0 m) (prop w) (λ d. All-mem P ws h d))

index_page-content :
    (fuel : ℕ) (format : FormatTime) (times : CardTimes) (ws : List Wish) (tags : List Str)
    (filter_tag lang : Str)
    → HasResult (index_page fuel format times ws tags filter_tag lang)
    → HasResult (wish_content fuel format times ws tags filter_tag lang)
unfolding index_page
index_page-content fuel format times ws tags filter_tag lang h =
    append_pieces-HasResult_inv _ (page_end lang)
      (prepend_pieces-HasResult_inv (page_start lang) _ h)

module _ (fuel : ℕ) (format : FormatTime) (times : CardTimes) (lang : Str)
    (by_priority : Sorter shown_before) (by_text : Sorter str_lt) (c : Client) (namespace : Str)
    (s : c.Store) (filter_tag : Str) (items : List Wish)
    (listed : c.list s namespace ≡ some items) where
  -- When the client lists the wishes, and each of them that is to be shown is unlimited or has fewer
  -- than the largest int32 available, and the fuel exceeds what is available, then the listing is
  -- made and both its pages, the part that htmx fetches and the whole page, have a result.
  pub pages-HasResult :
      All (λ w. shown filter_tag w ≡ true → CardEnds fuel w) items
      → (l : Listing) × (list_wishes by_priority by_text c namespace s filter_tag ≡ some l)
        × HasResult (wish_content fuel format times l.wishes l.tags filter_tag lang)
        × HasResult (index_page fuel format times l.wishes l.tags filter_tag lang)
  unfolding index_page
  pages-HasResult ends =
      let (l, found, same, sorted) =
        list_wishes-wishes by_priority by_text c namespace s filter_tag items listed in
      let all =
        All-perm (CardEnds fuel) (CardEnds-prop fuel) same
          (All-keep_of (CardEnds fuel) (shown filter_tag) items ends) in
      let content = wish_content-HasResult fuel format times lang l.tags filter_tag l.wishes all in
      (
        l,
        found,
        content,
        prepend_pieces-HasResult (page_start lang) _
            (append_pieces-HasResult _ (page_end lang) content),
      )

  -- When the client lists the wishes and one that is to be shown is limited with the largest int32
  -- available, then the listing is made and neither of its pages has a result, whatever the fuel.
  pub pages-endless :
      (w : Wish)
      → Memᴰ w items
      → shown filter_tag w ≡ true
      → is_endless w ≡ true
      → (l : Listing) × (list_wishes by_priority by_text c namespace s filter_tag ≡ some l)
        × ¬ HasResult (wish_content fuel format times l.wishes l.tags filter_tag lang)
        × ¬ HasResult (index_page fuel format times l.wishes l.tags filter_tag lang)
  pages-endless w m on endless =
      let (l, found, same, sorted) =
        list_wishes-wishes by_priority by_text c namespace s filter_tag items listed in
      let no_content =
        λ (h : HasResult (wish_content fuel format times l.wishes l.tags filter_tag lang)).
          ∥∥₁_elim ((Perm.mem_iff same).1 ∣ mem-keep (shown filter_tag) items m on ∣₁) (hlevel)
            (λ d.
              has_none
                (wish_content-endless fuel format times lang l.tags filter_tag l.wishes d endless)
                h) in
      (
        l,
        found,
        no_content,
        λ h. no_content (index_page-content fuel format times l.wishes l.tags filter_tag lang h),
      )
