-- ===== src/Web/Listing/Tags.antt =====
-- The tags of a listing.
use mathlib.Core.List.{
  Pairwise, Nodup, Nodup-cons, Mem, mem-cons, not-mem-nil, mem-cons_self, mem-cons_of_mem,
}
use mathlib.Core.List.Perm
use mathlib.Core.List.Pairwise
use mathlib.Core.Logic.Or
use mathlib.Core.Bool.{Bool-set}
use wish_operator.Common.{
  ◌≡◌, ◌≢◌, ◌↔◌, refl, sym, subst, ap, ◌∙◌, inl, inr, Bool, true, false, ◌&&◌, ◌||◌, some, List, [],
  ◌∷◌, arith, Str, ◌=s=◌, =s=_sound, =s=_refl, str_lt, contains, Bool-cases, if◌then◌else◌,
}
use wish_operator.Wish.{Wish}
use wish_operator.Client.{Client}
use wish_operator.Sorting.{Sorter}
use wish_operator.Web.Listing.{
  wish_has_tag, add_tag, add_tags, Collected, collect_wish, collect_from, collect, shown_before,
  Listing, sorted_listing, list_wishes,
}
use wish_operator.Web.Listing.Order.{str_lt-total}

-- Some active wish has the tag.
unfoldable pub offers : List Wish → Str → Bool
offers [] tag = false
offers (w ∷ ws) tag = (w.status.active && wish_has_tag w tag) || offers ws tag

pub mem_of_contains : (ts : List Str) (tag : Str) → contains ts tag ≡ true → Mem tag ts
unfolding contains
mem_of_contains [] tag h = cc
mem_of_contains (t ∷ ts) tag h = elim (Bool-cases (t =s= tag)) [
  | inl same ↦ rw (=s=_sound t tag same) mem-cons_self
  | inr other ↦ mem-cons_of_mem t (mem_of_contains ts tag (ground arith))
]

pub contains_of_mem : (ts : List Str) (tag : Str) → Mem tag ts → contains ts tag ≡ true
unfolding contains
contains_of_mem [] tag m = absurd (not-mem-nil m)
contains_of_mem (t ∷ ts) tag m =
    Or.elim (Bool-set _ _) (mem-cons.0 m) (λ e. ground (arith, =s=_refl t, e))
      (λ k. ground (arith, contains_of_mem ts tag k))

contains-same :
    (set : List Str) (t tag : Str)
    → contains set t ≡ true
    → t =s= tag ≡ true
    → contains set tag ≡ true
contains-same set t tag old same = subst (λ u. contains set u ≡ true) (=s=_sound t tag same) old

contains-add_tag :
    (set : List Str) (t tag : Str) → contains (add_tag set t) tag ≡ contains set tag || t =s= tag
unfolding add_tag contains
contains-add_tag set t tag = elim (Bool-cases (contains set t)) [
  | inl old ↦ ground (arith, contains-same set t tag old)
  | inr new ↦ ground arith
]

contains-add_tags :
    (set tags : List Str) (tag : Str)
    → contains (add_tags set tags) tag ≡ contains set tag || contains tags tag
unfolding add_tags contains
contains-add_tags set [] tag = ground arith
contains-add_tags set (t ∷ tags) tag =
    ground (arith, contains-add_tags (add_tag set t) tags tag, contains-add_tag set t tag)

add_tag-Nodup : (set : List Str) (t : Str) → Nodup set → Nodup (add_tag set t)
unfolding add_tag
add_tag-Nodup set t h = elim (Bool-cases (contains set t)) [
  | inl old ↦ rw old h
  | inr new ↦ rw new (Nodup-cons.1 ((λ m. cc (new, contains_of_mem set t m)), h))
]

add_tags-Nodup : (set tags : List Str) → Nodup set → Nodup (add_tags set tags)
unfolding add_tags
add_tags-Nodup set [] h = h
add_tags-Nodup set (t ∷ tags) h = add_tags-Nodup (add_tag set t) tags (add_tag-Nodup set t h)

-- The set of tags without the filter.
tags_of : List Str → Wish → List Str
tags_of set w =
    if w.status.active then add_tags (add_tags set w.spec.tags) w.spec.context_tags else set

tags_from : List Str → List Wish → List Str
tags_from set [] = set
tags_from set (w ∷ ws) = tags_from (tags_of set w) ws

collect_wish-tags :
    (f : Str) (c : Collected) (w : Wish) → (collect_wish f c w).tag_set ≡ tags_of c.tag_set w
unfolding collect_wish tags_of
collect_wish-tags f c w = ground arith

collect_from-tags :
    (f : Str) (c : Collected) (ws : List Wish)
    → (collect_from f c ws).tag_set ≡ tags_from c.tag_set ws
unfolding collect_from tags_from
collect_from-tags f c [] = refl
collect_from-tags f c (w ∷ ws) =
    collect_from-tags f (collect_wish f c w) ws
    ∙ ap (λ set. tags_from set ws) (collect_wish-tags f c w)

contains-tags_of :
    (set : List Str) (w : Wish) (tag : Str)
    → contains (tags_of set w) tag ≡ contains set tag || (w.status.active && wish_has_tag w tag)
unfolding tags_of wish_has_tag
contains-tags_of set w tag = ground (
  arith,
  contains-add_tags (add_tags set w.spec.tags) w.spec.context_tags tag,
  contains-add_tags set w.spec.tags tag,
)

contains-tags_from :
    (set : List Str) (ws : List Wish) (tag : Str)
    → contains (tags_from set ws) tag ≡ contains set tag || offers ws tag
unfolding tags_from offers
contains-tags_from set [] tag = ground arith
contains-tags_from set (w ∷ ws) tag =
    ground (arith, contains-tags_from (tags_of set w) ws tag, contains-tags_of set w tag)

tags_of-Nodup : (set : List Str) (w : Wish) → Nodup set → Nodup (tags_of set w)
unfolding tags_of
tags_of-Nodup set w h = elim (Bool-cases w.status.active) [
  | inl on ↦ rw on (add_tags-Nodup _ w.spec.context_tags (add_tags-Nodup set w.spec.tags h))
  | inr off ↦ rw off h
]

tags_from-Nodup : (set : List Str) (ws : List Wish) → Nodup set → Nodup (tags_from set ws)
unfolding tags_from
tags_from-Nodup set [] h = h
tags_from-Nodup set (w ∷ ws) h = tags_from-Nodup (tags_of set w) ws (tags_of-Nodup set w h)

ascends : (s t : Str) → str_lt t s ≡ false → s ≢ t → str_lt s t ≡ true
ascends s t later other = elim (Bool-cases (str_lt s t)) [
  | inl before ↦ before
  | inr after ↦ absurd (other (str_lt-total s t after later))
]

module _ (by_priority : Sorter shown_before) (by_text : Sorter str_lt) where
  sorted_tags_iff :
      (items : List Wish) (filter_tag tag : Str)
      → Mem tag (by_text.sort (collect filter_tag items).tag_set) ↔ (offers items tag ≡ true)
  unfolding collect contains
  sorted_tags_iff items filter_tag tag =
      let set = tags_from [] items in
      let e = collect_from-tags filter_tag (record { tag_set = []; wishes = [] }) items in
      let holds = contains-tags_from [] items tag in
      let sorted = Perm.mem_iff {a = tag} (by_text.sort_perm set) in
      rw e (
        λ m. sym holds ∙ contains_of_mem set tag (sorted.0 m),
        λ h. sorted.1 (mem_of_contains set tag (holds ∙ h)),
      )

  sorted_tags-ascending :
      (items : List Wish) (filter_tag : Str)
      → Pairwise (λ s t. str_lt s t ≡ true) (by_text.sort (collect filter_tag items).tag_set)
  unfolding collect
  sorted_tags-ascending items filter_tag =
      let set = tags_from [] items in
      let e = collect_from-tags filter_tag (record { tag_set = []; wishes = [] }) items in
      rw e (
        Pairwise.imp₂ ascends (by_text.sort_ordered set)
          (Perm.nodup (Perm.symm (by_text.sort_perm set)) (tags_from-Nodup [] items Pairwise.nil)))

  -- When the wishes can be listed, the tags of the listing are exactly the tags of the active
  -- wishes, their context tags included, whatever tag the page is filtered by. They stand in
  -- strictly ascending order, so each appears once.
  pub list_wishes-tags :
      (c : Client) (namespace : Str) (s : c.Store) (filter_tag : Str) (items : List Wish)
      → c.list s namespace ≡ some items
      → (l : Listing) × (list_wishes by_priority by_text c namespace s filter_tag ≡ some l)
        × ((tag : Str) → Mem tag l.tags ↔ (offers items tag ≡ true))
        × Pairwise (λ a b. str_lt a b ≡ true) l.tags
  unfolding list_wishes sorted_listing
  list_wishes-tags c namespace s filter_tag items h = (
    sorted_listing by_priority by_text (collect filter_tag items),
    rw h refl,
    sorted_tags_iff items filter_tag,
    sorted_tags-ascending items filter_tag,
  )
