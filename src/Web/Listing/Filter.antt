-- ===== src/Web/Listing/Filter.antt =====
-- The wishes of a listing.
use mathlib.Core.List.{Pairwise}
use mathlib.Core.List.Pairwise
use wish_operator.Common.{
  ◌≡◌, ◌<ℤ◌, ◌⊎◌, contains, refl, eqb_ℤ, eqb_ℤ_iff, sym, ap, ◌∙◌, subst, Bool, false, ◌&&◌, ◌||◌,
  some, List, [], ◌∷◌, ◌++◌, append-nil, append_assoc, arith, Str, str_lt, is_empty, keep, Perm,
  if◌then◌else◌, Bool-cases, inl, inr,
}
use wish_operator.Wish.{Wish}
use wish_operator.Client.{Client}
use wish_operator.Sorting.{Sorter}
use wish_operator.Web.Listing.{
  wish_has_tag, Collected, collect_wish, collect_from, collect, shown_before, Listing, list_wishes,
  sorted_listing,
}

-- An active wish that has the tag of the filter among its tags and context tags, or any active wish
-- when there is no filter.
unfoldable pub shown : Str → Wish → Bool
shown filter_tag w =
    w.status.active
    && (is_empty filter_tag || contains (w.spec.tags ++ w.spec.context_tags) filter_tag)

-- In the order of a listing: a higher priority, or the same one and no later title.
abbrev pub InOrder : Wish → Wish → Type 0
InOrder a b =
    (b.spec.priority <ℤ a.spec.priority)
    ⊎ ((a.spec.priority ≡ b.spec.priority) × (str_lt b.spec.title a.spec.title ≡ false))

contains-append :
    (xs ys : List Str) (s : Str) → contains (xs ++ ys) s ≡ contains xs s || contains ys s
unfolding contains
contains-append [] ys s = refl
contains-append (x ∷ xs) ys s = ground (arith, contains-append xs ys s)

shown_before-InOrder : (a b : Wish) → shown_before b a ≡ false → InOrder a b
unfolding shown_before
shown_before-InOrder a b h = elim (Bool-cases (eqb_ℤ b.spec.priority a.spec.priority)) [
  | inl same ↦ inr ((eqb_ℤ_iff a.spec.priority b.spec.priority).0 (ground arith), ground arith)
  | inr different ↦ inl (ground arith)
]

collect_wish-wishes :
    (f : Str) (c : Collected) (w : Wish)
    → (collect_wish f c w).wishes ≡ (if shown f w then c.wishes ++ w ∷ [] else c.wishes)
unfolding collect_wish shown wish_has_tag
collect_wish-wishes f c w = ground (arith, contains-append w.spec.tags w.spec.context_tags f)

collect_from-wishes :
    (f : Str) (c : Collected) (ws : List Wish)
    → (collect_from f c ws).wishes ≡ c.wishes ++ keep (shown f) ws
unfolding collect_from
collect_from-wishes f c [] = sym (append-nil c.wishes)
collect_from-wishes f c (w ∷ ws) = elim (Bool-cases (shown f w)) [
  | inl on ↦ rw on (
      collect_from-wishes f (collect_wish f c w) ws
      ∙ ap (λ l. l ++ keep (shown f) ws)
          (collect_wish-wishes f c w ∙ ap (λ b. if b then c.wishes ++ w ∷ [] else c.wishes) on)
      ∙ append_assoc c.wishes (w ∷ []) (keep (shown f) ws))
  | inr off ↦ rw off (
      collect_from-wishes f (collect_wish f c w) ws
      ∙ ap (λ l. l ++ keep (shown f) ws)
          (collect_wish-wishes f c w ∙ ap (λ b. if b then c.wishes ++ w ∷ [] else c.wishes) off))
]

module _ (by_priority : Sorter shown_before) (by_text : Sorter str_lt) where
  -- When the wishes can be listed, the listing shows exactly the active wishes that have the tag
  -- of the filter (all the active wishes without a filter), each as often as it is stored, with
  -- higher priorities first and titles in order within a priority.
  pub list_wishes-wishes :
      (c : Client) (namespace : Str) (s : c.Store) (filter_tag : Str) (items : List Wish)
      → c.list s namespace ≡ some items
      → (l : Listing) × (list_wishes by_priority by_text c namespace s filter_tag ≡ some l)
        × Perm l.wishes (keep (shown filter_tag) items)
        × Pairwise InOrder l.wishes
  unfolding list_wishes sorted_listing collect
  list_wishes-wishes c namespace s filter_tag items h =
      let start : Collected = record { tag_set = []; wishes = [] } in
      (
        sorted_listing by_priority by_text (collect filter_tag items),
        rw h refl,
        subst (Perm _) (collect_from-wishes filter_tag start items) (by_priority.sort_perm _),
        Pairwise.imp (λ a b h. shown_before-InOrder a b h) (by_priority.sort_ordered _),
      )
