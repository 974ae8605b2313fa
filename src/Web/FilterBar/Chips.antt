-- ===== src/Web/FilterBar/Chips.antt =====
-- The active chip of the filter bar.
use mathlib.Core.List.{Nodup, Nodup-cons, Mem}
use wish_operator.Common.{
  ℕ, ◌+◌, ◌≡◌, ◌≢◌, refl, subst, ◌∙◌, Bool, true, false, ◌||◌, List, [], ◌∷◌, ◌++◌, Str, str, arith,
  ◌=s=◌, =s=_sound, is_empty, contains, if◌then◌else◌, Bool-cases, inl, inr,
}
use wish_operator.Web.Html.{Piece, raw, escaped, attribute, link, classes}
use wish_operator.Web.Listing.Tags.{mem_of_contains}
use wish_operator.Web.FilterBar.{
  chip_classes, all_chip, tag_chip, tag_chips, filter_bar, bar_label, bar_end,
}

is_active : Piece → Bool
is_active (raw s) = false
is_active (escaped s) = false
is_active (attribute s) = false
is_active (link s) = false
is_active (classes cs) = contains cs (str "active")

-- How many elements have the class `active`.
unfoldable pub count_active : List Piece → ℕ
unfolding is_active contains
count_active [] = 0
count_active (p ∷ ps) = (if is_active p then 1 else 0) + count_active ps

count_active-append :
    (ps qs : List Piece) → count_active (ps ++ qs) ≡ count_active ps + count_active qs
unfolding count_active
count_active-append [] qs = omega arith
count_active-append (p ∷ ps) qs = omega (arith, count_active-append ps qs)

occurs : Str → List Str → ℕ
occurs s [] = 0
occurs s (t ∷ ts) = (if s =s= t then 1 else 0) + occurs s ts

count_active-tag_chip :
    (active lang tag : Str)
    → count_active (tag_chip active lang tag) ≡ (if active =s= tag then 1 else 0)
unfolding count_active tag_chip chip_classes
count_active-tag_chip active lang tag = elim (Bool-cases (active =s= tag)) [
  | inl same ↦ rw same refl
  | inr other ↦ rw other refl
]

count_active-tag_chips :
    (active lang : Str) (tags : List Str)
    → count_active (tag_chips active lang tags) ≡ occurs active tags
unfolding count_active tag_chips occurs
count_active-tag_chips active lang [] = refl
count_active-tag_chips active lang (tag ∷ tags) = omega (
  arith,
  count_active-append (tag_chip active lang tag) (tag_chips active lang tags),
  count_active-tag_chip active lang tag,
  count_active-tag_chips active lang tags,
)

count_active-all_chip :
    (active lang : Str) → count_active (all_chip active lang) ≡ (if is_empty active then 1 else 0)
unfolding count_active all_chip chip_classes
count_active-all_chip [] lang = refl
count_active-all_chip (c ∷ active) lang = refl

=s=_sym : (s t : Str) → (s =s= t) ≡ (t =s= s)
=s=_sym [] [] = refl
=s=_sym [] (d ∷ t) = refl
=s=_sym (c ∷ s) [] = refl
=s=_sym (c ∷ s) (d ∷ t) = ground (arith, =s=_sym s t)

occurs-zero : (s : Str) (ts : List Str) → contains ts s ≡ false → occurs s ts ≡ 0
unfolding occurs contains
occurs-zero s [] h = refl
occurs-zero s (t ∷ ts) h = ground (arith, =s=_sym s t, occurs-zero s ts)

not-contains : (s t : Str) (ts : List Str) → ¬ Mem t ts → (s =s= t) ≡ true → contains ts s ≡ false
not-contains s t ts new same = elim (Bool-cases (contains ts s)) [
  | inl old ↦
      absurd
        (new (mem_of_contains ts t (subst (λ x. contains ts x ≡ true) (=s=_sound s t same) old)))
  | inr absent ↦ absent
]

occurs-one : (s : Str) (ts : List Str) → Nodup ts → contains ts s ≡ true → occurs s ts ≡ 1
unfolding occurs contains
occurs-one s [] n h = cc
occurs-one s (t ∷ ts) n h =
    let (new, rest) = Nodup-cons.0 n in
    elim (Bool-cases (s =s= t)) [
      | inl same ↦ rw same (omega (arith, occurs-zero s ts (not-contains s t ts new same)))
      | inr other ↦ rw other (omega (arith, occurs-one s ts rest (ground (arith, =s=_sym s t))))
    ]

count_active-bar :
    (active lang : Str) (tags : List Str)
    → count_active (bar_label lang ++ all_chip active lang ++ tag_chips active lang tags ++ bar_end)
      ≡ (if is_empty active then 1 else 0) + occurs active tags
unfolding bar_label bar_end count_active
count_active-bar active lang tags = omega (
  arith,
  count_active-append (bar_label lang ++ all_chip active lang ++ tag_chips active lang tags)
      bar_end,
  count_active-append (bar_label lang ++ all_chip active lang) (tag_chips active lang tags),
  count_active-append (bar_label lang) (all_chip active lang),
  count_active-all_chip active lang,
  count_active-tag_chips active lang tags,
)

occurs-offered :
    (active : Str) (tags : List Str)
    → Nodup tags
    → contains tags [] ≡ false
    → (if is_empty active then 1 else 0) + occurs active tags
      ≡ (if is_empty active || contains tags active then 1 else 0)
occurs-offered [] tags n h = omega (arith, occurs-zero [] tags h)
occurs-offered (c ∷ active) tags n h = elim (Bool-cases (contains tags (c ∷ active))) [
  | inl old ↦ rw old (omega (arith, occurs-one (c ∷ active) tags n old))
  | inr new ↦ rw new (omega (arith, occurs-zero (c ∷ active) tags new))
]

-- Whether the filter is one that the bar offers: none at all, or one of the tags.
unfoldable pub is_offered : List Str → Str → Bool
is_offered tags active = is_empty active || contains tags active

-- For a non-empty list of different, non-empty tags, the filter bar has exactly one active element
-- when the active tag is empty or one of the tags, and none otherwise.
count_active-filter_bar :
    (tags : List Str) (active lang : Str)
    → tags ≢ []
    → Nodup tags
    → contains tags [] ≡ false
    → count_active (filter_bar tags active lang) ≡ (if is_offered tags active then 1 else 0)
unfolding filter_bar is_offered
count_active-filter_bar [] active lang some_tag n h = absurd (some_tag refl)
count_active-filter_bar (t ∷ ts) active lang some_tag n h =
    count_active-bar active lang (t ∷ ts) ∙ occurs-offered active (t ∷ ts) n h
