-- ===== src/I18n/Translate.antt =====
-- What `T` returns for the keys that the server and the templates use.
use wish_operator.Common.{
  ◌≡◌, refl, ◌∙◌, ◌⊎◌, inl, inr, Bool, true, false, not, ◌&&◌, Option, none, some, List, [], ◌∷◌,
  arith, Str, str, ◌=s=◌, =s=_sound, contains,
}
use wish_operator.Http.{Request, value}
use wish_operator.I18n.Messages.{lang_en, lang_ru, lang_zh}
use wish_operator.I18n.{supported_langs, is_supported, look_in, or_else, translate, detect_language}
use wish_operator.I18n.Detect.{detect_language_query}

look_in_unlisted :
    (lang key : Str) → contains supported_langs lang ≡ false → look_in lang key ≡ none
unfolding look_in contains
look_in_unlisted lang key h = ground arith

or_else_same : (o : Option Str) (s : Str) → or_else o (or_else o s) ≡ or_else o s
unfolding or_else
or_else_same none s = refl
or_else_same (some m) s = refl

-- A language that is not spelled exactly as one of the three is answered in English.
pub translate_unlisted :
    (lang key : Str)
    → contains supported_langs lang ≡ false
    → translate lang key ≡ translate lang_en key
unfolding translate
translate_unlisted lang key h = rw (look_in_unlisted lang key h, or_else_same)

-- A query parameter that names a supported language in another case (as "RU") is accepted, and the
-- request is then answered in English, whatever the key.
pub mixed_case_answered_in_english :
    (r : Request) (key : Str)
    → is_supported (value (str "lang") r.query) ≡ true
    → contains supported_langs (value (str "lang") r.query) ≡ false
    → (detect_language r ≡ value (str "lang") r.query)
      × (translate (detect_language r) key ≡ translate lang_en key)
mixed_case_answered_in_english r key accepted other_case =
    let same = detect_language_query r accepted in
    (same, rw same (translate_unlisted (value (str "lang") r.query) key other_case))

-- The keys that the server and the templates pass to `T`.
abbrev pub used_keys : List Str
used_keys =
    str "page_title"
    ∷ str "filter_label"
    ∷ str "filter_all"
    ∷ str "empty_filtered"
    ∷ str "empty_default"
    ∷ str "buy_label"
    ∷ str "reserve_btn"
    ∷ str "week_one"
    ∷ str "available_label"
    ∷ str "unlimited_available"
    ∷ str "reserved_count"
    ∷ str "err_list_wishes"
    ∷ str "err_render"
    ∷ str "err_missing_name"
    ∷ str "err_invalid_form"
    ∷ str "err_weeks_range"
    ∷ str "err_not_found"
    ∷ str "err_get_wish"
    ∷ str "err_reserve_failed"
    ∷ str "err_rate_limit"
    ∷ str "err_invalid_quantity"
    ∷ str "err_fully_reserved"
    ∷ str "err_quantity_exceeds"
    ∷ str "weeks_format"
    ∷ []

-- Whether every key has a text other than itself.
pub has_texts : Str → List Str → Bool
has_texts lang [] = true
has_texts lang (key ∷ keys) = not (translate lang key =s= key) && has_texts lang keys

has_texts_listed :
    (has_texts lang_en used_keys ≡ true)
    × (has_texts lang_ru used_keys ≡ true)
    × (has_texts lang_zh used_keys ≡ true)
unfolding has_texts translate
has_texts_listed = (refl, refl, refl)

has_texts-congr :
    (l m : Str) (keys : List Str)
    → ((key : Str) → translate l key ≡ translate m key)
    → has_texts l keys ≡ has_texts m keys
unfolding has_texts
has_texts-congr l m [] h = refl
has_texts-congr l m (key ∷ keys) h = rw (h key, has_texts-congr l m keys h)

listed_cases :
    (lang : Str)
    → (lang_en ≡ lang)
      ⊎ (lang_ru ≡ lang)
      ⊎ (lang_zh ≡ lang)
      ⊎ (contains supported_langs lang ≡ false)
unfolding contains
listed_cases lang =
    ground (arith, =s=_sound lang_en lang, =s=_sound lang_ru lang, =s=_sound lang_zh lang)

-- In every language, also one that is not supported, each of these keys has a text: `T` does not fall
-- back to the key itself.
used_keys_have_texts : (lang : Str) → has_texts lang used_keys ≡ true
used_keys_have_texts lang = elim (listed_cases lang) [
  | inl e ↦ rw (← e) has_texts_listed.0
  | inr (inl e) ↦ rw (← e) has_texts_listed.1
  | inr (inr (inl e)) ↦ rw (← e) has_texts_listed.2
  | inr (inr (inr e)) ↦
      has_texts-congr lang lang_en used_keys (λ key. translate_unlisted lang key e)
      ∙ has_texts_listed.0
]
