-- ===== src/I18n/Detect.antt =====
-- The language that a request is answered in.
use wish_operator.Common.{
  ◌≡◌, refl, ◌⊎◌, inl, inr, true, List, [], ◌∷◌, arith, Str, str, is_empty, split, Bool-cases,
}
use wish_operator.Http.{Request, value}
use wish_operator.I18n.{
  is_supported, primary_tag, first_supported, parse_accept_language, from_header, detect_language,
}

first_supported_lem :
    (parts : List Str)
    → (is_empty (first_supported parts) ≡ true) ⊎ (is_supported (first_supported parts) ≡ true)
unfolding first_supported
first_supported_lem [] = inl refl
first_supported_lem (part ∷ parts) = elim (Bool-cases (is_supported (primary_tag part))) [
  | inl yes_lang ↦ inr (rw (yes_lang, yes_lang))
  | inr no_lang ↦ rw no_lang (first_supported_lem parts)
]

from_header_lem : (accept : Str) → is_supported (from_header accept) ≡ true
unfolding from_header parse_accept_language is_supported
from_header_lem accept = ground (arith, first_supported_lem (split b',' accept))

-- Whatever the request holds, the language that is detected is, up to case, a supported one.
detect_language-supported : (r : Request) → is_supported (detect_language r) ≡ true
unfolding detect_language
detect_language-supported r =
    ground (arith, from_header_lem (value (str "Accept-Language") r.header))

-- A supported value of the query parameter, in any case, is returned as it was written.
pub detect_language_query :
    (r : Request)
    → is_supported (value (str "lang") r.query) ≡ true
    → detect_language r ≡ value (str "lang") r.query
unfolding detect_language
detect_language_query r h = elim (Bool-cases (is_empty (value (str "lang") r.query))) [
  | inl none_given ↦ absurd (unsupported_of_empty _ none_given h)
  | inr given ↦ rw (given, h)
]
  where
    unsupported_of_empty : (s : Str) → is_empty s ≡ true → is_supported s ≡ true → ⊥
    unsupported_of_empty [] e k = unfold is_supported in cc
    unsupported_of_empty (c ∷ s) e k = cc
