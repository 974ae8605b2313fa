-- ===== src/I18n.antt =====
-- internal/i18n/i18n.go: the language of a request, and translation.
-- The formatting of dates by package time is a parameter of `format_date`.
pub mod Messages
pub mod Detect
pub mod Translate
pub mod Plural
use wish_operator.Wish.{Time}
use wish_operator.Common.{
  ℕ, zero, suc, ◌%◌, Bool, true, false, ◌&&◌, ◌||◌, Option, none, some, List, [], ◌∷◌, ℤ, pos,
  negsuc, eqb_ℤ, leb_ℤ, neg_ℕ, Str, str, ◌=s=◌, is_empty, contains, split, cut_before, trim_space,
  to_lower, lookup, if◌then◌else◌,
}
use wish_operator.Http.{Values, value, Request}
use wish_operator.I18n.Messages.{lang_en, lang_ru, lang_zh, messages}

abbrev pub default_lang : Str
default_lang = lang_en

abbrev pub supported_langs : List Str
supported_langs = lang_en ∷ lang_ru ∷ lang_zh ∷ []

unfoldable pub is_supported : Str → Bool
unfolding contains to_lower
is_supported lang = contains supported_langs (to_lower lang)

-- One part of the header without its quality value and its region.
unfoldable pub primary_tag : Str → Str
unfolding trim_space cut_before
primary_tag part = cut_before b'-' (cut_before b';' (trim_space part))

-- The loop of `parseAcceptLanguage`.
first_supported : List Str → Str
first_supported [] = []
first_supported (part ∷ parts) =
    let lang = primary_tag part in if is_supported lang then lang else first_supported parts

unfoldable pub parse_accept_language : Str → Str
unfolding first_supported split primary_tag is_supported
parse_accept_language header = first_supported (split b',' header)

-- The header, then the default.
from_header : Str → Str
unfolding parse_accept_language
from_header accept =
    if is_empty accept
    then default_lang
    else (let lang = parse_accept_language accept in if is_empty lang then default_lang else lang)

unfoldable pub detect_language : Request → Str
unfolding from_header value is_supported
detect_language r =
    let lang = value (str "lang") r.query in
    let header = from_header (value (str "Accept-Language") r.header) in
    if is_empty lang then header else if is_supported lang then lang else header

-- `messages[lang][key]`, where both are there.
look_in : Str → Str → Option Str
unfolding lookup messages
look_in lang key = elim (lookup lang messages) [ none ↦ none | some table ↦ lookup key table ]

or_else : Option Str → Str → Str
or_else none s = s
or_else (some m) s = m

-- `T`
unfoldable pub translate : Str → Str → Str
unfolding look_in or_else
translate lang key = or_else (look_in lang key) (or_else (look_in default_lang key) key)

abbrev is_one : ℤ → Bool
is_one n = eqb_ℤ n (pos 1)

unfoldable pub weeks_english : ℤ → Str
unfolding translate
weeks_english n = if is_one n then str "1 week" else translate lang_en (str "weeks_format")

-- Go's `%` takes the sign of the dividend.
rem : ℤ → ℕ → ℤ
rem (pos n) k = pos (n % k)
rem (negsuc n) k = neg_ℕ (suc n % k)

abbrev within : ℕ → ℕ → ℤ → Bool
within lo hi n = leb_ℤ (pos lo) n && leb_ℤ n (pos hi)

unfoldable pub weeks_russian : ℤ → Str
unfolding rem
weeks_russian n =
    if is_one n
    then str "1 неделя"
    else if within 11 14 (rem n 100)
    then translate lang_ru (str "weeks_many")
    else if is_one (rem n 10)
    then translate lang_ru (str "week_one")
    else if within 2 4 (rem n 10)
    then translate lang_ru (str "weeks_few")
    else translate lang_ru (str "weeks_many")

unfoldable pub weeks_chinese : ℤ → Str
unfolding translate
weeks_chinese n = translate lang_zh (str "weeks_format")

unfoldable pub weeks : Str → ℤ → Str
weeks lang n =
    if lang =s= lang_ru
    then weeks_russian n
    else if lang =s= lang_zh
    then weeks_chinese n
    else weeks_english n

-- `date.Format(layout)` of package time.
abbrev pub FormatTime : Type 0
FormatTime = Time → Str → Str

unfoldable pub format_date : FormatTime → Str → Time → Str
format_date format lang date =
    if lang =s= lang_ru
    then format date (str "02.01.2006")
    else if lang =s= lang_zh
    then format date (str "2006年01月02日")
    else format date (str "Jan 2, 2006")
