-- ===== src/Tests/OfI18n.antt =====
-- Tests of the language of a request and of the translations.
use wish_operator.Common.{◌≡◌, refl, arith, pos, str, contains}
use wish_operator.Http.{value}
use wish_operator.I18n.Messages.{lang_en, lang_ru}
use wish_operator.I18n.{
  is_supported, parse_accept_language, detect_language, translate, weeks, weeks_russian,
}
use wish_operator.I18n.Translate.{mixed_case_answered_in_english}
use wish_operator.I18n.Plural.{week_word, russian_category, weeks-russian_category}
use wish_operator.Tests.Samples.{reserve_request}

header_parsed : parse_accept_language (str "fr, zh-CN;q=0.7") ≡ str "zh"
unfolding parse_accept_language
header_parsed = refl

russian_weeks : weeks lang_ru (pos 22) ≡ str "недели"
unfolding weeks weeks_russian translate
russian_weeks = refl

-- "weeks_few" has no English text.
no_english_few : translate lang_en (str "weeks_few") ≡ str "weeks_few"
unfolding translate
no_english_few = refl

mixed_case_answered_in_english_example :
    (detect_language reserve_request ≡ str "RU")
    × (translate (detect_language reserve_request) (str "err_not_found")
        ≡ translate lang_en (str "err_not_found"))
unfolding value is_supported contains
mixed_case_answered_in_english_example =
    mixed_case_answered_in_english reserve_request (str "err_not_found") refl refl

weeks-russian_category_example : weeks lang_ru (pos 22) ≡ week_word (russian_category 22)
weeks-russian_category_example = weeks-russian_category 22 (omega arith)
