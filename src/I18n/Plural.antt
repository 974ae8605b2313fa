-- ===== src/I18n/Plural.antt =====
-- The Russian plural of "week" against the plural rules of the language.
use wish_operator.Common.{
  ℕ, ◌%◌, ◌≡◌, ◌≢◌, not, ◌&&◌, arith, pos, Str, str, leb, ◌==◌, if◌then◌else◌,
}
use wish_operator.I18n.Messages.{lang_ru}
use wish_operator.I18n.{translate, weeks_russian, weeks}

pub data Category : Type 0 where
  one few many : Category

-- The cardinal rules of the Unicode CLDR for whole numbers.
unfoldable pub russian_category : ℕ → Category
russian_category n =
    if n % 10 == 1 && not (n % 100 == 11)
    then one
    else if (leb 2 (n % 10) && leb (n % 10) 4) && not (leb 12 (n % 100) && leb (n % 100) 14)
    then few
    else many

abbrev pub week_word : Category → Str
week_word one = translate lang_ru (str "week_one")
week_word few = translate lang_ru (str "weeks_few")
week_word many = translate lang_ru (str "weeks_many")

-- For every number of weeks but 1 the Russian word has the plural form that the rules of the language
-- ask for.
pub weeks-russian_category :
    (n : ℕ) → n ≢ 1 → weeks lang_ru (pos n) ≡ week_word (russian_category n)
unfolding weeks weeks_russian russian_category
weeks-russian_category n h = ground arith
