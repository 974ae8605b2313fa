-- ===== src/Tests/OfCard.antt =====
-- Tests of the card.
use wish_operator.Common.{◌≡◌, ◌↔◌, refl, true, false, [], pos, str, wrap32, ◌-ℤ◌, ◌+ℤ◌}
use wish_operator.Wish.{
  Wish, is_unlimited, available_quantity, max_int32, get_quantity, total_reserved,
}
use wish_operator.I18n.{FormatTime}
use wish_operator.Web.Reserve.{pass, check_available}
use wish_operator.Web.CardForm.{offers_form}
use wish_operator.Web.Card.{stars}
use wish_operator.Web.CardForm.Offer.{offers_form_iff}
use wish_operator.Tests.Samples.{three_keyboards, wish_of, status_of}

abbrev pub plain_dates : FormatTime
plain_dates date layout = layout

abbrev pub huge : Wish
huge = wish_of (pos 2147483647) (status_of [])

three_stars : stars (pos 3) ≡ str "★★★☆☆"
unfolding stars
three_stars = refl

offers_form_iff_example :
    (offers_form three_keyboards ≡ true)
    ↔ (check_available (str "en") three_keyboards (pos 1) ≡ pass tt)
offers_form_iff_example = offers_form_iff (str "en") three_keyboards

one_available : available_quantity three_keyboards ≡ pos 1
unfolding available_quantity is_unlimited get_quantity total_reserved wrap32 ◌-ℤ◌ ◌+ℤ◌
one_available = refl

huge_limited : is_unlimited huge ≡ false
unfolding is_unlimited
huge_limited = refl

huge_available : available_quantity huge ≡ max_int32
unfolding available_quantity is_unlimited get_quantity total_reserved wrap32 ◌-ℤ◌ ◌+ℤ◌
huge_available = refl
