-- ===== src/Web/CardForm/Offer.antt =====
-- The card's form against the handler's availability check.
use wish_operator.Common.{◌≡◌, ◌↔◌, true, arith, pos, Str}
use wish_operator.Wish.{Wish}
use wish_operator.Wish.Quantity.{available_range}
use wish_operator.Web.Reserve.{pass, check_available}
use wish_operator.Web.CardForm.{offers_form}

-- The card has the reserve form exactly when the handler's availability check would let a
-- reservation of one item of that wish through.
pub offers_form_iff :
    (lang : Str) (w : Wish) → (offers_form w ≡ true) ↔ (check_available lang w (pos 1) ≡ pass tt)
unfolding offers_form check_available
offers_form_iff lang w = ground (arith, available_range w)
