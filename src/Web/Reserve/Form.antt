-- ===== src/Web/Reserve/Form.antt =====
-- The choices of the card's form (internal/templates/wish_card.templ) against the handler's checks.
use wish_operator.Common.{List}
use wish_operator.Wish.{Wish}
