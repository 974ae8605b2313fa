-- ===== src/Web/Server/Form.antt =====
-- From the form of a card through the whole handler to the reservation.
use wish_operator.Common.{List}
use wish_operator.Wish.{Wish}
use wish_operator.Client.{Client}
