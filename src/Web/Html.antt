-- ===== src/Web/Html.antt =====
-- What a component of the templates renders: a sequence of writes to a buffer of the templ library.
pub mod Result
use wish_operator.Common.{Option, none, some, List, [], ◌∷◌, ◌++◌, Str}

-- One write: raw text, text that templ escapes, the value of an attribute, a link, or a class list.
pub data Piece : Type 0 where
  raw : Str → Piece
  escaped : Str → Piece
  attribute : Str → Piece
  link : Str → Piece
  classes : List Str → Piece

-- `none` is a rendering that has not ended.
unfoldable pub prepend_pieces : List Piece → Option (List Piece) → Option (List Piece)
prepend_pieces ps none = none
prepend_pieces ps (some qs) = some (ps ++ qs)

unfoldable pub append_pieces : Option (List Piece) → List Piece → Option (List Piece)
append_pieces none qs = none
append_pieces (some ps) qs = some (ps ++ qs)
