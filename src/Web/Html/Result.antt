-- ===== src/Web/Html/Result.antt =====
-- Renderings that end.
use wish_operator.Common.{
  ◌≡◌, refl, Bool, true, false, Option, none, some, List, ◌++◌, if◌then◌else◌,
}
use wish_operator.Web.Html.{Piece, prepend_pieces, append_pieces}

-- The rendering ends.
abbrev pub HasResult : Option (List Piece) → Type 0
HasResult o = (ps : List Piece) × (o ≡ some ps)

pub if-HasResult :
    (b : Bool) (x y : Option (List Piece))
    → HasResult x
    → HasResult y
    → HasResult (if b then x else y)
if-HasResult true x y h k = h
if-HasResult false x y h k = k

pub prepend_pieces-HasResult :
    (ps : List Piece) (o : Option (List Piece)) → HasResult o → HasResult (prepend_pieces ps o)
unfolding prepend_pieces
prepend_pieces-HasResult ps o (qs, e) = (ps ++ qs, rw e refl)

pub append_pieces-HasResult :
    (o : Option (List Piece)) (qs : List Piece) → HasResult o → HasResult (append_pieces o qs)
unfolding append_pieces
append_pieces-HasResult o qs (ps, e) = (ps ++ qs, rw e refl)

pub prepend_pieces-HasResult_inv :
    (ps : List Piece) (o : Option (List Piece)) → HasResult (prepend_pieces ps o) → HasResult o
unfolding prepend_pieces
prepend_pieces-HasResult_inv ps none h = h
prepend_pieces-HasResult_inv ps (some qs) h = (qs, refl)

pub append_pieces-HasResult_inv :
    (o : Option (List Piece)) (qs : List Piece) → HasResult (append_pieces o qs) → HasResult o
unfolding append_pieces
append_pieces-HasResult_inv none qs h = h
append_pieces-HasResult_inv (some ps) qs h = (ps, refl)

pub has_none : {o : Option (List Piece)} → o ≡ none → HasResult o → ⊥
has_none e (ps, h) = cc
