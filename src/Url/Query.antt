-- ===== src/Url/Query.antt =====
-- The pairs of a query of plain keys and values.
use wish_operator.Common.{
  ℕ, ◌==◌, ◌≡◌, refl, ap, ◌∙◌, true, false, List, [], ◌∷◌, ◌++◌, Str, arith, split, cut_before,
  is_empty,
}
use wish_operator.Url.{
  QueryUnescape, cut_after, has_char, target_query, target_path, read_parts, read_pair,
  without_first,
}
use wish_operator.Url.Plain.{
  is_unreserved, is_plain, KeepsPlain, has_char-plain, has_char-append, cut_before-whole,
  cut_before-append, cut_before-at, cut_after-at, split-whole, split-at,
}

-- A plain key, a plain value, and the text `key=value`.
abbrev pub pair_text : Str → Str → Str
pair_text key v = key ++ b'=' ∷ v

pub has_char-pair_text :
    (c : ℕ) (key v : Str)
    → is_plain key ≡ true
    → is_plain v ≡ true
    → is_unreserved c ≡ false
    → (b'=' == c) ≡ false
    → has_char c (pair_text key v) ≡ false
unfolding has_char
has_char-pair_text c key v hk hv out other = ground (
  arith,
  has_char-append c key (b'=' ∷ v),
  has_char-plain c key hk out,
  has_char-plain c v hv out,
)

is_empty-pair_text : (key v : Str) → is_empty (pair_text key v) ≡ false
is_empty-pair_text [] v = refl
is_empty-pair_text (c ∷ key) v = refl

module _ (u : QueryUnescape) (law : KeepsPlain u) (key v : Str) (hk : is_plain key ≡ true)
    (hv : is_plain v ≡ true) where
  read_parts-pair :
      (parts : List Str) → read_parts u (pair_text key v ∷ parts) ≡ (key, v) ∷ read_parts u parts
  unfolding read_parts read_pair is_unreserved
  read_parts-pair parts =
      rw
        (
          has_char-pair_text b';' key v hk hv refl refl,
          is_empty-pair_text key v,
          cut_before-at b'=' key v (has_char-plain b'=' key hk refl),
          cut_after-at b'=' key v (has_char-plain b'=' key hk refl),
          law key hk,
          law v hv,
        )
        refl

-- What a target asks for after its question mark.
target_query-at :
    (u : QueryUnescape) (path query : Str)
    → has_char b'?' path ≡ false
    → has_char b'#' path ≡ false
    → target_query u (path ++ b'?' ∷ query) ≡ read_parts u (split b'&' (cut_before b'#' query))
unfolding target_query cut_before
target_query-at u path query hp hf =
    ap (λ t. read_parts u (split b'&' (cut_after b'?' t)))
      (cut_before-append b'#' path (b'?' ∷ query) hf)
    ∙ ap (λ t. read_parts u (split b'&' t)) (cut_after-at b'?' path (cut_before b'#' query) hp)

module _ (u : QueryUnescape) (law : KeepsPlain u) (path key v : Str)
    (hp : has_char b'?' path ≡ false) (hf : has_char b'#' path ≡ false) (hk : is_plain key ≡ true)
    (hv : is_plain v ≡ true) where
  -- The first pair of a query, whatever follows it.
  pub target_query-first :
      (rest : Str)
      → target_query u (path ++ b'?' ∷ (pair_text key v ++ b'&' ∷ rest))
        ≡ (key, v) ∷ read_parts u (split b'&' (cut_before b'#' rest))
  unfolding cut_before is_unreserved
  target_query-first rest =
      target_query-at u path (pair_text key v ++ b'&' ∷ rest) hp hf
      ∙ ap (λ t. read_parts u (split b'&' t))
          (cut_before-append b'#' (pair_text key v) (b'&' ∷ rest)
            (has_char-pair_text b'#' key v hk hv refl refl))
      ∙ ap (read_parts u) (
          split-at b'&' (pair_text key v) (cut_before b'#' rest)
            (has_char-pair_text b'&' key v hk hv refl refl))
      ∙ read_parts-pair u law key v hk hv (split b'&' (cut_before b'#' rest))

  pub target_query-one : target_query u (path ++ b'?' ∷ pair_text key v) ≡ (key, v) ∷ []
  unfolding read_parts is_unreserved
  target_query-one =
      target_query-at u path (pair_text key v) hp hf
      ∙ ap (λ t. read_parts u (split b'&' t))
          (cut_before-whole b'#' (pair_text key v) (has_char-pair_text b'#' key v hk hv refl refl))
      ∙ ap (read_parts u)
          (split-whole b'&' (pair_text key v) (has_char-pair_text b'&' key v hk hv refl refl))
      ∙ read_parts-pair u law key v hk hv []

  pub target_query-two :
      (key' v' : Str)
      → is_plain key' ≡ true
      → is_plain v' ≡ true
      → target_query u (path ++ b'?' ∷ (pair_text key v ++ b'&' ∷ pair_text key' v'))
        ≡ (key, v) ∷ (key', v') ∷ []
  unfolding read_parts is_unreserved
  target_query-two key' v' hk' hv' =
      let second = pair_text key' v' in
      target_query-first second
      ∙ ap (λ t. (key, v) ∷ read_parts u (split b'&' t))
          (cut_before-whole b'#' second (has_char-pair_text b'#' key' v' hk' hv' refl refl))
      ∙ ap (λ t. (key, v) ∷ read_parts u t)
          (split-whole b'&' second (has_char-pair_text b'&' key' v' hk' hv' refl refl))
      ∙ ap (λ t. (key, v) ∷ t) (read_parts-pair u law key' v' hk' hv' [])

-- The path of a target does not depend on the query.
pub target_path-at :
    (path query : Str)
    → has_char b'?' path ≡ false
    → has_char b'#' path ≡ false
    → target_path (path ++ b'?' ∷ query) ≡ without_first (split b'/' path)
unfolding target_path cut_before
target_path-at path query hp hf =
    ap (λ t. without_first (split b'/' (cut_before b'?' t)))
      (cut_before-append b'#' path (b'?' ∷ query) hf)
    ∙ ap (λ t. without_first (split b'/' t)) (cut_before-at b'?' path (cut_before b'#' query) hp)
