-- ===== src/Url.antt =====
-- How net/http and net/url read the target of a request, as far as the program's links need it.
-- `url.QueryUnescape` is a parameter; a part of the query that cannot be read is skipped, as
-- `URL.Query` does. The path is split at its slashes, for paths without percent signs.
pub mod Plain
pub mod Query
use wish_operator.Common.{
  Bool, true, false, not, ◌&&◌, ◌||◌, ◌==◌, ◌≡◌, Option, none, some, List, [], is_empty, ◌∷◌, Str,
  str, split, cut_before, if◌then◌else◌, ℕ,
}
use wish_operator.Http.{Values, Request}

abbrev pub QueryUnescape : Type 0
QueryUnescape = Str → Option Str

-- The second result of `strings.Cut(s, sep)`: what stands after the first separator.
unfoldable pub cut_after : ℕ → Str → Str
cut_after sep [] = []
cut_after sep (c ∷ s) = if c == sep then s else cut_after sep s

unfoldable pub has_char : ℕ → Str → Bool
has_char c [] = false
has_char c (d ∷ s) = d == c || has_char c s

read_pair : Option Str → Option Str → Values → Values
read_pair (some key) (some v) rest = (key, v) ∷ rest
read_pair none v rest = rest
read_pair (some key) none rest = rest

-- The pairs of the parts of a query, in order; a part with a semicolon and an empty part are skipped.
unfoldable pub read_parts : QueryUnescape → List Str → Values
unfolding read_pair
read_parts unescape [] = []
read_parts unescape (part ∷ parts) =
    let rest = read_parts unescape parts in
    let pair = read_pair (unescape (cut_before b'=' part)) (unescape (cut_after b'=' part)) rest in
    if has_char b';' part || is_empty part then rest else pair

-- `URL.Query` of a request whose target is a link; what follows a `#` is not sent.
unfoldable pub target_query : QueryUnescape → Str → Values
unfolding read_parts cut_after has_char
target_query unescape target =
    read_parts unescape (split b'&' (cut_after b'?' (cut_before b'#' target)))

unfoldable pub without_first : List Str → List Str
without_first [] = []
without_first (first ∷ rest) = rest

-- The segments of the path of a target.
unfoldable pub target_path : Str → List Str
unfolding without_first
target_path target = without_first (split b'/' (cut_before b'?' (cut_before b'#' target)))

-- A request for a target.
unfoldable pub request_to : QueryUnescape → Str → Values → Option Values → Str → Str → Request
unfolding target_path target_query
request_to unescape method header form remote_addr target = record {
  method = method;
  path = target_path target;
  query = target_query unescape target;
  header = header;
  form = form;
  remote_addr = remote_addr;
}
