-- ===== src/Http.antt =====
-- Requests and responses of net/http, as far as the program reads and writes them.
use wish_operator.Common.{Option, none, some, List, [], Str, lookup}

-- `url.Values` and `http.Header`, each key with its first value (header names in canonical form).
abbrev pub Values : Type 0
Values = List (Str × Str)

-- `Get` and `FormValue`: the first value, or "".
or_empty : Option Str → Str
or_empty none = []
or_empty (some v) = v

unfoldable pub value : Str → Values → Str
unfolding or_empty lookup
value key m = or_empty (lookup key m)

-- The path is the list of its segments. The form is what `ParseForm` has read from the body, bounded
-- by `MaxBytesReader`, and from the URL; it is `none` where `ParseForm` returns an error.
pub record Request : Type 0 where
  pub method : Str
  pub path : List Str
  pub query : Values
  pub header : Values
  pub form : Option Values
  pub remote_addr : Str
