-- ===== src/Numbers.antt =====
-- Decimal numbers of packages strconv and fmt, as the program calls them.
pub mod RoundTrip
use wish_operator.Common.{
  ℕ, zero, suc, ◌+◌, ◌-◌, ◌*◌, ◌/◌, ◌%◌, ◌^◌, Bool, ◌&&◌, Option, none, some, List, [], ◌∷◌, ◌++◌,
  ℤ, pos, negsuc, neg_ℕ, Str, ltb, leb, ◌==◌, two31, two63, if◌then◌else◌,
}

abbrev is_digit : ℕ → Bool
is_digit c = leb b'0' c && leb c b'9'

digits_from : ℕ → Str → Option ℕ
digits_from n [] = some n
digits_from n (c ∷ s) =
    let rest = digits_from (n * 10 + (c - 48)) s in if is_digit c then rest else none

unsigned : Str → Option ℕ
unsigned [] = none
unsigned (c ∷ s) = digits_from 0 (c ∷ s)

-- A magnitude in range as an integer; `max` is 2^(bits - 1).
positive : ℕ → Option ℕ → Option ℤ
positive max none = none
positive max (some n) = if ltb n max then some (pos n) else none

negative : ℕ → Option ℕ → Option ℤ
negative max none = none
negative max (some n) = if leb n max then some (neg_ℕ n) else none

-- `strconv.ParseInt(s, 10, bits)`, `none` for any error.
parse_signed : ℕ → Str → Option ℤ
parse_signed max [] = none
parse_signed max (c ∷ s) =
    if c == b'+'
    then positive max (unsigned s)
    else if c == b'-'
    then negative max (unsigned s)
    else positive max (unsigned (c ∷ s))

unfoldable pub parse_int32 : Str → Option ℤ
unfolding parse_signed positive negative unsigned digits_from
parse_int32 s = parse_signed two31 s

-- `strconv.Atoi`, with the 64-bit `int` of the platforms that the image is built for.
unfoldable pub atoi : Str → Option ℤ
unfolding parse_signed positive negative unsigned digits_from
atoi s = parse_signed two63 s

-- The decimal digits in front of a text. The fuel bounds the number of divisions by 10.
decimal_from : ℕ → ℕ → Str → Str
decimal_from zero n s = s
decimal_from (suc fuel) n s =
    let more = decimal_from fuel (n / 10) ((48 + n % 10) ∷ s) in
    if ltb n 10 then (48 + n) ∷ s else more

unfoldable pub decimal : ℕ → Str
unfolding decimal_from
decimal n = decimal_from (suc n) n []

-- The verb `%d`.
unfoldable pub decimal_ℤ : ℤ → Str
unfolding decimal
decimal_ℤ (pos n) = decimal n
decimal_ℤ (negsuc n) = b'-' ∷ decimal (suc n)

-- `fmt.Sprintf` for texts whose only verb is `%d`, with as many arguments as verbs.
unfoldable pub sprintf : Str → List ℤ → Str
unfolding decimal_ℤ
sprintf [] args = []
sprintf (c ∷ s) [] = c ∷ s
sprintf (c ∷ []) (a ∷ args) = c ∷ []
sprintf (c ∷ d ∷ s) (a ∷ args) =
    let verb = decimal_ℤ a ++ sprintf s args in
    let plain = c ∷ sprintf (d ∷ s) (a ∷ args) in if c == b'%' && d == b'd' then verb else plain
