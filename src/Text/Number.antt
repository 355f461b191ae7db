-- ===== src/Text/Number.antt =====
-- `str::parse` for unsigned integers and their decimal form (`ToString`).
pub mod Laws
use http_req.Prelude.{
  ℕ, zero, suc, ◌+◌, ◌-◌, ◌*◌, ◌/◌, ◌%◌, ◌^◌, Bool, ◌&&◌, ◌||◌, [], ◌∷◌, ◌++◌, if◌then◌else◌, ◌==◌,
  leb, ltb,
}
use http_req.Text.{Str}

-- The kinds of `ParseIntError` that parsing an unsigned integer gives.
pub data IntErrorKind : Type 0 where
  empty invalid_digit pos_overflow : IntErrorKind

pub data Parsed : Type 0 where
  number : ℕ → Parsed
  not_number : IntErrorKind → Parsed

abbrev pub is_digit : ℕ → Bool
is_digit c = leb b'0' c && leb c b'9'

-- The loop over the digits, with the checks of multiplication and addition; `bound` is 2^w.
unfoldable pub parse_digits : ℕ → ℕ → Str → Parsed
parse_digits bound acc [] = number acc
parse_digits bound acc (c ∷ s) =
    let rest = parse_digits bound (acc * 10 + (c - b'0')) s in
    if is_digit c
    then if ltb (acc * 10 + (c - b'0')) bound then rest else not_number pos_overflow
    else not_number invalid_digit

-- One leading `+` is allowed, if something follows it.
unfoldable pub parse_uint : ℕ → Str → Parsed
unfolding parse_digits
parse_uint bound [] = not_number empty
parse_uint bound (c ∷ []) =
    if c == b'+' || c == b'-' then not_number invalid_digit else parse_digits bound 0 (c ∷ [])
parse_uint bound (c ∷ d ∷ s) =
    if c == b'+' then parse_digits bound 0 (d ∷ s) else parse_digits bound 0 (c ∷ d ∷ s)

abbrev pub u16_bound : ℕ
u16_bound = 2 ^ 16

abbrev pub usize_bound : ℕ
usize_bound = 2 ^ 64

unfoldable pub decimal_fuel : ℕ → ℕ → Str
decimal_fuel zero n = []
decimal_fuel (suc f) n =
    let high = decimal_fuel f (n / 10) in
    if ltb n 10 then (b'0' + n) ∷ [] else high ++ (b'0' + n % 10) ∷ []

-- A number is larger than the number of its digits, so the fuel is enough.
unfoldable pub decimal : ℕ → Str
unfolding decimal_fuel
decimal n = decimal_fuel (suc n) n
