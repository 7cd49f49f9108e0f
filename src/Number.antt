-- ===== src/Number.antt =====
-- strconv.FormatInt and strconv.ParseInt, in base 10 and for 64 bits.
pub mod RoundTrip
use vial_gateway.Prelude.{
  ℕ, zero, suc, ◌+◌, ◌-◌, ◌*◌, ◌/◌, ◌%◌, ◌^◌, Bool, true, false, ◌&&◌, List, [], ◌∷◌, ◌++◌, Option,
  none, some, leb, ltb, ◌==◌, if◌then◌else◌,
}
use vial_gateway.Prelude.Int.{ℤ, pos, negsuc}
use vial_gateway.Text.{Text}

-- The digits of n in front of `rest`; `fuel` above n is enough.
unfoldable pub digits : ℕ → ℕ → Text → Text
digits zero n rest = rest
digits (suc fuel) n rest =
    let more = digits fuel (n / 10) ((b'0' + n % 10) ∷ rest) in
    if ltb n 10 then (b'0' + n) ∷ rest else more

unfoldable pub format_nat : ℕ → Text
unfolding digits
format_nat n = digits (suc n) n []

unfoldable pub format_int : ℤ → Text
unfolding format_nat
format_int (pos n) = format_nat n
format_int (negsuc n) = b'-' ∷ format_nat (suc n)

-- The value of digits behind those that gave `acc`; `none` where a byte is no digit.
unfoldable pub value_from : ℕ → Text → Option ℕ
value_from acc [] = some acc
value_from acc (c ∷ s) =
    let rest = value_from (acc * 10 + (c - b'0')) s in
    if leb b'0' c && leb c b'9' then rest else none

unfoldable pub parse_nat : Text → Option ℕ
unfolding value_from
parse_nat [] = none
parse_nat (c ∷ s) = value_from 0 (c ∷ s)

abbrev i64_limit : ℕ
i64_limit = 2 ^ 63

abbrev non_negative : Option ℕ → Option ℤ
non_negative none = none
non_negative (some n) = if ltb n i64_limit then some (pos n) else none

abbrev negative : Option ℕ → Option ℤ
negative none = none
negative (some zero) = some (pos 0)
negative (some (suc n)) = if ltb n i64_limit then some (negsuc n) else none

-- One sign, then digits; `none` is a syntax or a range error.
unfoldable pub parse_int : Text → Option ℤ
unfolding parse_nat
parse_int [] = none
parse_int (c ∷ s) =
    if c == b'-'
    then negative (parse_nat s)
    else if c == b'+'
    then non_negative (parse_nat s)
    else non_negative (parse_nat (c ∷ s))
