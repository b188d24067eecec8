-- ===== src/Decimal.antt =====
-- src/common/decimal.cpp: decimal texts and integers scaled by a power of ten.
--
-- A `std::string_view` with an index is the list of the bytes from that index on. The accumulated
-- values are never negative, so they are natural numbers, and the tests that keep them within
-- `int64` are those of the source. `fmt::format` is the parameter `Fmt`.
pub mod Spec
pub mod Parse
pub mod Complete
pub mod Format
pub mod Examples
use eventbook.Prelude.{
  ℕ, zero, suc, ◌+◌, ◌-◌, ◌*◌, ◌/◌, ◌%◌, ◌^◌, ◌<◌, ◌≡◌, ◌≢◌, Bool, true, false, ◌&&◌, Option, none,
  some, List, [], ◌∷◌, ◌++◌, length, All, ltb, leb, ◌==◌, if◌then◌else◌, Bytes, Result, ok, failure,
  ◌>>=◌, or_fail,
}
use eventbook.Prelude.Int.{ℤ, pos, negsuc, neg_ℤ, max_i64, ltb_ℤ, pos_part, neg_part}

pub data DecimalParseError : Type 0 where
  empty missing_digits invalid_character negative_not_allowed too_many_fractional_digits overflow :
      DecimalParseError

abbrev pub is_digit : ℕ → Bool
is_digit c = leb b'0' c && leb c b'9'

unfoldable pub power_of_ten : ℕ → ℕ
power_of_ten zero = 1
power_of_ten (suc n) = power_of_ten n * 10

-- `accumulate_digit`: `none` where it returns false.
pub accumulate_digit : ℕ → ℕ → Option ℕ
accumulate_digit value digit =
    if ltb ((max_i64 - digit) / 10) value then none else some (value * 10 + digit)

-- The loop over the integer part: the value so far, and the text that is left.
pub read_integer : Bytes → ℕ → Result (ℕ × Bytes) DecimalParseError
unfolding accumulate_digit
read_integer [] value = ok (value, [])
read_integer (c ∷ s) value = elim (is_digit c) [
  | true ↦ or_fail (accumulate_digit value (c - b'0')) overflow >>= λ v. read_integer s v
  | false ↦ ok (value, c ∷ s)
]

-- The loop that makes room for the fractional digits.
pub shift_up : ℕ → ℕ → Option ℕ
unfolding accumulate_digit
shift_up zero value = some value
shift_up (suc n) value = elim (accumulate_digit value 0) [ none ↦ none | some v ↦ shift_up n v ]

-- The run of digits that a text begins with, and the text behind it.
unfoldable pub digit_run : Bytes → Bytes × Bytes
digit_run [] = ([], [])
digit_run (c ∷ s) =
    let rest = digit_run s in
    elim (is_digit c) [ true ↦ (c ∷ rest.0, rest.1) | false ↦ ([], c ∷ s) ]

-- The loop over the fractional digits, which does not test for overflow.
pub read_fraction : ℕ → Bytes → ℕ
read_fraction fraction [] = fraction
read_fraction fraction (c ∷ s) = read_fraction (fraction * 10 + (c - b'0')) s

-- The digits behind the point, added below the shifted integer part.
pub add_fraction : ℕ → ℕ → Bytes × Bytes → Result (ℕ × Bytes) DecimalParseError
unfolding read_fraction power_of_ten
add_fraction fractional_digits value (run, rest) =
    let fraction = read_fraction 0 run * power_of_ten (fractional_digits - length run) in
    if length run == 0
    then failure missing_digits
    else if ltb fractional_digits (length run)
    then failure too_many_fractional_digits
    else if ltb (max_i64 - fraction) value
    then failure overflow
    else ok (value + fraction, rest)

-- The optional fraction.
pub read_point : ℕ → ℕ × Bytes → Result (ℕ × Bytes) DecimalParseError
unfolding add_fraction digit_run
read_point k (value, []) = ok (value, [])
read_point k (value, c ∷ s) =
    if c == b'.' then add_fraction k value (digit_run s) else ok (value, c ∷ s)

abbrev pub require_digits : Bytes → ℕ × Bytes → Result (ℕ × Bytes) DecimalParseError
require_digits text (value, rest) =
    if length rest == length text then failure missing_digits else ok (value, rest)

abbrev pub shift_value : ℕ → ℕ × Bytes → Result (ℕ × Bytes) DecimalParseError
shift_value k (value, rest) = or_fail (shift_up k value) overflow >>= λ v. ok (v, rest)

abbrev pub signed : Bool → ℕ → ℤ
signed true n = neg_ℤ (pos n)
signed false n = pos n

abbrev pub finish : Bool → ℕ × Bytes → Result ℤ DecimalParseError
finish negative (value, []) = ok (signed negative value)
finish negative (value, c ∷ s) = failure invalid_character

-- All that follows the sign.
pub parse_unsigned : Bytes → ℕ → Bool → Result ℤ DecimalParseError
unfolding read_integer shift_up read_point
parse_unsigned text k negative = do
  head ← read_integer text 0
  digits ← require_digits text head
  scaled ← shift_value k digits
  total ← read_point k scaled
  finish negative total

unfoldable pub parse_scaled_decimal : Bytes → ℕ → Bool → Result ℤ DecimalParseError
unfolding parse_unsigned
parse_scaled_decimal [] fractional_digits allow_negative = failure empty
parse_scaled_decimal (c ∷ s) fractional_digits allow_negative =
    if c == b'-'
    then (if allow_negative
        then parse_unsigned s fractional_digits true
        else failure negative_not_allowed)
    else parse_unsigned (c ∷ s) fractional_digits false

-- The two format strings that the source hands to `fmt::format`, for an unsigned number: `{}` and
-- `{:0{}}`, with a width.
pub record Fmt : Type 0 where
  pub decimal : ℕ → Bytes
  pub padded : ℕ → ℕ → Bytes

-- `~x + 1` on `uint64` of a negative number, and the number itself otherwise.
abbrev pub magnitude : ℤ → ℕ
magnitude (pos n) = n
magnitude (negsuc n) = suc n

abbrev pub sign_text : ℤ → Bytes
sign_text (pos n) = []
sign_text (negsuc n) = b'-' ∷ []

pub format_scaled_decimal : Fmt → ℤ → ℕ → Bytes
format_scaled_decimal fmt units zero = sign_text units ++ fmt.decimal (magnitude units)
format_scaled_decimal fmt units (suc k) =
    let scale = power_of_ten (suc k) in
    sign_text units
    ++ (fmt.decimal (magnitude units / scale)
        ++ (b'.' ∷ fmt.padded (suc k) (magnitude units % scale)))
