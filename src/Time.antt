-- ===== src/Time.antt =====
-- include/eventbook/common/time.hpp and src/common/time.cpp: instants, and RFC 3339 texts.
--
-- An instant is its count of microseconds since the epoch, an integer. The calendar is that of
-- `std::chrono`: days of the proleptic Gregorian calendar since 1970-01-01. A text with an index is
-- the list of bytes from that index on.
pub mod Fraction
pub mod Instant
pub mod Texts
pub mod Parse
mod Examples
use eventbook.Prelude.{
  ℕ, zero, suc, ◌+◌, ◌-◌, ◌*◌, ◌/◌, ◌%◌, Bool, true, false, not, ◌&&◌, ◌||◌, Option, none, some, [],
  ◌∷◌, length, ltb, leb, ◌==◌, if◌then◌else◌, Bytes, Result, ok, failure, ◌>>=◌, or_fail,
}
use eventbook.Prelude.Int.{ℤ, pos, neg_ℤ, ◌+ℤ◌, ◌-ℤ◌}
use eventbook.Decimal.{is_digit, digit_run}
use eventbook.Events.{ExchangeTimestamp, LocalTimestamp}

pub data TimestampParseError : Type 0 where
  empty malformed_format invalid_date invalid_time invalid_offset : TimestampParseError

abbrev pub minimum_length : ℕ
minimum_length = 20

abbrev pub kept_fractional_digits : ℕ
kept_fractional_digits = 6

-- `count` digits, and the text behind them.
unfoldable pub read_fixed_digits : ℕ → ℕ → Bytes → Option (ℕ × Bytes)
read_fixed_digits zero value s = some (value, s)
read_fixed_digits (suc count) value [] = none
read_fixed_digits (suc count) value (c ∷ s) =
    let rest = read_fixed_digits count (value * 10 + (c - b'0')) s in
    if is_digit c then rest else none

unfoldable pub consume : ℕ → Bytes → Option Bytes
consume expected [] = none
consume expected (c ∷ s) = if c == expected then some s else none

-- The six numbers of a date and a time of day.
pub record DateTime : Type 0 where
  pub year : ℕ
  pub month : ℕ
  pub day : ℕ
  pub hour : ℕ
  pub minute : ℕ
  pub second : ℕ

abbrev pub read_number : ℕ → Bytes → Result (ℕ × Bytes) TimestampParseError
read_number count s = or_fail (read_fixed_digits count 0 s) malformed_format

abbrev pub skip : ℕ → Bytes → Result Bytes TimestampParseError
skip c s = or_fail (consume c s) malformed_format

-- `consume 'T' || consume 't'`.
abbrev pub either : Option Bytes → Option Bytes → Option Bytes
either none o = o
either (some s) o = some s

abbrev pub skip_time_mark : Bytes → Result Bytes TimestampParseError
skip_time_mark s = or_fail (either (consume b'T' s) (consume b't' s)) malformed_format

-- The conjunction `shape_ok`.
unfoldable pub read_shape : Bytes → Result (DateTime × Bytes) TimestampParseError
unfolding read_fixed_digits consume
read_shape text = do
  (year, after_year) ← read_number 4 text
  month_text ← skip b'-' after_year
  (month, after_month) ← read_number 2 month_text
  day_text ← skip b'-' after_month
  (day, after_day) ← read_number 2 day_text
  hour_text ← skip_time_mark after_day
  (hour, after_hour) ← read_number 2 hour_text
  minute_text ← skip b':' after_hour
  (minute, after_minute) ← read_number 2 minute_text
  second_text ← skip b':' after_minute
  (second, rest) ← read_number 2 second_text
  ok (
    record { year = year; month = month; day = day; hour = hour; minute = minute; second = second },
    rest,
  )

-- The loop over the kept digits: a short run is padded with zeros, a long one cut off.
unfoldable pub kept_micros : ℕ → ℕ → Bytes → ℕ
kept_micros zero micros run = micros
kept_micros (suc n) micros [] = kept_micros n (micros * 10) []
kept_micros (suc n) micros (c ∷ run) = kept_micros n (micros * 10 + (c - b'0')) run

unfoldable pub read_micros : Bytes → Result (ℕ × Bytes) TimestampParseError
unfolding kept_micros digit_run
read_micros [] = ok (0, [])
read_micros (c ∷ s) =
    let (run, rest) = digit_run s in
    if c == b'.'
    then (if length run == 0
        then failure malformed_format
        else ok (kept_micros kept_fractional_digits 0 run, rest))
    else ok (0, c ∷ s)

abbrev pub zone_minutes : ℕ → ℕ → ℕ → ℤ
zone_minutes zone hours minutes =
    if zone == b'-' then neg_ℤ (pos (hours * 60 + minutes)) else pos (hours * 60 + minutes)

-- A numeric offset, in minutes, and the text behind it.
unfoldable pub read_offset : ℕ → Bytes → Result (ℤ × Bytes) TimestampParseError
unfolding read_fixed_digits consume
read_offset zone text = do
  (hours, after_hours) ← read_number 2 text
  minute_text ← skip b':' after_hours
  (minutes, rest) ← read_number 2 minute_text
  if ltb 23 hours || ltb 59 minutes
      then failure invalid_offset
      else ok (zone_minutes zone hours minutes, rest)

unfoldable pub read_zone : Bytes → Result (ℤ × Bytes) TimestampParseError
unfolding read_offset
read_zone [] = failure malformed_format
read_zone (zone ∷ s) =
    if (zone == b'Z') || (zone == b'z')
    then ok (pos 0, s)
    else if (zone == b'+') || (zone == b'-')
    then read_offset zone s
    else failure malformed_format

abbrev pub is_leap : ℕ → Bool
is_leap y = ((y % 4 == 0) && not (y % 100 == 0)) || (y % 400 == 0)

-- April, June, September and November.
abbrev pub is_short_month : ℕ → Bool
is_short_month m = (m == 4) || (m == 6) || (m == 9) || (m == 11)

abbrev pub days_in_month : ℕ → ℕ → ℕ
days_in_month year month =
    if is_short_month month
    then 30
    else if month == 2
    then 28 + (if is_leap year then 1 else 0)
    else 31

-- `year_month_day::ok()`, for a year of four digits.
abbrev pub is_date : DateTime → Bool
is_date t =
    leb 1 t.month && leb t.month 12 && leb 1 t.day && leb t.day (days_in_month t.year t.month)

abbrev pub is_time : DateTime → Bool
is_time t = not (ltb 23 t.hour || ltb 59 t.minute || ltb 59 t.second)

-- The days from 0000-01-01 to the first of January of a year, and to the first of a month in it.
unfoldable pub days_before_year : ℕ → ℕ
days_before_year y = 365 * y + (y + 3) / 4 - (y + 99) / 100 + (y + 399) / 400

unfoldable pub days_before_month : ℕ → ℕ → ℕ
days_before_month year zero = 0
days_before_month year (suc m) =
    days_before_month year m + (if m == 0 then 0 else days_in_month year m)

-- The day number of 1970-01-01, counted from 0000-01-01.
abbrev pub epoch_day : ℕ
epoch_day = 719528

-- `sys_days{date}`.
unfoldable pub sys_days : DateTime → ℤ
unfolding days_before_year days_before_month
sys_days t =
    pos (days_before_year t.year + days_before_month t.year t.month + (t.day - 1)) -ℤ pos epoch_day

abbrev pub micros_per_second : ℕ
micros_per_second = 1_000_000

abbrev pub scale_ℤ : ℕ → ℤ → ℤ
scale_ℤ k (pos n) = pos (k * n)
scale_ℤ k (ℤ.negsuc n) = neg_ℤ (pos (k * suc n))

-- The sum `since_epoch`.
unfoldable pub since_epoch : DateTime → ℕ → ℤ → ℤ
unfolding sys_days
since_epoch t micros offset =
    scale_ℤ (86_400 * micros_per_second) (sys_days t)
    +ℤ pos ((t.hour * 3600 + t.minute * 60 + t.second) * micros_per_second + micros)
    -ℤ scale_ℤ (60 * micros_per_second) offset

abbrev pub require : Bool → TimestampParseError → Result (Unit {0}) TimestampParseError
require true e = ok tt
require false e = failure e

abbrev pub at_end : Bytes → Bool
at_end [] = true
at_end (c ∷ s) = false

-- From the shape on.
unfoldable pub parse_parts : Bytes → Result ExchangeTimestamp TimestampParseError
unfolding read_shape read_micros read_zone since_epoch
parse_parts text = do
  (t, after_shape) ← read_shape text
  (micros, zone_text) ← read_micros after_shape
  (offset, rest) ← read_zone zone_text
  _ ← require (at_end rest) malformed_format
  _ ← require (is_date t) invalid_date
  _ ← require (is_time t) invalid_time
  ok (record { micros = since_epoch t micros offset })

unfoldable pub parse_rfc3339 : Bytes → Result ExchangeTimestamp TimestampParseError
unfolding parse_parts
parse_rfc3339 text =
    if length text == 0
    then failure empty
    else if ltb (length text) minimum_length
    then failure malformed_format
    else parse_parts text

unfoldable pub exchange_time_from_epoch_millis : ℤ → ExchangeTimestamp
exchange_time_from_epoch_millis millis = record { micros = scale_ℤ 1000 millis }

abbrev pub exchange_time_from_epoch_micros : ℤ → ExchangeTimestamp
exchange_time_from_epoch_micros micros = record { micros = micros }

abbrev pub local_time_from_epoch_micros : ℤ → LocalTimestamp
local_time_from_epoch_micros micros = record { micros = micros }

-- `local - exchange`.
unfoldable pub observed_timestamp_difference : LocalTimestamp → ExchangeTimestamp → ℤ
observed_timestamp_difference local exchange = local.micros -ℤ exchange.micros
