-- ===== src/Time/Texts.antt =====
-- The texts of RFC 3339 and the instants they stand for, without the parser.
use eventbook.Prelude.{
  ℕ, ◌+◌, ◌*◌, ◌≤◌, ◌≡◌, ◌⊎◌, not, ◌||◌, Option, none, some, [], ◌∷◌, ◌++◌, length, All, ltb, ◌==◌,
  if◌then◌else◌, Bytes, Result, ok, failure,
}
use eventbook.Prelude.Int.{ℤ}
use eventbook.Decimal.Spec.{IsDigit, value}
use eventbook.Events.{ExchangeTimestamp}
use eventbook.Time.{TimestampParseError, invalid_date, invalid_time, invalid_offset, DateTime}
use eventbook.Time.Instant.{
  first_digits, is_calendar_date, is_day_time, micros_ahead, micros_behind,
}

pub data Zone : Type 0 where
  utc : ℕ → Zone
  numeric : ℕ → Bytes → Bytes → Zone

-- The parts of a text: digits, the mark between date and time, digits behind a point, a zone.
pub record TimeText : Type 0 where
  pub year : Bytes
  pub month : Bytes
  pub day : Bytes
  pub mark : ℕ
  pub hour : Bytes
  pub minute : Bytes
  pub second : Bytes
  pub fraction : Option Bytes
  pub zone : Zone

abbrev pub fraction_text : Option Bytes → Bytes
fraction_text none = []
fraction_text (some f) = b'.' ∷ f

abbrev pub zone_text : Zone → Bytes
zone_text (utc c) = c ∷ []
zone_text (numeric sign hours minutes) = sign ∷ (hours ++ (b':' ∷ (minutes ++ [])))

abbrev pub text_of : TimeText → Bytes
text_of x =
    x.year
    ++ (b'-'
        ∷ (x.month
            ++ (b'-'
                ∷ (x.day
                    ++ (x.mark
                        ∷ (x.hour
                            ++ (b':'
                                ∷ (x.minute
                                    ++ (b':'
                                        ∷ (x.second
                                            ++ (fraction_text x.fraction
                                                ++ zone_text x.zone)))))))))))

abbrev pub NumberText : ℕ → Bytes → Type 0
NumberText n s = All IsDigit s × (length s ≡ n)

abbrev pub IsFraction : Option Bytes → Type 0
IsFraction none = Unit
IsFraction (some f) = All IsDigit f × (1 ≤ length f)

abbrev pub IsZone : Zone → Type 0
IsZone (utc c) = (c ≡ b'Z') ⊎ (c ≡ b'z')
IsZone (numeric sign hours minutes) =
    ((sign ≡ b'+') ⊎ (sign ≡ b'-')) × NumberText 2 hours × NumberText 2 minutes

-- The shape that RFC 3339 gives a text.
pub record IsTimeText (x : TimeText) : Type 0 where
  pub year : NumberText 4 x.year
  pub month : NumberText 2 x.month
  pub day : NumberText 2 x.day
  pub mark : (x.mark ≡ b'T') ⊎ (x.mark ≡ b't')
  pub hour : NumberText 2 x.hour
  pub minute : NumberText 2 x.minute
  pub second : NumberText 2 x.second
  pub fraction : IsFraction x.fraction
  pub zone : IsZone x.zone

abbrev pub date_time_of : TimeText → DateTime
date_time_of x = record {
  year = value 0 x.year;
  month = value 0 x.month;
  day = value 0 x.day;
  hour = value 0 x.hour;
  minute = value 0 x.minute;
  second = value 0 x.second;
}

-- The microseconds of a fraction: its first six digits, with zeros where it has fewer.
abbrev pub micros_of : Option Bytes → ℕ
micros_of none = 0
micros_of (some f) = value 0 (first_digits 6 f)

abbrev pub checked : DateTime → ℤ → Result ExchangeTimestamp TimestampParseError
checked t micros =
    if not (is_calendar_date t)
    then failure invalid_date
    else if not (is_day_time t)
    then failure invalid_time
    else ok (record { micros = micros })

-- What a text of the shape stands for: a clock with the sign + is ahead of UTC, and one with - behind.
abbrev pub instant_in : Zone → DateTime → ℕ → Result ExchangeTimestamp TimestampParseError
instant_in (utc c) t micros = checked t (micros_ahead 0 t micros)
instant_in (numeric sign hours minutes) t micros =
    let offset = value 0 hours * 60 + value 0 minutes in
    if ltb 23 (value 0 hours) || ltb 59 (value 0 minutes)
    then failure invalid_offset
    else if sign == b'-'
    then checked t (micros_behind offset t micros)
    else checked t (micros_ahead offset t micros)

abbrev pub instant_of : TimeText → Result ExchangeTimestamp TimestampParseError
instant_of x = instant_in x.zone (date_time_of x) (micros_of x.fraction)
