-- ===== src/Time/Parse.antt =====
-- `parse_rfc3339` on the texts of RFC 3339.
use eventbook.Prelude.{
  ℕ, zero, suc, ◌+◌, ◌-◌, ◌*◌, ◌≤◌, ◌≡◌, refl, ◌∙◌, inl, inr, false, true, not, ◌||◌, Option, none,
  some, [], ◌∷◌, ◌++◌, length, length-append, ltb, ◌==◌, if◌then◌else◌, Bytes, Result, ok, failure,
  ◌>>=◌, arith, Bool-cases,
}
use eventbook.Prelude.Int.{ℤ, pos, neg_ℤ}
use eventbook.Decimal.Spec.{value}
use eventbook.Decimal.Parse.{EndsRun, digit_run-append}
use eventbook.Events.{ExchangeTimestamp}
use eventbook.Time.{
  TimestampParseError, malformed_format, invalid_date, invalid_time, invalid_offset,
  read_fixed_digits, consume, DateTime, read_shape, skip_time_mark, read_micros, zone_minutes,
  read_offset, read_zone, is_date, is_time, since_epoch, parse_parts, parse_rfc3339, require,
  at_end,
}
use eventbook.Time.Texts.{
  Zone, TimeText, fraction_text, zone_text, text_of, NumberText, IsFraction, IsZone, IsTimeText,
  date_time_of, micros_of, checked, instant_in, instant_of, utc, numeric,
}
use eventbook.Time.Instant.{
  micros_ahead, micros_behind, kept_micros-first_digits, is_date-is_calendar_date,
  is_time-is_day_time, since_epoch-ahead, since_epoch-behind,
}

-- The offset that the program works out for a zone.
abbrev zone_of : Zone → Result ℤ TimestampParseError
zone_of (utc c) = ok (pos 0)
zone_of (numeric sign hours minutes) =
    if ltb 23 (value 0 hours) || ltb 59 (value 0 minutes)
    then failure invalid_offset
    else ok (zone_minutes sign (value 0 hours) (value 0 minutes))

read_digits :
    (n v : ℕ) (s rest : Bytes)
    → NumberText n s
    → read_fixed_digits n v (s ++ rest) ≡ some (value v s, rest)
unfolding read_fixed_digits
read_digits zero v [] rest h = refl
read_digits zero v (c ∷ s) rest h = absurd (omega (arith, h.1))
read_digits (suc n) v [] rest h = absurd (omega (arith, h.1))
read_digits (suc n) v (c ∷ s) rest h =
    ground (arith, read_digits n (v * 10 + (c - b'0')) s rest (h.0.1, omega (arith, h.1)))

consume_head : (c : ℕ) (s : Bytes) → consume c (c ∷ s) ≡ some s
unfolding consume
consume_head c s = ground arith

module _ (x : TimeText) (h : IsTimeText x) where
  abbrev tail_text : Bytes
  tail_text = fraction_text x.fraction ++ zone_text x.zone

  skip_mark : (s : Bytes) → skip_time_mark (x.mark ∷ s) ≡ ok s
  unfolding consume
  skip_mark s = ground (arith, h.mark)

  read_shape-text_of : read_shape (text_of x) ≡ ok (date_time_of x, tail_text)
  unfolding read_shape
  read_shape-text_of =
      rw
        (
          read_digits 4 0 x.year _ h.year,
          read_digits 2 0 x.month _ h.month,
          read_digits 2 0 x.day _ h.day,
          skip_mark _,
          read_digits 2 0 x.hour _ h.hour,
          read_digits 2 0 x.minute _ h.minute,
          read_digits 2 0 x.second _ h.second,
        )
        refl

zone_text-EndsRun : (z : Zone) → IsZone z → EndsRun (zone_text z)
zone_text-EndsRun (utc c) h = ground arith
zone_text-EndsRun (numeric sign hours minutes) h = ground arith

zone-no_point : (z : Zone) → IsZone z → read_micros (zone_text z) ≡ ok (0, zone_text z)
unfolding read_micros
zone-no_point (utc c) h = ground arith
zone-no_point (numeric sign hours minutes) h = ground arith

read_micros-fraction :
    (f : Option Bytes) (z : Zone)
    → IsFraction f
    → IsZone z
    → read_micros (fraction_text f ++ zone_text z) ≡ ok (micros_of f, zone_text z)
unfolding read_micros
read_micros-fraction none z h k = zone-no_point z k
read_micros-fraction (some f) z h k =
    rw (digit_run-append f (zone_text z) h.0 (zone_text-EndsRun z k), read_micros)
      (ground (arith, kept_micros-first_digits 6 0 f))

read_offset-zone_of :
    (sign : ℕ) (hours minutes : Bytes)
    → NumberText 2 hours
    → NumberText 2 minutes
    → read_offset sign (hours ++ (b':' ∷ (minutes ++ [])))
      ≡ (zone_of (numeric sign hours minutes) >>= λ offset. ok (offset, []))
unfolding read_offset
read_offset-zone_of sign hours minutes h k =
    rw (read_digits 2 0 hours (b':' ∷ (minutes ++ [])) h, read_digits 2 0 minutes [] k)
      (ground arith)

read_zone-zone_text :
    (z : Zone) → IsZone z → read_zone (zone_text z) ≡ (zone_of z >>= λ offset. ok (offset, []))
unfolding read_zone
read_zone-zone_text (utc c) h = ground arith
read_zone-zone_text (numeric sign hours minutes) h =
    let read = read_offset-zone_of sign hours minutes h.1 h.2 in ground (arith, read, h.0)

zone_some : (z : Zone) → 1 ≤ length (zone_text z)
zone_some (utc c) = omega arith
zone_some (numeric sign hours minutes) = omega arith

text_long : (x : TimeText) → IsTimeText x → 20 ≤ length (text_of x)
text_long x h =
    rw
      (
        length-append x.year _,
        length-append x.month _,
        length-append x.day _,
        length-append x.hour _,
        length-append x.minute _,
        length-append x.second _,
        length-append (fraction_text x.fraction) _,
      )
      (omega
        (arith, zone_some x.zone, h.year.1, h.month.1, h.day.1, h.hour.1, h.minute.1, h.second.1))

long_enough : (t : Bytes) → 20 ≤ length t → parse_rfc3339 t ≡ parse_parts t
unfolding parse_rfc3339
long_enough t k =
    let some_text : (length t == 0) ≡ false = ground arith in
    let fits : ltb (length t) 20 ≡ false = ground arith in rw (some_text, fits) refl

-- What `parse_parts` does with the three readings.
abbrev verdict :
    DateTime → ℕ → Result ℤ TimestampParseError → Result ExchangeTimestamp TimestampParseError
verdict t micros zone = do
  offset ← zone
  if not (is_date t)
      then failure invalid_date
      else if not (is_time t)
      then failure invalid_time
      else ok (record { micros = since_epoch t micros offset })

verdict_of_zone :
    (t : DateTime) (micros : ℕ) (zone : Result ℤ TimestampParseError)
    → ((zone >>= λ offset. ok (offset, [])) >>= λ (offset, rest).
        require (at_end rest) malformed_format >>= λ _. require (is_date t) invalid_date >>= λ _.
        require (is_time t) invalid_time >>= λ _.
        ok (record { micros = since_epoch t micros offset }))
      ≡ verdict t micros zone
verdict_of_zone t micros (failure e) = refl
verdict_of_zone t micros (ok offset) = elim (Bool-cases (is_date t)) [
  | inr e ↦ rw e refl
  | inl e ↦ elim (Bool-cases (is_time t)) [ inl f ↦ rw (e, f) refl | inr f ↦ rw (e, f) refl ]
]

verdict-checked :
    (t : DateTime) (micros : ℕ) (offset z : ℤ)
    → (is_date t ≡ true → since_epoch t micros offset ≡ z)
    → verdict t micros (ok offset) ≡ checked t z
verdict-checked t micros offset z h = elim (Bool-cases (is_date t)) [
  | inr e ↦ rw (← is_date-is_calendar_date t, e) refl
  | inl e ↦ rw (← is_date-is_calendar_date t, ← is_time-is_day_time t, e, h e) refl
]

verdict-instant_in :
    (zone : Zone) (t : DateTime) (micros : ℕ)
    → verdict t micros (zone_of zone) ≡ instant_in zone t micros
verdict-instant_in (utc c) t micros =
    verdict-checked t micros (pos 0) (micros_ahead 0 t micros) (since_epoch-ahead t micros 0)
verdict-instant_in (numeric sign hours minutes) t micros =
    let offset = value 0 hours * 60 + value 0 minutes in
    elim (Bool-cases (ltb 23 (value 0 hours) || ltb 59 (value 0 minutes))) [
      | inl e ↦ rw e refl
      | inr e ↦ elim (Bool-cases (sign == b'-')) [
        | inl m ↦
            rw (e, m)
              (verdict-checked t micros (neg_ℤ (pos offset)) (micros_behind offset t micros)
                (since_epoch-behind t micros offset))
        | inr m ↦
            rw (e, m)
              (verdict-checked t micros (pos offset) (micros_ahead offset t micros)
                (since_epoch-ahead t micros offset))
      ]
    ]

parse_parts-text_of : (x : TimeText) → IsTimeText x → parse_parts (text_of x) ≡ instant_of x
unfolding parse_parts
parse_parts-text_of x h =
    rw
      (
        read_shape-text_of x h,
        read_micros-fraction x.fraction x.zone h.fraction h.zone,
        read_zone-zone_text x.zone h.zone,
      )
      (verdict_of_zone (date_time_of x) (micros_of x.fraction) (zone_of x.zone)
        ∙ verdict-instant_in x.zone (date_time_of x) (micros_of x.fraction))

-- A text of the shape that RFC 3339 gives, with a fraction of any length or none and a zone of either
-- form, is never called malformed. A numeric zone must have at most 23 hours and 59 minutes, the month
-- must be one of the year, the day one of the month and the time one of the day. Then the result is the
-- microsecond of the clock, less the offset of a clock ahead of UTC, plus that of one behind.
pub parse_rfc3339-text_of : (x : TimeText) → IsTimeText x → parse_rfc3339 (text_of x) ≡ instant_of x
parse_rfc3339-text_of x h = long_enough (text_of x) (text_long x h) ∙ parse_parts-text_of x h
