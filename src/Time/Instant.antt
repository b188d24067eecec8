-- ===== src/Time/Instant.antt =====
-- The instant of a date, a time of day and an offset, counted year by year and month by month.
use eventbook.Prelude.{
  ℕ, zero, suc, ◌+◌, ◌-◌, ◌*◌, ◌≤◌, ◌≡◌, refl, ◌∙◌, ap, sym, Bool, true, false, ◌&&◌, List, [], ◌∷◌,
  ltb, leb, ◌==◌, ◌%◌, if◌then◌else◌, Bytes, arith,
}
use eventbook.Prelude.Int.{ℤ, pos, negsuc, pos_part, neg_part, neg_ℤ, ◌+ℤ◌, ◌-ℤ◌, int_laws}
use eventbook.Decimal.Spec.{value}
use eventbook.Time.{
  DateTime, days_before_year, days_before_month, days_in_month, is_date, is_time, kept_micros,
  since_epoch, sys_days, scale_ℤ,
}

-- The Gregorian rule, from its exceptions.
abbrev pub leap_days : ℕ → ℕ
leap_days y = if y % 400 == 0 then 1 else if y % 100 == 0 then 0 else if y % 4 == 0 then 1 else 0

abbrev pub month_lengths : ℕ → List ℕ
month_lengths y = 31 ∷ (28 + leap_days y) ∷ 31 ∷ 30 ∷ 31 ∷ 30 ∷ 31 ∷ 31 ∷ 30 ∷ 31 ∷ 30 ∷ 31 ∷ []

-- The sum of the first numbers, and the one behind them, 0 past the end.
abbrev pub sum_first : ℕ → List ℕ → ℕ
sum_first zero ns = 0
sum_first (suc k) [] = 0
sum_first (suc k) (n ∷ ns) = n + sum_first k ns

abbrev pub entry : ℕ → List ℕ → ℕ
entry k [] = 0
entry zero (n ∷ ns) = n
entry (suc k) (n ∷ ns) = entry k ns

-- The days of all years before one.
abbrev pub days_of_years : ℕ → ℕ
days_of_years zero = 0
days_of_years (suc y) = days_of_years y + (365 + leap_days y)

-- The first digits of a text, padded with zeros.
abbrev pub first_digits : ℕ → Bytes → Bytes
first_digits zero s = []
first_digits (suc n) [] = b'0' ∷ first_digits n []
first_digits (suc n) (c ∷ s) = c ∷ first_digits n s

-- A month of the year, and a day that the month has.
abbrev pub is_calendar_date : DateTime → Bool
is_calendar_date t =
    ltb 0 t.month
    && ltb t.month 13
    && ltb 0 t.day
    && leb t.day (entry (t.month - 1) (month_lengths t.year))

abbrev pub is_day_time : DateTime → Bool
is_day_time t = ltb t.hour 24 && ltb t.minute 60 && ltb t.second 60

-- Microseconds from 0000-01-01, by the clock that the text was written by.
abbrev pub clock_micros : DateTime → ℕ → ℕ
clock_micros t micros =
    (((days_of_years t.year + sum_first (t.month - 1) (month_lengths t.year) + (t.day - 1)) * 24
            + t.hour)
          * 60
        + t.minute)
      * 60
      * 1_000_000
    + t.second * 1_000_000
    + micros

-- The same from the first of January 1970, UTC, for a clock that is ahead of UTC by some minutes, and
-- for one that is behind.
abbrev pub micros_ahead : ℕ → DateTime → ℕ → ℤ
micros_ahead minutes t micros =
    pos (clock_micros t micros) -ℤ pos (719_528 * 86_400_000_000) -ℤ pos (minutes * 60_000_000)

abbrev pub micros_behind : ℕ → DateTime → ℕ → ℤ
micros_behind minutes t micros =
    pos (clock_micros t micros) -ℤ pos (719_528 * 86_400_000_000) +ℤ pos (minutes * 60_000_000)

-- The days from 0000-01-01 to 1970-01-01 are those of the years between.
epoch_years : days_of_years 1970 ≡ 719_528
epoch_years = refl

days_before_year-days_of_years : (y : ℕ) → days_before_year y ≡ days_of_years y
unfolding days_before_year
days_before_year-days_of_years zero = refl
days_before_year-days_of_years (suc y) = ground (arith, days_before_year-days_of_years y)

days_in_month-entry :
    (y m : ℕ) → 1 ≤ m → m ≤ 12 → days_in_month y m ≡ entry (m - 1) (month_lengths y)
days_in_month-entry y m h k = ground arith

pub kept_micros-first_digits :
    (n micros : ℕ) (s : Bytes) → kept_micros n micros s ≡ value micros (first_digits n s)
unfolding kept_micros
kept_micros-first_digits zero micros s = refl
kept_micros-first_digits (suc n) micros [] =
    let no_digit : micros * 10 ≡ micros * 10 + 0 = omega arith in
    kept_micros-first_digits n (micros * 10) [] ∙ ap (λ v. value v (first_digits n [])) no_digit
kept_micros-first_digits (suc n) micros (c ∷ s) = kept_micros-first_digits n _ s

scale_ℤ_parts :
    (k : ℕ) (z : ℤ)
    → pos_part (scale_ℤ k z) + k * neg_part z ≡ neg_part (scale_ℤ k z) + k * pos_part z
unfolding neg_ℤ
scale_ℤ_parts k (pos n) = omega arith
scale_ℤ_parts k (negsuc n) = ground arith

pub is_date-is_calendar_date : (t : DateTime) → is_date t ≡ is_calendar_date t
is_date-is_calendar_date t = ground (arith, days_in_month-entry t.year t.month)

pub is_time-is_day_time : (t : DateTime) → is_time t ≡ is_day_time t
is_time-is_day_time t = ground arith

sum_first-suc : (k : ℕ) (ns : List ℕ) → sum_first (suc k) ns ≡ sum_first k ns + entry k ns
sum_first-suc zero [] = refl
sum_first-suc zero (n ∷ ns) = omega arith
sum_first-suc (suc k) [] = refl
sum_first-suc (suc k) (n ∷ ns) = omega (arith, sum_first-suc k ns)

days_before_next :
    (y m : ℕ)
    → days_before_month y (suc (suc m)) ≡ days_before_month y (suc m) + days_in_month y (suc m)
unfolding days_before_month
days_before_next y m = let later : (suc m == 0) ≡ false = ground arith in rw later refl

days_before_month-sum_first :
    (y m : ℕ) → m ≤ 12 → days_before_month y (suc m) ≡ sum_first m (month_lengths y)
unfolding days_before_month
days_before_month-sum_first y zero h = refl
days_before_month-sum_first y (suc m) h =
    let before = days_before_month-sum_first y m (omega arith) in
    let same : suc m - 1 ≡ m = omega arith in
    let month =
      days_in_month-entry y (suc m) (omega arith) (omega arith)
      ∙ ap (λ k. entry k (month_lengths y)) same in
    days_before_next y m
    ∙ ap (λ d. d + days_in_month y (suc m)) before
    ∙ ap (λ d. sum_first m (month_lengths y) + d) month
    ∙ sym (sum_first-suc m (month_lengths y))

-- The days of a date of the calendar.
sys_days-parts :
    (t : DateTime)
    → is_date t ≡ true
    → sys_days t
      ≡ pos (days_of_years t.year + sum_first (t.month - 1) (month_lengths t.year) + (t.day - 1))
        -ℤ pos 719_528
unfolding sys_days
sys_days-parts t h =
    let month : suc (t.month - 1) ≡ t.month = ground arith in
    let months = ap (λ m. days_before_month t.year m) month in
    let sums = days_before_month-sum_first t.year (t.month - 1) (ground arith) in
    rw (← months, sums, days_before_year-days_of_years t.year) refl

pub since_epoch-ahead :
    (t : DateTime) (micros minutes : ℕ)
    → is_date t ≡ true
    → since_epoch t micros (pos minutes) ≡ micros_ahead minutes t micros
unfolding since_epoch
since_epoch-ahead t micros minutes h = rw (sys_days-parts t h) (omega (int_laws, scale_ℤ_parts))

pub since_epoch-behind :
    (t : DateTime) (micros minutes : ℕ)
    → is_date t ≡ true
    → since_epoch t micros (neg_ℤ (pos minutes)) ≡ micros_behind minutes t micros
unfolding since_epoch
since_epoch-behind t micros minutes h = rw (sys_days-parts t h) (omega (int_laws, scale_ℤ_parts))
