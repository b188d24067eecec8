-- ===== src/Decimal/Examples.antt =====
-- `fmt::format` on unsigned numbers by a concrete function, and the theorems on concrete texts.
use eventbook.Prelude.{
  ℕ, zero, suc, ◌+◌, ◌-◌, ◌*◌, ◌/◌, ◌%◌, ◌≤◌, ◌<◌, ◌≡◌, refl, true, false, some, [], ◌∷◌, ◌++◌,
  length, length-append, All, All-append, ltb, if◌then◌else◌, Bytes, codes, ok, failure, arith,
  Bool-cases, inl, inr,
}
use eventbook.Prelude.Int.{negsuc, neg_ℤ, max_i64}
use eventbook.Decimal.{
  Fmt, negative_not_allowed, signed, power_of_ten, parse_scaled_decimal, format_scaled_decimal,
}
use eventbook.Decimal.Spec.{IsDigit, value, Numeral, IsDecimal, text_of, units_of}
use eventbook.Decimal.Parse.{parse_scaled_decimal_sound}
use eventbook.Decimal.Complete.{parse_scaled_decimal-text_of}
use eventbook.Decimal.Format.{
  FmtLaws, IsCanonical, parse_scaled_decimal-format_scaled_decimal,
  format_scaled_decimal-parse_scaled_decimal,
}

abbrev last_digit : ℕ → Bytes
last_digit n = (b'0' + n % 10) ∷ []

-- NumberText of a number, given more fuel than the number.
abbrev digits : ℕ → ℕ → Bytes
digits zero n = []
digits (suc fuel) n =
    let front = digits fuel (n / 10) in if ltb n 10 then last_digit n else front ++ last_digit n

abbrev zero_padded : ℕ → ℕ → Bytes
zero_padded zero n = []
zero_padded (suc w) n = zero_padded w (n / 10) ++ last_digit n

abbrev pub plain_fmt : Fmt
plain_fmt = record { decimal = λ n. digits (suc n) n; padded = zero_padded }

value-append : (s : Bytes) (acc c : ℕ) → value acc (s ++ (c ∷ [])) ≡ value acc s * 10 + (c - b'0')
value-append [] acc c = refl
value-append (d ∷ s) acc c = value-append s (acc * 10 + (d - b'0')) c

last_digit-IsDigit : (n : ℕ) → All IsDigit (last_digit n)
last_digit-IsDigit n = (omega arith, tt)

digits-IsDigit : (fuel n : ℕ) → All IsDigit (digits fuel n)
digits-IsDigit zero n = tt
digits-IsDigit (suc fuel) n = elim (Bool-cases (ltb n 10)) [
  | inl e ↦ rw (e, digits) (last_digit-IsDigit n)
  | inr e ↦
      rw (e, digits)
        (All-append IsDigit (digits fuel (n / 10)) (last_digit n) (digits-IsDigit fuel (n / 10))
          (last_digit-IsDigit n))
]

digits-value : (fuel n : ℕ) → n < fuel → value 0 (digits fuel n) ≡ n
digits-value zero n h = absurd (omega arith)
digits-value (suc fuel) n h = elim (Bool-cases (ltb n 10)) [
  | inl e ↦ rw (e, digits) (ground arith)
  | inr e ↦
      let big : 10 ≤ n = ground arith in
      rw
        (
          e,
          digits,
          value-append (digits fuel (n / 10)) 0 (b'0' + n % 10),
          digits-value fuel (n / 10) (omega arith),
        )
        (omega arith)
]

digits_some : (fuel n : ℕ) → 1 ≤ length (digits (suc fuel) n)
digits_some fuel n = elim (Bool-cases (ltb n 10)) [
  | inl e ↦ rw (e, digits) (omega arith)
  | inr e ↦ rw (e, digits, length-append (digits fuel (n / 10)) (last_digit n)) (omega arith)
]

padded-IsDigit : (w n : ℕ) → All IsDigit (zero_padded w n)
padded-IsDigit zero n = tt
padded-IsDigit (suc w) n =
    All-append IsDigit (zero_padded w (n / 10)) (last_digit n) (padded-IsDigit w (n / 10))
      (last_digit-IsDigit n)

padded-length : (w n : ℕ) → length (zero_padded w n) ≡ w
padded-length zero n = refl
padded-length (suc w) n =
    omega (arith, length-append (zero_padded w (n / 10)) (last_digit n), padded-length w (n / 10))

padded-value : (w n : ℕ) → n < power_of_ten w → value 0 (zero_padded w n) ≡ n
unfolding power_of_ten
padded-value zero n h = omega arith
padded-value (suc w) n h = omega (
  arith,
  value-append (zero_padded w (n / 10)) 0 (b'0' + n % 10),
  padded-value w (n / 10) (omega arith),
)

pub plain_laws : FmtLaws plain_fmt
plain_laws = record {
  decimal_digits = λ n. digits-IsDigit (suc n) n;
  decimal_some = λ n. digits_some n n;
  decimal_value = λ n. digits-value (suc n) n (omega arith);
  padded_digits = λ w n _. padded-IsDigit w n;
  padded_length = λ w n _ _. padded-length w n;
  padded_value = padded-value;
}

-- "-12.5" at two digits behind the point.
abbrev minus_twelve_and_a_half : Numeral
minus_twelve_and_a_half = record {
  negative = true;
  whole = codes "12";
  fraction = some (codes "5");
}

minus_twelve_and_a_half-IsDecimal : IsDecimal 2 minus_twelve_and_a_half
minus_twelve_and_a_half-IsDecimal = record {
  whole_digits = ((omega arith, omega arith), ((omega arith, omega arith), tt));
  whole_some = omega arith;
  fits_scale = (((omega arith, omega arith), tt), omega arith, omega arith);
}

-- The same number as the venue prints it.
abbrev minus_twelve_fifty : Numeral
minus_twelve_fifty = record { negative = true; whole = codes "12"; fraction = some (codes "50") }

minus_twelve_fifty-IsCanonical : IsCanonical plain_fmt plain_laws 2 minus_twelve_fifty
unfolding power_of_ten
minus_twelve_fifty-IsCanonical = record {
  decimal = record {
    whole_digits = ((omega arith, omega arith), ((omega arith, omega arith), tt));
    whole_some = omega arith;
    fits_scale =
        (((omega arith, omega arith), ((omega arith, omega arith), tt)), omega arith, omega arith);
  };
  whole_plain = refl;
  digits = codes "50";
  fraction_is = refl;
  fraction_full = refl;
  sign_needed = λ _. omega arith;
}

read_units : parse_scaled_decimal (codes "-12.50") 2 true ≡ ok (negsuc 1249)
unfolding parse_scaled_decimal neg_ℤ power_of_ten
read_units = refl

parse_scaled_decimal_sound_example :
    (n : Numeral) × (codes "-12.50" ≡ text_of n)
    × IsDecimal 2 n
    × (n.negative ≡ true → true ≡ true)
    × (units_of 2 n ≤ max_i64)
    × (negsuc 1249 ≡ signed n.negative (units_of 2 n))
parse_scaled_decimal_sound_example =
    parse_scaled_decimal_sound (codes "-12.50") 2 true (negsuc 1249) (omega arith) read_units

parse_scaled_decimal-text_of_example :
    parse_scaled_decimal (codes "-12.5") 2 false ≡ failure negative_not_allowed
parse_scaled_decimal-text_of_example =
    parse_scaled_decimal-text_of 2 false minus_twelve_and_a_half (omega arith)
      minus_twelve_and_a_half-IsDecimal

parse_scaled_decimal-format_scaled_decimal_example :
    parse_scaled_decimal (format_scaled_decimal plain_fmt (negsuc 1249) 2) 2 true ≡ ok (negsuc 1249)
parse_scaled_decimal-format_scaled_decimal_example =
    parse_scaled_decimal-format_scaled_decimal plain_fmt plain_laws (negsuc 1249) 2 true
      (omega arith) (omega arith) refl

format_scaled_decimal-parse_scaled_decimal_example :
    format_scaled_decimal plain_fmt (negsuc 1249) 2 ≡ codes "-12.50"
format_scaled_decimal-parse_scaled_decimal_example =
    format_scaled_decimal-parse_scaled_decimal plain_fmt plain_laws 1 minus_twelve_fifty
      (negsuc 1249) (omega arith) minus_twelve_fifty-IsCanonical read_units
