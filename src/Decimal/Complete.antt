-- ===== src/Decimal/Complete.antt =====
-- The answer of `parse_scaled_decimal` on every decimal text.
use eventbook.Prelude.{
  ℕ, ◌+◌, ◌*◌, ◌≤◌, ◌≡◌, refl, ap, ◌∙◌, sym, inl, inr, Bool, true, false, Option, none, some, [],
  ◌∷◌, ◌++◌, length, length-append, All, leb, ◌==◌, if◌then◌else◌, Bytes, ok, failure, Bool-cases,
  arith, append-nil, ◌>>=◌, or_fail, ◌&&◌, not,
}
use eventbook.Prelude.Int.{max_i64}
use eventbook.Decimal.{
  overflow, negative_not_allowed, read_integer, digit_run, add_fraction, read_point, finish, signed,
  parse_unsigned, parse_scaled_decimal, power_of_ten,
}
use eventbook.Decimal.Spec.{
  IsDigit, value, Numeral, sign_of, point_of, text_of, FitsScale, IsDecimal, fraction_units,
  units_of, power_of_ten_pos, read_fraction-value, fraction_bound,
}
use eventbook.Decimal.Parse.{read_integer-eq, shift_up-eq, digit_run-append, EndsRun}

point_of-EndsRun : (f : Option Bytes) → EndsRun (point_of f)
point_of-EndsRun none = tt
point_of-EndsRun (some f) = refl

-- The last step over the optional fraction.
read_point-eq :
    (k v : ℕ) (f : Option Bytes)
    → k ≤ 9
    → v ≤ max_i64
    → FitsScale k f
    → read_point k (v, point_of f) ≡ (
        if leb (v + fraction_units k f) max_i64
        then ok (v + fraction_units k f, [])
        else failure overflow)
unfolding read_point
read_point-eq k v none small h fits = ground arith
read_point-eq k v (some f) small h fits =
    let run : digit_run f ≡ (f, []) =
      ap digit_run (sym (append-nil f)) ∙ digit_run-append f [] fits.0 tt in
    rw (run, read_point)
      (unfold add_fraction in
        ground (arith, read_fraction-value f 0, fraction_bound k f small fits.0 fits.2))

le-scaled : (v p : ℕ) → 1 ≤ p → v ≤ v * p
le-scaled v p h = grind arith

module _ (k : ℕ) (negative : Bool) (n : Numeral) (small : k ≤ 9) (d : IsDecimal k n) where
  abbrev whole_value : ℕ
  whole_value = value 0 n.whole

  read_whole : read_integer (n.whole ++ point_of n.fraction) 0 ≡ (
      if leb whole_value max_i64 then ok (whole_value, point_of n.fraction) else failure overflow)
  read_whole = ground (
    arith,
    read_integer-eq (n.whole ++ point_of n.fraction) 0 (omega arith),
    digit_run-append n.whole (point_of n.fraction) d.whole_digits (point_of-EndsRun n.fraction),
  )

  digits_present : (length (point_of n.fraction) == length (n.whole ++ point_of n.fraction)) ≡ false
  digits_present = ground (arith, length-append n.whole (point_of n.fraction), d.whole_some)

  after_shift :
      (or_fail
            (if leb (whole_value * power_of_ten k) max_i64
              then some (whole_value * power_of_ten k)
              else none)
            overflow
          >>= λ v. ok (v, point_of n.fraction))
        >>= (λ scaled. read_point k scaled >>= finish negative)
      ≡ (if leb (units_of k n) max_i64
          then ok (signed negative (units_of k n))
          else failure overflow)
  after_shift = elim (Bool-cases (leb (whole_value * power_of_ten k) max_i64)) [
    | inl fits ↦
        rw
          (
            fits,
            read_point-eq k (whole_value * power_of_ten k) n.fraction small (ground arith)
                d.fits_scale,
          )
          (ground arith)
    | inr big ↦ rw big (ground arith)
  ]

  parse_unsigned-eq : parse_unsigned (n.whole ++ point_of n.fraction) k negative ≡ (
      if leb (units_of k n) max_i64 then ok (signed negative (units_of k n)) else failure overflow)
  unfolding parse_unsigned
  parse_unsigned-eq = elim (Bool-cases (leb whole_value max_i64)) [
    | inl fits ↦
        rw (read_whole, fits, digits_present, shift_up-eq k whole_value (ground arith)) after_shift
    | inr big ↦
        rw (read_whole, big)
          (ground (arith, le-scaled whole_value (power_of_ten k) (power_of_ten_pos k)))
  ]

sign_free :
    (w : Bytes) (f : Option Bytes) (k : ℕ) (allow_negative : Bool)
    → All IsDigit w
    → 1 ≤ length w
    → parse_scaled_decimal (w ++ point_of f) k allow_negative
      ≡ parse_unsigned (w ++ point_of f) k false
unfolding parse_scaled_decimal
sign_free [] f k allow digits h = absurd (omega arith)
sign_free (c ∷ w) f k allow digits h = ground arith

behind_minus :
    (s : Bytes) (k : ℕ) (allow_negative : Bool)
    → parse_scaled_decimal (b'-' ∷ s) k allow_negative
      ≡ (if allow_negative then parse_unsigned s k true else failure negative_not_allowed)
unfolding parse_scaled_decimal
behind_minus s k allow = refl

signed-text_of :
    (k : ℕ) (allow_negative negative : Bool) (n : Numeral)
    → k ≤ 9
    → IsDecimal k n
    → parse_scaled_decimal (sign_of negative ++ (n.whole ++ point_of n.fraction)) k allow_negative
      ≡ (if negative && not allow_negative
          then failure negative_not_allowed
          else if leb (units_of k n) max_i64
          then ok (signed negative (units_of k n))
          else failure overflow)
signed-text_of k true true n small d = behind_minus _ k true ∙ parse_unsigned-eq k true n small d
signed-text_of k false true n small d = behind_minus _ k false
signed-text_of k allow false n small d =
    sign_free n.whole n.fraction k allow d.whole_digits d.whole_some
    ∙ parse_unsigned-eq k false n small d

-- On every decimal text that fits the scale the parser answers with the exact number of units, or
-- with `overflow` where that number is above the largest `int64`; a sign that is not allowed is
-- refused. So nothing that fits is turned away.
pub parse_scaled_decimal-text_of :
    (k : ℕ) (allow_negative : Bool) (n : Numeral)
    → k ≤ 9
    → IsDecimal k n
    → parse_scaled_decimal (text_of n) k allow_negative ≡ (
        if n.negative && not allow_negative
        then failure negative_not_allowed
        else if leb (units_of k n) max_i64
        then ok (signed n.negative (units_of k n))
        else failure overflow)
parse_scaled_decimal-text_of k allow n small d = signed-text_of k allow n.negative n small d
