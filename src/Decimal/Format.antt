-- ===== src/Decimal/Format.antt =====
-- `format_scaled_decimal` against the parser.
use native.Mathlib.Nat.{mul-add-div_right, div-eq_of_lt, mul-add-mod_self_right, mod-eq_of_lt}
use eventbook.Prelude.{
  ℕ, zero, suc, ◌+◌, ◌-◌, ◌*◌, ◌/◌, ◌%◌, ◌≤◌, ◌<◌, ◌≡◌, refl, ap, ◌∙◌, subst, sym, Bool, true,
  false, none, some, [], ◌∷◌, ◌++◌, length, All, Bytes, ok, arith, ◌&&◌, not, append-nil,
}
use eventbook.Prelude.Int.{ℤ, pos, negsuc, neg_ℤ, max_i64}
use eventbook.Decimal.{
  Fmt, parse_scaled_decimal, format_scaled_decimal, magnitude, sign_text, power_of_ten, signed,
}
use eventbook.Decimal.Spec.{
  IsDigit, value, Numeral, sign_of, point_of, text_of, FitsScale, IsDecimal, fraction_units,
  units_of, power_of_ten_pos, value_bound,
}
use eventbook.Decimal.Complete.{parse_scaled_decimal-text_of}

-- What the documentation of `fmt` says of `{}` and `{:0{}}` on an unsigned number: decimal digits
-- that spell it, and zeros in front up to the width.
pub record FmtLaws (fmt : Fmt) : Type 0 where
  pub decimal_digits : (n : ℕ) → All IsDigit (fmt.decimal n)
  pub decimal_some : (n : ℕ) → 1 ≤ length (fmt.decimal n)
  pub decimal_value : (n : ℕ) → value 0 (fmt.decimal n) ≡ n
  pub padded_digits : (w n : ℕ) → n < power_of_ten w → All IsDigit (fmt.padded w n)
  pub padded_length : (w n : ℕ) → 1 ≤ w → n < power_of_ten w → length (fmt.padded w n) ≡ w
  pub padded_value : (w n : ℕ) → n < power_of_ten w → value 0 (fmt.padded w n) ≡ n

abbrev pub is_negative : ℤ → Bool
is_negative (pos n) = false
is_negative (negsuc n) = true

signed-magnitude : (z : ℤ) → signed (is_negative z) (magnitude z) ≡ z
unfolding neg_ℤ
signed-magnitude (pos n) = refl
signed-magnitude (negsuc n) = ground arith

sign_text-sign_of : (z : ℤ) → sign_text z ≡ sign_of (is_negative z)
sign_text-sign_of (pos n) = refl
sign_text-sign_of (negsuc n) = refl

mod_bound : (m p : ℕ) → 1 ≤ p → m % p < p
mod_bound m p h = grind arith

div_mod : (m p : ℕ) → 1 ≤ p → m / p * p + m % p ≡ m
div_mod m p h = grind arith

signed_parts :
    (negative : Bool) (u : ℕ)
    → (negative ≡ true → 1 ≤ u)
    → (magnitude (signed negative u) ≡ u) × (sign_text (signed negative u) ≡ sign_of negative)
unfolding neg_ℤ
signed_parts true zero h = absurd (omega (arith, h refl))
signed_parts true (suc u) h = (ground arith, ground arith)
signed_parts false u h = (refl, refl)

full_fraction :
    (k : ℕ) (f : Bytes) → length f ≡ k → value 0 f * power_of_ten (k - length f) ≡ value 0 f
unfolding power_of_ten
full_fraction k f h = let aligned : k - length f ≡ 0 = omega arith in rw aligned (omega arith)

quotient_is : (v p f : ℕ) → f < p → (v * p + f) / p ≡ v
quotient_is v p f h = mul-add-div_right (omega arith) v f ∙ (rw (div-eq_of_lt h) (omega arith))

remainder_is : (v p f : ℕ) → f < p → (v * p + f) % p ≡ f
remainder_is v p f h = mul-add-mod_self_right v p f ∙ mod-eq_of_lt h

-- Two digit texts of one length that spell one number are equal.
value_inj :
    (s t : Bytes) (m n : ℕ)
    → All IsDigit s
    → All IsDigit t
    → length s ≡ length t
    → value m s ≡ value n t
    → (m ≡ n) × (s ≡ t)
value_inj [] [] m n hs ht l e = (e, refl)
value_inj [] (d ∷ t) m n hs ht l e = absurd (omega arith)
value_inj (c ∷ s) [] m n hs ht l e = absurd (omega arith)
value_inj (c ∷ s) (d ∷ t) m n hs ht l e =
    let same =
      value_inj s t (m * 10 + (c - b'0')) (n * 10 + (d - b'0')) hs.1 ht.1 (omega arith) e in
    let head : c ≡ d = omega (arith, same.0) in (omega (arith, same.0), rw (head, same.1))

module _ (fmt : Fmt) (laws : FmtLaws fmt) where
  -- What the formatter prints, as a numeral.
  abbrev printed : ℤ → ℕ → Numeral
  printed z zero = record {
    negative = is_negative z;
    whole = fmt.decimal (magnitude z);
    fraction = none;
  }
  printed z (suc k) = record {
    negative = is_negative z;
    whole = fmt.decimal (magnitude z / power_of_ten (suc k));
    fraction = some (fmt.padded (suc k) (magnitude z % power_of_ten (suc k)));
  }

  format-text_of : (z : ℤ) (k : ℕ) → format_scaled_decimal fmt z k ≡ text_of (printed z k)
  unfolding format_scaled_decimal
  format-text_of z zero = rw (sign_text-sign_of z, append-nil (fmt.decimal (magnitude z)))
  format-text_of z (suc k) = rw (sign_text-sign_of z)

  printed-IsDecimal : (z : ℤ) (k : ℕ) → IsDecimal k (printed z k)
  printed-IsDecimal z zero = record {
    whole_digits = laws.decimal_digits (magnitude z);
    whole_some = laws.decimal_some (magnitude z);
    fits_scale = tt;
  }
  printed-IsDecimal z (suc k) =
      let p = power_of_ten (suc k) in
      let small = mod_bound (magnitude z) p (power_of_ten_pos (suc k)) in
      let width = laws.padded_length (suc k) (magnitude z % p) (omega arith) small in
      record {
        whole_digits = laws.decimal_digits (magnitude z / p);
        whole_some = laws.decimal_some (magnitude z / p);
        fits_scale = (laws.padded_digits (suc k) (magnitude z % p) small, omega arith, omega arith);
      }

  units_of-printed : (z : ℤ) (k : ℕ) → units_of k (printed z k) ≡ magnitude z
  unfolding power_of_ten
  units_of-printed z zero = omega (arith, laws.decimal_value (magnitude z))
  units_of-printed z (suc k) =
      let p = power_of_ten (suc k) in
      let small = mod_bound (magnitude z) p (power_of_ten_pos (suc k)) in
      let width = laws.padded_length (suc k) (magnitude z % p) (omega arith) small in
      let aligned : suc k - length (fmt.padded (suc k) (magnitude z % p)) ≡ 0 = omega arith in
      rw
        (
          laws.decimal_value (magnitude z / p),
          laws.padded_value (suc k) (magnitude z % p) small,
          aligned,
        )
        (omega (arith, div_mod (magnitude z) p (power_of_ten_pos (suc k))))

  printed-negative : (z : ℤ) (k : ℕ) → (printed z k).negative ≡ is_negative z
  printed-negative z zero = refl
  printed-negative z (suc k) = refl

  -- Every value that an `int64` holds, but the smallest, is read back from its print at any scale
  -- of at most nine digits, by a parser that allows the sign that is printed.
  pub parse_scaled_decimal-format_scaled_decimal :
      (z : ℤ) (k : ℕ) (allow_negative : Bool)
      → k ≤ 9
      → magnitude z ≤ max_i64
      → (is_negative z && not allow_negative) ≡ false
      → parse_scaled_decimal (format_scaled_decimal fmt z k) k allow_negative ≡ ok z
  parse_scaled_decimal-format_scaled_decimal z k allow small fits sign =
      rw
        (
          format-text_of z k,
          parse_scaled_decimal-text_of k allow (printed z k) small (printed-IsDecimal z k),
          units_of-printed z k,
          printed-negative z k,
          sign,
        )
        (ground (arith, signed-magnitude z))

  padded_digits_of :
      (w : ℕ) (f : Bytes)
      → All IsDigit f
      → length f ≡ w
      → 1 ≤ w
      → value 0 f < power_of_ten w
      → fmt.padded w (value 0 f) ≡ f
  padded_digits_of w f digits full wide below =
      (value_inj (fmt.padded w (value 0 f)) f 0 0 (laws.padded_digits w (value 0 f) below) digits
        (laws.padded_length w (value 0 f) wide below ∙ sym full)
        (laws.padded_value w (value 0 f) below)).1

  -- A text as the venue writes it: as many digits behind the point as the scale has, a whole part
  -- without spare zeros, and no sign on zero.
  pub record IsCanonical (k : ℕ) (n : Numeral) : Type 0 where
    pub decimal : IsDecimal k n
    pub whole_plain : n.whole ≡ fmt.decimal (value 0 n.whole)
    pub digits : Bytes
    pub fraction_is : n.fraction ≡ some digits
    pub fraction_full : length digits ≡ k
    pub sign_needed : n.negative ≡ true → 1 ≤ units_of k n

  format-units :
      (z : ℤ) (k : ℕ) (whole f : Bytes)
      → All IsDigit f
      → length f ≡ suc k
      → suc k ≤ 9
      → whole ≡ fmt.decimal (value 0 whole)
      → magnitude z ≡ value 0 whole * power_of_ten (suc k) + value 0 f
      → format_scaled_decimal fmt z (suc k) ≡ sign_text z ++ (whole ++ (b'.' ∷ f))
  unfolding format_scaled_decimal
  format-units z k whole f digits full small plain m =
      let p = power_of_ten (suc k) in
      let below : value 0 f < p = omega (arith, value_bound f 0 digits, ap power_of_ten full) in
      let q : magnitude z / p ≡ value 0 whole =
        ap (λ t. t / p) m ∙ quotient_is (value 0 whole) p (value 0 f) below in
      let r : magnitude z % p ≡ value 0 f =
        ap (λ t. t % p) m ∙ remainder_is (value 0 whole) p (value 0 f) below in
      rw (q, r, ← plain, padded_digits_of (suc k) f digits full (omega arith) below)

  -- A text in the form of the venue is printed again as it was read.
  pub format_scaled_decimal-parse_scaled_decimal :
      (k : ℕ) (n : Numeral) (z : ℤ)
      → suc k ≤ 9
      → IsCanonical (suc k) n
      → parse_scaled_decimal (text_of n) (suc k) true ≡ ok z
      → format_scaled_decimal fmt z (suc k) ≡ text_of n
  format_scaled_decimal-parse_scaled_decimal k n z small c e =
      let z_is : z ≡ signed n.negative (units_of (suc k) n) =
        ground (arith, parse_scaled_decimal-text_of (suc k) true n small c.decimal) in
      let f : FitsScale (suc k) (some c.digits) =
        subst (FitsScale (suc k)) c.fraction_is c.decimal.fits_scale in
      let units : units_of (suc k) n ≡ whole_units + value 0 c.digits =
        ap (λ w. whole_units + fraction_units (suc k) w) c.fraction_is
        ∙ ap (λ w. whole_units + w) (full_fraction (suc k) c.digits c.fraction_full) in
      let parts = signed_parts n.negative (units_of (suc k) n) c.sign_needed in
      format-units z k n.whole c.digits f.0 c.fraction_full small c.whole_plain
        (ap magnitude z_is ∙ parts.0 ∙ units)
      ∙ ap (λ w. w ++ (n.whole ++ (b'.' ∷ c.digits))) (ap sign_text z_is ∙ parts.1)
      ∙ ap (λ w. sign_of n.negative ++ (n.whole ++ point_of w)) (sym c.fraction_is)
    where
      whole_units : ℕ
      whole_units = value 0 n.whole * power_of_ten (suc k)
