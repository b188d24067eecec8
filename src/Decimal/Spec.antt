-- ===== src/Decimal/Spec.antt =====
-- The decimal texts that src/common/decimal.cpp reads, described without the parser.
use native.Mathlib.Nat.{pow-suc, suc-add, zero-add}
use eventbook.Prelude.{
  ℕ, zero, suc, ◌+◌, ◌-◌, ◌*◌, ◌^◌, ◌≤◌, ◌<◌, ◌≡◌, refl, ap, Bool, true, false, Option, none, some,
  [], ◌∷◌, ◌++◌, length, All, Bytes, arith,
}
use eventbook.Decimal.{power_of_ten, read_fraction}

abbrev pub IsDigit : ℕ → Type 0
IsDigit c = (b'0' ≤ c) × (c ≤ b'9')

-- The number that digits spell behind `acc`, with no bound.
abbrev pub value : ℕ → Bytes → ℕ
value acc [] = acc
value acc (c ∷ s) = value (acc * 10 + (c - b'0')) s

-- A sign, a whole part, and digits behind a point.
pub record Numeral : Type 0 where
  pub negative : Bool
  pub whole : Bytes
  pub fraction : Option Bytes

abbrev pub sign_of : Bool → Bytes
sign_of true = b'-' ∷ []
sign_of false = []

abbrev pub point_of : Option Bytes → Bytes
point_of none = []
point_of (some f) = b'.' ∷ f

abbrev pub text_of : Numeral → Bytes
text_of n = sign_of n.negative ++ (n.whole ++ point_of n.fraction)

abbrev pub FitsScale : ℕ → Option Bytes → Type 0
FitsScale k none = Unit
FitsScale k (some f) = All IsDigit f × (1 ≤ length f) × (length f ≤ k)

-- At least one digit before a point; behind it from one digit to as many as the scale has.
pub record IsDecimal (k : ℕ) (n : Numeral) : Type 0 where
  pub whole_digits : All IsDigit n.whole
  pub whole_some : 1 ≤ length n.whole
  pub fits_scale : FitsScale k n.fraction

abbrev pub fraction_units : ℕ → Option Bytes → ℕ
fraction_units k none = 0
fraction_units k (some f) = value 0 f * power_of_ten (k - length f)

-- The units that a numeral stands for, without its sign.
abbrev pub units_of : ℕ → Numeral → ℕ
units_of k n = value 0 n.whole * power_of_ten k + fraction_units k n.fraction

pub power_of_ten-eq : (k : ℕ) → power_of_ten k ≡ 10 ^ k
unfolding power_of_ten
power_of_ten-eq zero = refl
power_of_ten-eq (suc k) = omega (arith, power_of_ten-eq k, pow-suc 10 k)

pub power_of_ten_pos : (k : ℕ) → 1 ≤ power_of_ten k
unfolding power_of_ten
power_of_ten_pos zero = omega arith
power_of_ten_pos (suc k) = omega (arith, power_of_ten_pos k)

pub value_grows : (acc : ℕ) (digits : Bytes) → acc ≤ value acc digits
value_grows acc [] = omega arith
value_grows acc (d ∷ digits) = omega (arith, value_grows (acc * 10 + (d - b'0')) digits)

pub read_fraction-value : (s : Bytes) (n : ℕ) → read_fraction n s ≡ value n s
unfolding read_fraction
read_fraction-value [] n = refl
read_fraction-value (c ∷ s) n = read_fraction-value s (n * 10 + (c - b'0'))

-- NumberText spell a number below the power of ten of their count.
pub value_bound :
    (s : Bytes) (n : ℕ) → All IsDigit s → suc (value n s) ≤ suc n * power_of_ten (length s)
unfolding power_of_ten
value_bound [] n h = omega arith
value_bound (c ∷ s) n (hc, hs) =
    let ih = value_bound s (n * 10 + (c - b'0')) hs in grind (arith, power_of_ten_pos (length s))

power_of_ten-add : (a b : ℕ) → power_of_ten (a + b) ≡ power_of_ten a * power_of_ten b
unfolding power_of_ten
power_of_ten-add zero b = rw (zero-add b) (omega arith)
power_of_ten-add (suc a) b =
    rw (suc-add a b) (omega (arith, ap (λ (t : ℕ). t * 10) (power_of_ten-add a b)))

power_of_ten_mono : (a b : ℕ) → a ≤ b → power_of_ten a ≤ power_of_ten b
power_of_ten_mono a b h =
    let split : b ≡ a + (b - a) = omega arith in
    rw (split, power_of_ten-add a (b - a)) (grind (arith, power_of_ten_pos (b - a)))

product_bound : (v p q : ℕ) → suc v ≤ p → 1 ≤ q → suc (v * q) ≤ p * q
product_bound v p q h k = grind arith

-- A fraction is below one whole unit, so at a scale of at most nine digits it is small.
pub fraction_bound :
    (k : ℕ) (f : Bytes)
    → k ≤ 9
    → All IsDigit f
    → length f ≤ k
    → (value 0 f * power_of_ten (k - length f) < power_of_ten k) × (power_of_ten k ≤ 10 ^ 9)
fraction_bound k f small digits fits =
    let split : k ≡ length f + (k - length f) = omega arith in
    (
      omega (
        arith,
        product_bound (value 0 f) (power_of_ten (length f)) (power_of_ten (k - length f))
            (omega (arith, value_bound f 0 digits)) (power_of_ten_pos (k - length f)),
        power_of_ten-add (length f) (k - length f),
        ap power_of_ten split,
      ),
      omega (arith, power_of_ten_mono k 9 small, power_of_ten-eq 9),
    )
