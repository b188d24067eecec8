-- ===== src/Time/Fraction.antt =====
-- The digits behind the second.
use eventbook.Prelude.{
  ℕ, zero, suc, ◌+◌, ◌-◌, ◌*◌, ◌^◌, ◌≤◌, ◌<◌, ◌≡◌, [], ◌∷◌, length, All, Bytes, arith,
}
use eventbook.Decimal.{power_of_ten}
use eventbook.Decimal.Spec.{IsDigit, value, value_bound, power_of_ten_pos, power_of_ten-eq}
use eventbook.Time.{kept_micros, kept_fractional_digits}

value_low : (s : Bytes) (n : ℕ) → n * power_of_ten (length s) ≤ value n s
unfolding power_of_ten
value_low [] n = omega arith
value_low (c ∷ s) n =
    let ih = value_low s (n * 10 + (c - b'0')) in grind (arith, power_of_ten_pos (length s))

times_ten : (p q : ℕ) → p ≤ q → p * 10 ≤ q * 10
times_ten p q h = omega arith

kept_micros_bounds :
    (n micros : ℕ) (f : Bytes)
    → All IsDigit f
    → (kept_micros n micros f * power_of_ten (length f) ≤ value micros f * power_of_ten n)
      × (value micros f * power_of_ten n < suc (kept_micros n micros f) * power_of_ten (length f))
unfolding kept_micros power_of_ten
kept_micros_bounds zero micros f h =
    (omega (arith, value_low f micros), omega (arith, value_bound f micros h))
kept_micros_bounds (suc n) micros [] h =
    let ih = kept_micros_bounds n (micros * 10) [] tt in (grind arith, grind arith)
kept_micros_bounds (suc n) micros (c ∷ f) h =
    let ih = kept_micros_bounds n (micros * 10 + (c - b'0')) f h.1 in (grind arith, grind arith)

-- The microseconds read from a fraction of any length are the fraction cut off, not rounded: as a
-- number of seconds they are at most the fraction, and one more would be above it.
pub kept_micros-value :
    (f : Bytes)
    → All IsDigit f
    → let kept = kept_micros kept_fractional_digits 0 f in
      (kept * 10 ^ length f ≤ value 0 f * 1_000_000)
      × (value 0 f * 1_000_000 < suc kept * 10 ^ length f)
kept_micros-value f h =
    let million : power_of_ten 6 ≡ 1_000_000 = omega (arith, power_of_ten-eq 6) in
    rw (← power_of_ten-eq (length f), ← million) (kept_micros_bounds 6 0 f h)
