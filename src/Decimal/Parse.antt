-- ===== src/Decimal/Parse.antt =====
-- What `parse_scaled_decimal` accepts, and what it returns.
use eventbook.Prelude.{
  ℕ, zero, suc, ◌+◌, ◌-◌, ◌*◌, ◌≤◌, ◌≡◌, ◌≢◌, refl, subst, ap, ◌∙◌, inl, inr, Bool, true, false,
  Option, none, some, [], ◌∷◌, ◌++◌, length, length-append, All, leb, ◌==◌, if◌then◌else◌, Bytes,
  ok, failure, Bool-cases, arith, >>=-eq-ok, append-nil,
}
use eventbook.Prelude.Int.{ℤ, max_i64}
use eventbook.Decimal.{
  overflow, is_digit, power_of_ten, read_integer, shift_up, digit_run, add_fraction, read_point,
  require_digits, shift_value, finish, signed, parse_unsigned, parse_scaled_decimal,
}
use eventbook.Decimal.Spec.{
  IsDigit, value, Numeral, point_of, text_of, FitsScale, IsDecimal, fraction_units, units_of,
  power_of_ten_pos, value_grows, read_fraction-value, fraction_bound,
}

-- The loop over the integer part reads the run of digits, and fails just where the number that they
-- spell does not fit.
pub read_integer-eq :
    (s : Bytes) (v : ℕ)
    → v ≤ max_i64
    → read_integer s v ≡ (
        if leb (value v (digit_run s).0) max_i64
        then ok (value v (digit_run s).0, (digit_run s).1)
        else failure overflow)
unfolding read_integer digit_run
read_integer-eq [] v h = ground arith
read_integer-eq (c ∷ s) v h = ground (
  arith,
  read_integer-eq s (v * 10 + (c - b'0')),
  value_grows (v * 10 + (c - b'0')) (digit_run s).0,
)

scale_assoc : (v p : ℕ) → (v * 10 + 0) * p ≡ v * (p * 10)
scale_assoc v p = grind arith

le-scale : (v p : ℕ) → 1 ≤ p → v * 10 + 0 ≤ v * (p * 10)
le-scale v p h = grind arith

pub shift_up-eq :
    (n v : ℕ)
    → v ≤ max_i64
    → shift_up n v ≡ (if leb (v * power_of_ten n) max_i64 then some (v * power_of_ten n) else none)
unfolding shift_up power_of_ten
shift_up-eq zero v h = ground arith
shift_up-eq (suc n) v h = ground (
  arith,
  shift_up-eq n (v * 10 + 0),
  scale_assoc v (power_of_ten n),
  le-scale v (power_of_ten n) (power_of_ten_pos n),
)

digit_run-split : (s : Bytes) → s ≡ (digit_run s).0 ++ (digit_run s).1
unfolding digit_run
digit_run-split [] = refl
digit_run-split (c ∷ s) = ground (arith, digit_run-split s)

digit_run-digits : (s : Bytes) → All IsDigit (digit_run s).0
unfolding digit_run
digit_run-digits [] = tt
digit_run-digits (c ∷ s) = ground (arith, digit_run-digits s)

-- The text behind the digits begins with no digit.
abbrev pub EndsRun : Bytes → Type 0
EndsRun [] = Unit
EndsRun (c ∷ s) = is_digit c ≡ false

pub digit_run-append :
    (run rest : Bytes) → All IsDigit run → EndsRun rest → digit_run (run ++ rest) ≡ (run, rest)
unfolding digit_run
digit_run-append [] [] h e = refl
digit_run-append [] (c ∷ s) h e = ground arith
digit_run-append (c ∷ s) rest h e = ground (arith, digit_run-append s rest h.1 e)

-- The fraction that the text behind the whole part holds.
abbrev fraction_of : Bytes → Option Bytes
fraction_of [] = none
fraction_of (c ∷ s) = if c == b'.' then some (digit_run s).0 else none

abbrev numeral_of : Bool → Bytes → Numeral
numeral_of negative text = record {
  negative = negative;
  whole = (digit_run text).0;
  fraction = fraction_of (digit_run text).1;
}

add_fraction_sound :
    (k v u : ℕ) (run rest : Bytes)
    → k ≤ 9
    → v ≤ max_i64
    → All IsDigit run
    → add_fraction k v (run, rest) ≡ ok (u, [])
    → FitsScale k (some run) × (rest ≡ []) × (u ≡ v + fraction_units k (some run)) × (u ≤ max_i64)
unfolding add_fraction
add_fraction_sound k v u run rest small h digits e =
    ground (arith, read_fraction-value run 0, fraction_bound k run small digits)

read_point_sound :
    (k v u : ℕ) (t : Bytes)
    → k ≤ 9
    → v ≤ max_i64
    → read_point k (v, t) ≡ ok (u, [])
    → (t ≡ point_of (fraction_of t))
      × FitsScale k (fraction_of t)
      × (u ≡ v + fraction_units k (fraction_of t))
      × (u ≤ max_i64)
unfolding read_point
read_point_sound k v u [] small h e = (refl, tt, ground arith, ground arith)
read_point_sound k v u (c ∷ s) small h e = elim (Bool-cases (c == b'.')) [
  | inl dot ↦
      let found =
        add_fraction_sound k v u (digit_run s).0 (digit_run s).1 small h (digit_run-digits s)
          (rw dot at e) in
      rw dot (ground (arith, found, digit_run-split s, append-nil (digit_run s).0))
  | inr other ↦ rw other (ground arith)
]

read_integer_sound :
    (s : Bytes) (p : ℕ × Bytes)
    → read_integer s 0 ≡ ok p
    → (p.0 ≡ value 0 (digit_run s).0) × (p.1 ≡ (digit_run s).1) × (p.0 ≤ max_i64)
read_integer_sound s p e = ground (arith, read_integer-eq s 0 (omega arith))

shift_value_sound :
    (k : ℕ) (p q : ℕ × Bytes)
    → p.0 ≤ max_i64
    → shift_value k p ≡ ok q
    → (q.0 ≡ p.0 * power_of_ten k) × (q.1 ≡ p.1) × (q.0 ≤ max_i64)
shift_value_sound k p q h e = ground (arith, shift_up-eq k p.0 h)

require_digits_sound :
    (t : Bytes) (p q : ℕ × Bytes)
    → require_digits t p ≡ ok q
    → (q.0 ≡ p.0) × (q.1 ≡ p.1) × (length p.1 ≢ length t)
require_digits_sound t p q e = ground arith

finish_sound :
    (negative : Bool) (p : ℕ × Bytes) (z : ℤ)
    → finish negative p ≡ ok z
    → (p.1 ≡ []) × (z ≡ signed negative p.0)
finish_sound negative (v, []) z e = (refl, ground arith)
finish_sound negative (v, c ∷ s) z e = cc

digit_run_some : (t : Bytes) → length (digit_run t).1 ≢ length t → 1 ≤ length (digit_run t).0
digit_run_some t h =
    ground (arith, ap length (digit_run-split t), length-append (digit_run t).0 (digit_run t).1)

parse_unsigned_sound :
    (t : Bytes) (k : ℕ) (negative : Bool) (z : ℤ)
    → k ≤ 9
    → parse_unsigned t k negative ≡ ok z
    → let n = numeral_of negative t in
      (t ≡ n.whole ++ point_of n.fraction)
      × IsDecimal k n
      × (units_of k n ≤ max_i64)
      × (z ≡ signed negative (units_of k n))
unfolding parse_unsigned
parse_unsigned_sound t k negative z small e =
    let (p, e₁, rest₁) = >>=-eq-ok (read_integer t 0) _ e in
    let (q, e₂, rest₂) = >>=-eq-ok (require_digits t p) _ rest₁ in
    let (r, e₃, rest₃) = >>=-eq-ok (shift_value k q) _ rest₂ in
    let (u, e₄, e₅) = >>=-eq-ok (read_point k r) _ rest₃ in
    let whole = read_integer_sound t p e₁ in
    let some_digits = require_digits_sound t p q e₂ in
    let shifted = shift_value_sound k q r (omega arith) e₃ in
    let ended = finish_sound negative u z e₅ in
    let tail : r.1 ≡ (digit_run t).1 = shifted.1 ∙ some_digits.1 ∙ whole.1 in
    let point =
      read_point_sound k r.0 u.0 r.1 small (omega arith)
        (subst (λ w. read_point k r ≡ ok (u.0, w)) ended.0 e₄) in
    let fits : FitsScale k (fraction_of (digit_run t).1) =
      subst (λ w. FitsScale k (fraction_of w)) tail point.1 in
    let exact : u.0 ≡ units_of k (numeral_of negative t) =
      subst (λ w. u.0 ≡ r.0 + fraction_units k (fraction_of w)) tail point.2
      ∙ ap (λ w. w + fraction_units k (fraction_of (digit_run t).1))
          (shifted.0 ∙ ap (λ w. w * power_of_ten k) (some_digits.0 ∙ whole.0)) in
    (
      digit_run-split t
          ∙ ap (◌++◌ (digit_run t).0) (subst (λ w. w ≡ point_of (fraction_of w)) tail point.0),
      record {
        whole_digits = digit_run-digits t;
        whole_some = digit_run_some t (subst (λ w. length w ≢ length t) whole.1 some_digits.2);
        fits_scale = fits;
      },
      subst (λ w. w ≤ max_i64) exact point.3,
      ended.1 ∙ ap (signed negative) exact,
    )

-- What the parser accepts is a decimal text with no more digits behind the point than the scale
-- has, with a sign only where one is allowed, and the result is exactly the number of units that it
-- stands for: nothing wraps around and nothing is rounded.
pub parse_scaled_decimal_sound :
    (t : Bytes) (k : ℕ) (allow_negative : Bool) (z : ℤ)
    → k ≤ 9
    → parse_scaled_decimal t k allow_negative ≡ ok z
    → (n : Numeral) × (t ≡ text_of n)
      × IsDecimal k n
      × (n.negative ≡ true → allow_negative ≡ true)
      × (units_of k n ≤ max_i64)
      × (z ≡ signed n.negative (units_of k n))
unfolding parse_scaled_decimal
parse_scaled_decimal_sound [] k allow z small e = cc
parse_scaled_decimal_sound (c ∷ s) k allow z small e = elim (Bool-cases (c == b'-')) [
  | inl minus ↦ elim (Bool-cases allow) [
    | inl allowed ↦
        let found = parse_unsigned_sound s k true z small (rw (minus, allowed) at e) in
        (numeral_of true s, ground (arith, found.0), found.1, λ _. allowed, found.2, found.3)
    | inr refused ↦ absurd (ground arith)
  ]
  | inr plain ↦
      let found = parse_unsigned_sound (c ∷ s) k false z small (rw plain at e) in
      (numeral_of false (c ∷ s), found.0, found.1, (λ h. cc), found.2, found.3)
]
