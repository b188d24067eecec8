-- ===== src/Quantity/Laws.antt =====
-- Sizes: the three outcomes of a change, and the texts of sizes and changes.
use eventbook.Prelude.{◌≤◌, ◌≡◌, refl, true, false, if◌then◌else◌, ok, failure, arith}
use eventbook.Prelude.Int.{pos, ◌+ℤ◌, ◌≤ℤ◌, ltb_ℤ, InRange, max_i64, +ℤ_parts, -ℤ_parts}
use eventbook.Decimal.{Fmt, magnitude}
use eventbook.Decimal.Format.{FmtLaws, parse_scaled_decimal-format_scaled_decimal}
use eventbook.Quantity.{
  Quantity, quantity, QuantityDelta, would_go_negative, overflow, apply_delta, parse_quantity,
  parse_quantity_delta, format_quantity, format_quantity_delta, fractional_digits,
}

-- A resting size: not negative, and an `int64`.
abbrev pub IsSize : Quantity → Type 0
IsSize q = (pos 0 ≤ℤ q.units) × (q.units ≤ℤ pos max_i64)

-- On a resting size and any `int64` change, the answer is decided by the exact sum: below zero,
-- above the largest `int64`, or the sum itself, which is a size again.
pub apply_delta_exact :
    (q : Quantity) (d : QuantityDelta)
    → IsSize q
    → InRange 63 d.units
    → (apply_delta q d ≡ (
        if ltb_ℤ (q.units +ℤ d.units) (pos 0)
        then failure would_go_negative
        else if ltb_ℤ (pos max_i64) (q.units +ℤ d.units)
        then failure overflow
        else ok (quantity (q.units +ℤ d.units))))
unfolding apply_delta
apply_delta_exact q d size range =
    ground (arith, +ℤ_parts q.units d.units, -ℤ_parts (pos max_i64) d.units)

-- A size that comes out of a change is a resting size, and the change is the difference.
pub apply_delta-IsSize :
    (q q' : Quantity) (d : QuantityDelta)
    → IsSize q
    → InRange 63 d.units
    → apply_delta q d ≡ ok q'
    → IsSize q' × (q'.units ≡ q.units +ℤ d.units)
apply_delta-IsSize q q' d size range e = ground (arith, apply_delta_exact q d size range)

-- Every size is read back from its print.
pub parse_quantity-format_quantity :
    (fmt : Fmt) (laws : FmtLaws fmt) (q : Quantity)
    → IsSize q
    → parse_quantity (format_quantity fmt q) ≡ ok q
unfolding parse_quantity format_quantity
parse_quantity-format_quantity fmt laws q size =
    rw
      (parse_scaled_decimal-format_scaled_decimal fmt laws q.units fractional_digits false
        (omega arith) (ground arith) (ground arith))
      refl

-- Every change whose magnitude is at most the largest `int64` is read back from its print.
pub parse_quantity_delta-format_quantity_delta :
    (fmt : Fmt) (laws : FmtLaws fmt) (d : QuantityDelta)
    → magnitude d.units ≤ max_i64
    → parse_quantity_delta (format_quantity_delta fmt d) ≡ ok d
unfolding parse_quantity_delta format_quantity_delta
parse_quantity_delta-format_quantity_delta fmt laws d fits =
    rw
      (parse_scaled_decimal-format_scaled_decimal fmt laws d.units fractional_digits true
        (omega arith) fits (ground arith))
      refl
