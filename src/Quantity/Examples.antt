-- ===== src/Quantity/Examples.antt =====
-- The theorems on sizes at concrete ones.
use eventbook.Prelude.{◌≡◌, refl, ok, failure, arith}
use eventbook.Prelude.Int.{pos, negsuc, ◌+ℤ◌}
use eventbook.Quantity.{quantity, quantity_delta, would_go_negative, apply_delta}
use eventbook.Quantity.Laws.{apply_delta_exact}

apply_delta_exact_example :
    apply_delta (quantity (pos 500)) (quantity_delta (negsuc 599)) ≡ failure would_go_negative
unfolding ◌+ℤ◌
apply_delta_exact_example =
    apply_delta_exact (quantity (pos 500)) (quantity_delta (negsuc 599)) (omega arith, omega arith)
      (omega arith, omega arith)

three_left :
    apply_delta (quantity (pos 500)) (quantity_delta (negsuc 199)) ≡ ok (quantity (pos 300))
unfolding apply_delta ◌+ℤ◌
three_left = refl
