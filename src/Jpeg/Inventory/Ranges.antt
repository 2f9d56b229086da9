-- ===== src/Jpeg/Inventory/Ranges.antt =====
-- The containment test of a byte range.
use jpg_spinner.Prelude.{ℕ, ◌≤◌, ◌≡◌, ◌↔◌, true, arith}
use jpg_spinner.Jpeg.Inventory.{EncodedByteRange, end_of, is_contained_within}

-- The test, which adds no operands, answers true exactly when the range ends within the `n` bytes.
pub is_contained_within_iff :
    (r : EncodedByteRange) (n : ℕ) → (is_contained_within r n ≡ true) ↔ (end_of r ≤ n)
unfolding is_contained_within
is_contained_within_iff r n = (λ h. ground arith, λ h. ground arith)
