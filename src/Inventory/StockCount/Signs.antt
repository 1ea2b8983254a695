-- ===== src/Inventory/StockCount/Signs.antt =====
-- The signs of the sums of a count.
use markaz.Prelude.{◌≡◌, true, false, arith}
use markaz.Prelude.Int.{ℤ, pos, ◌-ℤ◌, ◌≤ℤ◌}
use markaz.Decimals.{greater_than, less_than, negated}

pub negated_above : (a : ℤ) → less_than a (pos 0) ≡ true → greater_than (negated a) (pos 0) ≡ true
unfolding ◌-ℤ◌
negated_above a h = ground arith

pub difference_below :
    (a b : ℤ) → a ≡ pos 0 → greater_than b (pos 0) ≡ true → less_than (a -ℤ b) (pos 0) ≡ true
unfolding ◌-ℤ◌
difference_below a b h k = ground arith

pub difference_above :
    (a b : ℤ) → b ≡ pos 0 → greater_than a (pos 0) ≡ true → greater_than (a -ℤ b) (pos 0) ≡ true
unfolding ◌-ℤ◌
difference_above a b h k = ground arith

pub no_sign : (a : ℤ) → greater_than a (pos 0) ≡ false → less_than a (pos 0) ≡ false → a ≡ pos 0
no_sign a h k = ground arith

pub not_above : (a : ℤ) → pos 0 ≤ℤ a → greater_than a (pos 0) ≡ false → a ≡ pos 0
not_above a h k = ground arith
