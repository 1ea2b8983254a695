-- ===== src/Hr/Advances.antt =====
-- packages/core/src/hr/salary-advance-balance.ts: what an employee still owes.
use markaz.Prelude.{ℕ, ◌≡◌, ◌∙◌, List, [], ◌∷◌, ◌++◌, arith}
use markaz.Prelude.Int.{ℤ, pos, ◌+ℤ◌, ◌-ℤ◌, ◌≤ℤ◌, int_laws}
use markaz.Prelude.Sums.{sum_by, sum_from, sum_from-eq, sum_by-append}
use markaz.Decimals.{Decimal, max_ℤ}

-- A salary advance with what payroll deducted and what was paid back.
pub record Advance : Type 0 where
  pub company_id : ℕ
  pub employee_id : ℕ
  pub amount : Decimal
  pub deductions : List Decimal
  pub repayments : List Decimal

pub record AdvanceBalance : Type 0 where
  pub deducted : Decimal
  pub repaid : Decimal
  pub remaining : Decimal

abbrev pub sum : List Decimal → Decimal
sum rows = sum_from (λ r. r) (pos 0) rows

unfoldable pub advance_balance : Advance → AdvanceBalance
advance_balance a =
    let deducted = sum a.deductions in
    let repaid = sum a.repayments in
    record { deducted = deducted; repaid = repaid; remaining = a.amount -ℤ deducted -ℤ repaid }

-- `outstandingAdvanceTotal`, on the rows of the employee.
unfoldable pub outstanding_advance_total : List Advance → Decimal
unfolding advance_balance
outstanding_advance_total = sum_from (λ a. max_ℤ (advance_balance a).remaining (pos 0)) (pos 0)

sum_lem : (rows : List Decimal) → sum rows ≡ sum_by (λ r. r) rows
sum_lem rows = sum_from-eq (λ r. r) (pos 0) rows ∙ omega int_laws

-- The balance accounts for the whole advance.
pub advance_balance_lem :
    (a : Advance)
    → let b = advance_balance a in
      (b.deducted +ℤ b.repaid +ℤ b.remaining ≡ a.amount)
      × (b.deducted ≡ sum_by (λ r. r) a.deductions)
      × (b.repaid ≡ sum_by (λ r. r) a.repayments)
unfolding advance_balance
advance_balance_lem a = (omega int_laws, sum_lem a.deductions, sum_lem a.repayments)

-- `Decimal.max(remaining, 0)` of one advance.
abbrev pub owed : Advance → Decimal
owed a = max_ℤ (advance_balance a).remaining (pos 0)

floor : (x : ℤ) → pos 0 ≤ℤ max_ℤ x (pos 0)
floor x = ground arith

above : (x : ℤ) → x ≤ℤ max_ℤ x (pos 0)
above x = ground arith

all_owed : (rows : List Advance) → pos 0 ≤ℤ sum_by owed rows
all_owed [] = omega int_laws
all_owed (a ∷ rows) = omega (int_laws, all_owed rows, floor (advance_balance a).remaining)

-- What an employee owes over all advances is never negative, and is at least what is left of any one of
-- them.
pub outstanding_advance_total_covers :
    (before after : List Advance) (a : Advance)
    → (pos 0 ≤ℤ outstanding_advance_total (before ++ (a ∷ after)))
      × ((advance_balance a).remaining ≤ℤ outstanding_advance_total (before ++ (a ∷ after)))
unfolding outstanding_advance_total
outstanding_advance_total_covers before after a =
    let all = sum_from-eq owed (pos 0) (before ++ (a ∷ after)) in
    let parts = sum_by-append owed before (a ∷ after) in
    let first = all_owed before in
    let rest = all_owed after in
    let own = floor (advance_balance a).remaining in
    let top = above (advance_balance a).remaining in (omega int_laws, omega int_laws)
