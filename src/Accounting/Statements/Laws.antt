-- ===== src/Accounting/Statements/Laws.antt =====
-- What the statements show of a balanced ledger.
use markaz.Prelude.{ℕ, ◌≡◌, ◌∙◌, ap, ◌⊎◌, inl, inr, true, List, [], ◌∷◌, arith, All, Bool-cases}
use markaz.Prelude.Int.{ℤ, pos, ◌+ℤ◌, ◌-ℤ◌, int_laws, eq_ℤ_refl}
use markaz.Prelude.Sums.{sum_by}
use markaz.Store.{AccountType, asset_account, liability_account, equity_account}
use markaz.Accounting.Statements.{
  NormalBalance, debit_balance, credit_balance, normal_balance_for, RawRow,
  compute_revenue_and_expense, Sections, push_by_type, signed, is_revenue, balance_sheet_loop,
  balance_sheet,
}

-- Debits less credits of the rows.
abbrev pub debit_less_credit : List RawRow → ℤ
debit_less_credit = sum_by (λ r. r.debit_total -ℤ r.credit_total)

-- Net income is what the rows hold more in credit than in debit.
pub compute_revenue_and_expense_lem :
    (rows : List RawRow)
    → (compute_revenue_and_expense rows).net_income ≡ pos 0 -ℤ debit_less_credit rows
unfolding compute_revenue_and_expense
compute_revenue_and_expense_lem [] = omega int_laws
compute_revenue_and_expense_lem (row ∷ rows) =
    let ih = compute_revenue_and_expense_lem rows in
    elim (Bool-cases (is_revenue row.type)) [
      | inl revenue ↦ rw revenue (omega int_laws)
      | inr expense ↦ rw expense (omega int_laws)
    ]

-- The account carries the normal balance of its type, and the query gives only these types.
abbrev pub IsBalanceSheetRow : RawRow → Type 0
IsBalanceSheetRow row =
    (row.normal_balance ≡ normal_balance_for row.type)
    × ((row.type ≡ asset_account) ⊎ (row.type ≡ liability_account) ⊎ (row.type ≡ equity_account))

abbrev gap : Sections → ℤ
gap s = s.assets.total -ℤ s.liabilities.total -ℤ s.equity.total

push_by_type-gap :
    (type : AccountType) (normal : NormalBalance) (row : RawRow) (s : Sections)
    → normal ≡ normal_balance_for type
    → (type ≡ asset_account) ⊎ (type ≡ liability_account) ⊎ (type ≡ equity_account)
    → gap (push_by_type type row (signed normal row.debit_total row.credit_total) s)
      ≡ (row.debit_total -ℤ row.credit_total) +ℤ gap s
push_by_type-gap asset_account debit_balance row s n t = omega int_laws
push_by_type-gap liability_account credit_balance row s n t = omega int_laws
push_by_type-gap equity_account credit_balance row s n t = omega int_laws
push_by_type-gap type normal row s n t = absurd (ground arith)

balance_sheet_loop_lem :
    (rows : List RawRow)
    → All IsBalanceSheetRow rows
    → gap (balance_sheet_loop rows) ≡ debit_less_credit rows
balance_sheet_loop_lem [] h = omega int_laws
balance_sheet_loop_lem (row ∷ rows) h =
    push_by_type-gap row.type row.normal_balance row (balance_sheet_loop rows) h.0.0 h.0.1
    ∙ ap (◌+ℤ◌ (row.debit_total -ℤ row.credit_total)) (balance_sheet_loop_lem rows h.1)

-- The balance sheet balances whenever the ledger does: debits and credits over the balance-sheet rows
-- and the revenue and expense rows together cancel, each account with the normal balance of its type.
pub balance_sheet_balanced :
    (rows earnings_rows : List RawRow) (today : ℕ)
    → All IsBalanceSheetRow rows
    → debit_less_credit rows +ℤ debit_less_credit earnings_rows ≡ pos 0
    → (balance_sheet rows earnings_rows today).is_balanced ≡ true
unfolding balance_sheet
balance_sheet_balanced rows earnings_rows today h even =
    let net = compute_revenue_and_expense_lem earnings_rows in
    let sheet = balance_sheet_loop_lem rows h in
    let s = balance_sheet_loop rows in
    let e = (compute_revenue_and_expense earnings_rows).net_income in
    let same : s.assets.total ≡ s.liabilities.total +ℤ (s.equity.total +ℤ e) = omega int_laws in
    rw same (eq_ℤ_refl (s.liabilities.total +ℤ (s.equity.total +ℤ e)))
