-- ===== src/Accounting/Statements.antt =====
-- packages/core/src/accounting/revenue-expense.util.ts, balance-sheet.service.ts and
-- income-statement.service.ts: the statements built from one row of totals for each account. Amounts
-- are the integers that `toScaledBigInt` reads and `fromScaledBigInt` prints (DecimalSum).
pub mod Laws
use markaz.Prelude.{ℕ, ◌≡◌, Bool, true, false, List, [], ◌∷◌, arith, if◌then◌else◌}
use markaz.Prelude.Int.{ℤ, pos, ◌+ℤ◌, ◌-ℤ◌, eq_ℤ}
use markaz.Prelude.Text.{Text}
use markaz.Store.{
  AccountType, asset_account, liability_account, equity_account, revenue_account, expense_account,
}

pub data NormalBalance : Type 0 where
  debit_balance credit_balance : NormalBalance

-- `normalBalanceFor` of chart-of-accounts.service.ts.
abbrev pub normal_balance_for : AccountType → NormalBalance
normal_balance_for asset_account = debit_balance
normal_balance_for expense_account = debit_balance
normal_balance_for liability_account = credit_balance
normal_balance_for equity_account = credit_balance
normal_balance_for revenue_account = credit_balance

-- A row of the queries: an account with the sums of its base amounts.
pub record RawRow : Type 0 where
  pub account_id : ℕ
  pub code : Text
  pub name : Text
  pub type : AccountType
  pub normal_balance : NormalBalance
  pub debit_total : ℤ
  pub credit_total : ℤ

-- A line of a report. (RevenueExpenseAccountRow also repeats the type, which is that of its list.)
pub record StatementLine : Type 0 where
  pub account_id : ℕ
  pub account_code : Text
  pub account_name : Text
  pub amount : ℤ

pub record Section : Type 0 where
  pub lines : List StatementLine
  pub total : ℤ

abbrev pub line_of : RawRow → ℤ → StatementLine
line_of row amount = record {
  account_id = row.account_id;
  account_code = row.code;
  account_name = row.name;
  amount = amount;
}

-- `lines.push(line); total += amount`, read from the end of the loop: the loop over the rows after this
-- one has filled `s`.
abbrev pub push : RawRow → ℤ → Section → Section
push row amount s = record { lines = line_of row amount ∷ s.lines; total = amount +ℤ s.total }

abbrev pub empty_section : Section
empty_section = record { lines = []; total = pos 0 }

pub record RevenueExpenseTotals : Type 0 where
  pub revenue : Section
  pub expense : Section
  pub net_income : ℤ

abbrev pub is_revenue : AccountType → Bool
is_revenue revenue_account = true
is_revenue _ = false

abbrev pub revenue_expense_loop : List RawRow → Section × Section
revenue_expense_loop [] = (empty_section, empty_section)
revenue_expense_loop (row ∷ rows) =
    let (revenue, expense) = revenue_expense_loop rows in
    if is_revenue row.type
    then (push row (row.credit_total -ℤ row.debit_total) revenue, expense)
    else (revenue, push row (row.debit_total -ℤ row.credit_total) expense)

-- computeRevenueAndExpense, on the rows of its query.
unfoldable pub compute_revenue_and_expense : List RawRow → RevenueExpenseTotals
compute_revenue_and_expense rows =
    let (revenue, expense) = revenue_expense_loop rows in
    record { revenue = revenue; expense = expense; net_income = revenue.total -ℤ expense.total }

pub record IncomeStatementResult : Type 0 where
  pub from : ℕ
  pub to : ℕ
  pub revenue : Section
  pub expense : Section
  pub net_income : ℤ

unfoldable pub income_statement : List RawRow → ℕ → ℕ → IncomeStatementResult
unfolding compute_revenue_and_expense
income_statement rows from to =
    let totals = compute_revenue_and_expense rows in
    record {
      from = from;
      to = to;
      revenue = totals.revenue;
      expense = totals.expense;
      net_income = totals.net_income;
    }

-- The amount of an account on its normal side.
abbrev pub signed : NormalBalance → ℤ → ℤ → ℤ
signed debit_balance debit credit = debit -ℤ credit
signed credit_balance debit credit = credit -ℤ debit

pub record Sections : Type 0 where
  pub assets : Section
  pub liabilities : Section
  pub equity : Section

-- The branch of the loop that the type of the account takes.
abbrev pub push_by_type : AccountType → RawRow → ℤ → Sections → Sections
push_by_type asset_account row net s = record s { assets = push row net s.assets }
push_by_type liability_account row net s = record s { liabilities = push row net s.liabilities }
push_by_type _ row net s = record s { equity = push row net s.equity }

abbrev pub balance_sheet_loop : List RawRow → Sections
balance_sheet_loop [] = record {
  assets = empty_section;
  liabilities = empty_section;
  equity = empty_section;
}
balance_sheet_loop (row ∷ rows) =
    push_by_type row.type row (signed row.normal_balance row.debit_total row.credit_total)
      (balance_sheet_loop rows)

pub record BalanceSheetResult : Type 0 where
  pub as_of : ℕ
  pub assets : Section
  pub liabilities : Section
  pub equity : Section
  pub current_year_earnings : ℤ
  pub total_equity : ℤ
  pub total_liabilities_and_equity : ℤ
  pub is_balanced : Bool

-- `compute`, on the rows of its own query, those of computeRevenueAndExpense, and the date of today.
pub balance_sheet : List RawRow → List RawRow → ℕ → BalanceSheetResult
unfolding compute_revenue_and_expense
balance_sheet rows earnings_rows today =
    let s = balance_sheet_loop rows in
    let current_earnings = (compute_revenue_and_expense earnings_rows).net_income in
    let total_equity = s.equity.total +ℤ current_earnings in
    record {
      as_of = today;
      assets = s.assets;
      liabilities = s.liabilities;
      equity = s.equity;
      current_year_earnings = current_earnings;
      total_equity = total_equity;
      total_liabilities_and_equity = s.liabilities.total +ℤ total_equity;
      is_balanced = eq_ℤ s.assets.total (s.liabilities.total +ℤ total_equity);
    }
