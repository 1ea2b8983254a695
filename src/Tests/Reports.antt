-- ===== src/Tests/Reports.antt =====
-- The reports on a ledger of four accounts.
use markaz.Prelude.{◌≡◌, refl, inl, inr, true, [], ◌∷◌}
use markaz.Prelude.Int.{pos, negsuc, ◌+ℤ◌, ◌-ℤ◌}
use markaz.Prelude.Text.{codes}
use markaz.Store.{asset_account, liability_account, revenue_account, expense_account}
use markaz.Accounting.TrialBalance.{PeriodRow, build_period_trial_balance}
use markaz.Accounting.TrialBalance.Laws.{
  Shows, build_period_trial_balance_balanced, build_period_trial_balance-Shows,
}
use markaz.Accounting.Statements.{
  RawRow, debit_balance, credit_balance, compute_revenue_and_expense, income_statement,
  balance_sheet,
}
use markaz.Accounting.Statements.Laws.{balance_sheet_balanced}

abbrev cash_row : PeriodRow
cash_row = record {
  account_id = 10;
  account_code = codes "1000";
  account_name = codes "Cash";
  account_type = asset_account;
  opening_net = pos 500;
  movement_debit = pos 30;
  movement_credit = pos 0;
}

abbrev loan_row : PeriodRow
loan_row = record cash_row {
  account_id = 20;
  account_code = codes "2000";
  account_name = codes "Loan";
  account_type = liability_account;
  opening_net = negsuc 499;
  movement_debit = pos 0;
  movement_credit = pos 30;
}

build_period_trial_balance_balanced_example :
    (build_period_trial_balance (cash_row ∷ loan_row ∷ []) 1 31).is_balanced ≡ true
unfolding ◌+ℤ◌
build_period_trial_balance_balanced_example =
    build_period_trial_balance_balanced (cash_row ∷ loan_row ∷ []) 1 31 refl refl

build_period_trial_balance-Shows_example :
    Shows
      (cash_row ∷ loan_row ∷ [])
      (build_period_trial_balance (cash_row ∷ loan_row ∷ []) 1 31).lines
build_period_trial_balance-Shows_example =
    build_period_trial_balance-Shows (cash_row ∷ loan_row ∷ []) 1 31

abbrev bank : RawRow
bank = record {
  account_id = 10;
  code = codes "1000";
  name = codes "Bank";
  type = asset_account;
  normal_balance = debit_balance;
  debit_total = pos 900;
  credit_total = pos 100;
}

abbrev payable : RawRow
payable = record bank {
  account_id = 20;
  type = liability_account;
  normal_balance = credit_balance;
  debit_total = pos 0;
  credit_total = pos 300;
}

abbrev sales : RawRow
sales = record bank {
  account_id = 40;
  type = revenue_account;
  normal_balance = credit_balance;
  debit_total = pos 0;
  credit_total = pos 700;
}

abbrev rent : RawRow
rent = record bank {
  account_id = 50;
  type = expense_account;
  debit_total = pos 200;
  credit_total = pos 0;
}

balance_sheet_balanced_example :
    (balance_sheet (bank ∷ payable ∷ []) (sales ∷ rent ∷ []) 31).is_balanced ≡ true
unfolding ◌+ℤ◌ ◌-ℤ◌
balance_sheet_balanced_example =
    balance_sheet_balanced (bank ∷ payable ∷ []) (sales ∷ rent ∷ []) 31
      ((refl, inl refl), ((refl, inr (inl refl)), tt)) refl

income_statement_run : (income_statement (sales ∷ rent ∷ []) 1 31).net_income ≡ pos 500
unfolding income_statement compute_revenue_and_expense ◌+ℤ◌ ◌-ℤ◌
income_statement_run = refl
