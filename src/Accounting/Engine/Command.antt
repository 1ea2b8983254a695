-- ===== src/Accounting/Engine/Command.antt =====
-- The commands of the accounting engine (packages/core/src/contracts.ts) and what is checked of one
-- before anything is written: `validateShape`, the fiscal period, the accounts.
use markaz.Prelude.{
  ℕ, Bool, true, false, not, ◌&&◌, Option, none, some, List, [], ◌∷◌, ltb, ◌==◌, if◌then◌else◌,
  length,
}
use markaz.Prelude.Int.{pos, ◌+ℤ◌, eq_ℤ}
use markaz.Prelude.Text.{Text, text_eq}
use markaz.Decimals.{Decimal, greater_than}
use markaz.Store.{
  Db, FiscalPeriod, PeriodStatus, period_open, period_closed, period_locked, Account, JournalEntry,
  invalid_posting_command, Result, ok, err, Action, find,
}

pub record JournalLineInput : Type 0 where
  pub account_id : ℕ
  pub debit : Option Decimal
  pub credit : Option Decimal
  pub description : Option Text

-- `{ accountId, debit, description }` and `{ accountId, credit, description }`.
abbrev pub debit_input : ℕ → Decimal → Text → JournalLineInput
debit_input account_id amount description = record {
  account_id = account_id;
  debit = some amount;
  credit = none;
  description = some description;
}

abbrev pub credit_input : ℕ → Decimal → Text → JournalLineInput
credit_input account_id amount description = record {
  account_id = account_id;
  debit = none;
  credit = some amount;
  description = some description;
}

pub record PostingCommand : Type 0 where
  pub company_id : ℕ
  pub fiscal_period_id : ℕ
  pub entry_date : ℕ
  pub posting_date : ℕ
  pub currency : Text
  pub exchange_rate : Option Decimal
  pub lines : List JournalLineInput
  pub source_module : Text
  pub source_document_type : Text
  pub source_document_id : ℕ
  pub actor_id : ℕ
  pub correlation_id : ℕ
  pub idempotency_key : Text

pub record PostingResult : Type 0 where
  pub journal_entry_id : ℕ
  pub number : Text

-- `x ?? "0"`.
abbrev pub or_zero : Option Decimal → Decimal
or_zero none = pos 0
or_zero (some a) = a

-- `x !== undefined && new Decimal(x).greaterThan(0)`.
abbrev pub is_positive : Option Decimal → Bool
is_positive none = false
is_positive (some a) = greater_than a (pos 0)

abbrev pub xor_bool : Bool → Bool → Bool
xor_bool true b = not b
xor_bool false b = b

-- The loop over the lines with the two running totals.
abbrev pub validate_lines : List JournalLineInput → Decimal → Decimal → Result (Decimal × Decimal)
validate_lines [] debit_total credit_total = ok (debit_total, credit_total)
validate_lines (line ∷ lines) debit_total credit_total =
    if xor_bool (is_positive line.debit) (is_positive line.credit)
    then validate_lines lines (debit_total +ℤ or_zero line.debit)
        (credit_total +ℤ or_zero line.credit)
    else err invalid_posting_command

abbrev pub check_totals : Result (Decimal × Decimal) → Result (Unit {0})
check_totals (ok (debit_total, credit_total)) =
    if eq_ℤ debit_total credit_total then ok tt else err invalid_posting_command
check_totals (err e) = err e

unfoldable pub validate_shape : PostingCommand → Result (Unit {0})
validate_shape command =
    if ltb (length command.lines) 2
    then err invalid_posting_command
    else check_totals (validate_lines command.lines (pos 0) (pos 0))

-- A check that reads no table, as a step.
abbrev pub lift : Result (Unit {0}) → Action (Unit {0})
lift (ok u) db = ok (u, db)
lift (err e) db = err e

abbrev pub is_open : PeriodStatus → Bool
is_open period_open = true
is_open period_closed = false
is_open period_locked = false

-- The where of `findUnique` on (company, idempotency key).
abbrev pub has_key : ℕ → Text → JournalEntry → Bool
has_key company_id key e = e.company_id == company_id && text_eq e.idempotency_key key

abbrev pub find_entry : ℕ → Text → Db → Option JournalEntry
find_entry company_id key db = find (has_key company_id key) db.journal_entries

abbrev pub find_period : ℕ → Db → Option FiscalPeriod
find_period id db = find (λ p. p.id == id) db.fiscal_periods

-- The loop over the accounts that the lines name. (The source drops repeated ids first; a second look
-- at an account finds the same.)
abbrev pub is_account_ok : ℕ → Option Account → Bool
is_account_ok company_id none = false
is_account_ok company_id (some a) = (a.company_id == company_id) && (a.is_postable && a.is_active)

abbrev pub accounts_ok : ℕ → Db → List JournalLineInput → Bool
accounts_ok company_id db [] = true
accounts_ok company_id db (line ∷ lines) =
    is_account_ok company_id (find (λ a. a.id == line.account_id) db.accounts)
    && accounts_ok company_id db lines
