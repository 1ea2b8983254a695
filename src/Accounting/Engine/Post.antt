-- ===== src/Accounting/Engine/Post.antt =====
-- `postEntry`, `reverseEntry` and the fiscal period of a date.
use markaz.Prelude.{ℕ, suc, ◌+◌, ◌&&◌, Option, none, some, List, [], ◌∷◌, leb, ◌==◌, length}
use markaz.Prelude.Text.{Text}
use markaz.Decimals.{Decimal, Arithmetic, one}
use markaz.Store.{
  Db, ok, FiscalPeriod, JournalEntry, JournalEntryLine, invalid_posting_command,
  account_not_postable, fiscal_period_not_found, Action, ◌>>=◌, ◌>>◌, pure, or_throw, gets, modify,
  require, new_id, find,
}
use markaz.Accounting.Numbering.{next}
use markaz.Accounting.Engine.Command.{
  JournalLineInput, PostingCommand, PostingResult, or_zero, validate_shape, lift, is_open,
  find_entry, find_period, accounts_ok,
}
use markaz.Accounting.Engine.Constraints.{transaction, insert_entry, insert_lines}

-- findOpenFiscalPeriod.
abbrev pub find_open_fiscal_period : ℕ → ℕ → Db → Option FiscalPeriod
find_open_fiscal_period company_id date db =
    find
      (λ p.
        (p.company_id == company_id)
        && (is_open p.status && (leb p.start_date date && leb date p.end_date)))
      db.fiscal_periods

-- The period of the command, or the error of the check that it fails.
unfoldable pub posting_period : PostingCommand → Action FiscalPeriod
posting_period command = do
  db ← gets λ db. db
  period ← or_throw (find_period command.fiscal_period_id db) fiscal_period_not_found
  require (period.company_id == command.company_id) fiscal_period_not_found
  require (is_open period.status) invalid_posting_command
  pure period

module _ (m : Arithmetic) where
  open m use {times, column4}

  abbrev pub rate_of : Option Decimal → Decimal
  rate_of none = one m
  rate_of (some r) = r

  -- One row of `createMany`, as its columns store it.
  abbrev pub line_row : ℕ → Decimal → ℕ → ℕ → JournalLineInput → JournalEntryLine
  line_row entry_id rate id line_number line = record {
    id = id;
    journal_entry_id = entry_id;
    account_id = line.account_id;
    debit = column4 (or_zero line.debit);
    credit = column4 (or_zero line.credit);
    base_debit = column4 (times (or_zero line.debit) rate);
    base_credit = column4 (times (or_zero line.credit) rate);
    description = line.description;
    line_number = line_number;
  }

  -- The rows of the lines from index `line_number - 1` on, with ids from `id` on.
  abbrev pub line_rows : ℕ → Decimal → ℕ → ℕ → List JournalLineInput → List JournalEntryLine
  line_rows entry_id rate id line_number [] = []
  line_rows entry_id rate id line_number (line ∷ lines) =
      line_row entry_id rate id line_number line
      ∷ line_rows entry_id rate (suc id) (suc line_number) lines

  abbrev pub posted_entry : PostingCommand → ℕ → Text → JournalEntry
  posted_entry command id number = record {
    id = id;
    company_id = command.company_id;
    fiscal_period_id = command.fiscal_period_id;
    number = number;
    entry_date = command.entry_date;
    posting_date = command.posting_date;
    currency = command.currency;
    exchange_rate = command.exchange_rate;
    source_module = command.source_module;
    source_document_type = command.source_document_type;
    source_document_id = command.source_document_id;
    actor_id = command.actor_id;
    correlation_id = command.correlation_id;
    idempotency_key = command.idempotency_key;
    reversal_of_entry_id = none;
  }

  -- The rest of `postEntryIn`, once no entry with the idempotency key was found.
  unfoldable pub post_new_entry : PostingCommand → Action PostingResult
  unfolding posting_period
  post_new_entry command = do
    period ← posting_period command
    db ← gets λ db. db
    require (accounts_ok command.company_id db command.lines) account_not_postable
    number ← next command.source_document_type command.company_id period.fiscal_year_name
    id ← new_id
    insert_entry (posted_entry command id number)
    first_id ← gets λ db. db.next_id
    modify λ db. record db { next_id = db.next_id + length command.lines }
    insert_lines (line_rows id (rate_of command.exchange_rate) first_id 1 command.lines)
    pure (record { journal_entry_id = id; number = number })

  unfoldable pub post_entry_in : PostingCommand → Action PostingResult
  post_entry_in command db = elim (find_entry command.company_id command.idempotency_key db) [
    | some existing ↦ ok (record { journal_entry_id = existing.id; number = existing.number }, db)
    | none ↦ post_new_entry command db
  ]

  -- `postEntry` inside the transaction of its caller.
  unfoldable pub post_entry_within : PostingCommand → Action PostingResult
  post_entry_within command = lift (validate_shape command) >> post_entry_in command

  -- `postEntry` with a transaction of its own.
  unfoldable pub post_entry : PostingCommand → Action PostingResult
  post_entry command = lift (validate_shape command) >> transaction (post_entry_in command)
