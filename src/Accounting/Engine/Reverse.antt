-- ===== src/Accounting/Engine/Reverse.antt =====
-- `reverseEntry`: the mirrored entry, dated today, in the open period of today.
use markaz.Prelude.{ℕ, suc, ◌+◌, Option, none, some, List, [], ◌∷◌, ◌++◌, ◌==◌, length}
use markaz.Prelude.Text.{Text, codes, show, trim}
use markaz.Store.{
  FiscalPeriod, JournalEntry, JournalEntryLine, invalid_posting_command, Action, ◌>>=◌, ◌>>◌, pure,
  or_throw, gets, modify, new_id, find,
}
use markaz.Accounting.Numbering.{next}
use markaz.Accounting.Engine.Command.{PostingResult}
use markaz.Accounting.Engine.Constraints.{transaction, insert_entry, insert_lines, lines_of}
use markaz.Accounting.Engine.Post.{find_open_fiscal_period}

abbrev text_or_empty : Option Text → Text
text_or_empty none = []
text_or_empty (some t) = t

-- `Reversal (${reason}) of ${number}: ${description ?? ""}`.trim()
unfoldable pub reversal_description : Text → Text → Option Text → Text
reversal_description reason number description = trim (
    codes "Reversal ("
    ++ (reason ++ (codes ") of " ++ (number ++ (codes ": " ++ text_or_empty description)))))

-- Debit and credit change sides; the amounts come from columns of the same scale.
abbrev pub mirrored_line : ℕ → Text → Text → ℕ → ℕ → JournalEntryLine → JournalEntryLine
mirrored_line entry_id reason number id line_number line = record {
  id = id;
  journal_entry_id = entry_id;
  account_id = line.account_id;
  debit = line.credit;
  credit = line.debit;
  base_debit = line.base_credit;
  base_credit = line.base_debit;
  description = some (reversal_description reason number line.description);
  line_number = line_number;
}

abbrev pub mirrored_lines : ℕ → Text → Text → ℕ → ℕ → List JournalEntryLine → List JournalEntryLine
mirrored_lines entry_id reason number id line_number [] = []
mirrored_lines entry_id reason number id line_number (line ∷ lines) =
    mirrored_line entry_id reason number id line_number line
    ∷ mirrored_lines entry_id reason number (suc id) (suc line_number) lines

-- The idempotency key `reversal:${entryId}:${newId()}`.
unfoldable pub reversal_key : ℕ → ℕ → Text
reversal_key entry_id id = codes "reversal:" ++ (show entry_id ++ (codes ":" ++ show id))

abbrev pub reversing_entry :
    JournalEntry → FiscalPeriod → ℕ → ℕ → ℕ → ℕ → Text → Text → JournalEntry
reversing_entry original period now actor_id correlation_id id number key = record {
  id = id;
  company_id = original.company_id;
  fiscal_period_id = period.id;
  number = number;
  entry_date = now;
  posting_date = now;
  currency = original.currency;
  exchange_rate = original.exchange_rate;
  source_module = original.source_module;
  source_document_type = original.source_document_type;
  source_document_id = original.source_document_id;
  actor_id = actor_id;
  correlation_id = correlation_id;
  idempotency_key = key;
  reversal_of_entry_id = some original.id;
}

-- `now` is the date of `new Date()`.
unfoldable pub reverse_entry_in : ℕ → Text → ℕ → ℕ → ℕ → Action PostingResult
unfolding reversal_key
reverse_entry_in entry_id reason actor_id correlation_id now = do
  db ← gets λ db. db
  original ← or_throw (find (λ e. e.id == entry_id) db.journal_entries) invalid_posting_command
  let lines = lines_of original.id db.journal_entry_lines
  period ← or_throw (find_open_fiscal_period original.company_id now db) invalid_posting_command
  number ←
      next (original.source_document_type ++ codes "_REVERSAL") original.company_id
        period.fiscal_year_name
  id ← new_id
  key_id ← new_id
  insert_entry (
      reversing_entry original period now actor_id correlation_id id number
        (reversal_key entry_id key_id))
  first_id ← gets λ db. db.next_id
  modify λ db. record db { next_id = db.next_id + length lines }
  insert_lines (mirrored_lines id reason original.number first_id 1 lines)
  pure (record { journal_entry_id = id; number = number })

unfoldable pub reverse_entry : ℕ → Text → ℕ → ℕ → ℕ → Action PostingResult
unfolding reverse_entry_in
reverse_entry entry_id reason actor_id correlation_id now =
    transaction (reverse_entry_in entry_id reason actor_id correlation_id now)
