-- ===== src/Accounting/Engine/Reversed.antt =====
-- What a reversal leaves in the tables: the mirrored entry, which cancels the original account by
-- account.
use markaz.Prelude.{
  ℕ, suc, ◌+◌, ◌≡◌, inl, inr, some, List, [], ◌∷◌, ◌++◌, map, arith, length, Option-cases,
  Bool-cases, ◌==◌, if◌then◌else◌,
}
use markaz.Prelude.Int.{ℤ, pos, ◌+ℤ◌, ◌-ℤ◌, int_laws}
use markaz.Prelude.Text.{Text, codes}
use markaz.Store.{Db, FiscalPeriod, JournalEntry, JournalEntryLine, ok, find}
use markaz.Accounting.Numbering.Gapless.{number_of, series_after, counter_after, next-eq}
use markaz.Accounting.Engine.Command.{PostingResult}
use markaz.Accounting.Engine.Constraints.{lines_of, insert_entry, insert_lines}
use markaz.Accounting.Engine.Post.{find_open_fiscal_period}
use markaz.Accounting.Engine.Reverse.{
  mirrored_lines, reversing_entry, reversal_key, reverse_entry_in,
}

module _ (entry : ℕ) (reason : Text) (actor_id correlation_id now : ℕ) (original : JournalEntry)
    (period : FiscalPeriod) (db : Db) where
  abbrev pub reversal_type : Text
  reversal_type = original.source_document_type ++ codes "_REVERSAL"

  abbrev pub reversal_number : Text
  reversal_number = number_of reversal_type original.company_id period.fiscal_year_name db

  abbrev pub reversal_id : ℕ
  reversal_id = counter_after reversal_type original.company_id period.fiscal_year_name db

  abbrev pub original_lines : List JournalEntryLine
  original_lines = lines_of original.id db.journal_entry_lines

  abbrev pub reversal_rows : List JournalEntryLine
  reversal_rows =
      mirrored_lines reversal_id reason original.number (suc (suc reversal_id)) 1 original_lines

  abbrev pub reversal : JournalEntry
  reversal =
      reversing_entry original period now actor_id correlation_id reversal_id reversal_number
        (reversal_key entry (suc reversal_id))

  abbrev pub reversal_db : Db
  reversal_db = record db {
    document_number_series =
        series_after reversal_type original.company_id period.fiscal_year_name db;
    journal_entries = reversal ∷ db.journal_entries;
    journal_entry_lines = reversal_rows ++ db.journal_entry_lines;
    pending = map (λ l. l.journal_entry_id) reversal_rows ++ db.pending;
    next_id = suc (suc reversal_id) + length original_lines;
  }

  -- Where the original and the open period of today are found, a success is of this form.
  reverse_entry_in_lem :
      (r : PostingResult) (mid : Db)
      → find (λ e. e.id == entry) db.journal_entries ≡ some original
      → find_open_fiscal_period original.company_id now db ≡ some period
      → reverse_entry_in entry reason actor_id correlation_id now db ≡ ok (r, mid)
      → (r ≡ record { journal_entry_id = reversal_id; number = reversal_number })
        × (mid ≡ reversal_db)
  unfolding reverse_entry_in insert_entry insert_lines
  reverse_entry_in_lem r mid found current done =
      let numbered = next-eq reversal_type original.company_id period.fiscal_year_name db in
      (ground (arith, numbered), ground (arith, numbered))

pub reverse_entry_in_inv :
    (entry : ℕ) (reason : Text) (actor_id correlation_id now : ℕ) (db mid : Db) (r : PostingResult)
    → reverse_entry_in entry reason actor_id correlation_id now db ≡ ok (r, mid)
    → (original : JournalEntry) × (period : FiscalPeriod) × (find
          (λ e. e.id == entry)
          db.journal_entries
        ≡ some original)
      × (r ≡ record {
        journal_entry_id = reversal_id entry reason actor_id correlation_id now original period db;
        number = reversal_number entry reason actor_id correlation_id now original period db;
      })
      × (mid ≡ reversal_db entry reason actor_id correlation_id now original period db)
unfolding reverse_entry_in
reverse_entry_in_inv entry reason actor correlation now db mid r done =
    elim (Option-cases (find (λ e. e.id == entry) db.journal_entries)) [
      | inl absent ↦ absurd (ground arith)
      | inr (original, found) ↦
          elim (Option-cases (find_open_fiscal_period original.company_id now db)) [
            | inl closed ↦ absurd (ground arith)
            | inr (period, current) ↦
                let (result, tables) =
                  reverse_entry_in_lem entry reason actor correlation now original period db r mid
                    found current done in
                (original, period, found, result, tables)
          ]
    ]

-- Which side an account's lines come out on: debits less credits.
abbrev pub net_of : ℕ → List JournalEntryLine → ℤ
net_of account [] = pos 0
net_of account (l ∷ ls) =
    if l.account_id == account
    then (l.debit -ℤ l.credit) +ℤ net_of account ls
    else net_of account ls

abbrev pub base_net_of : ℕ → List JournalEntryLine → ℤ
base_net_of account [] = pos 0
base_net_of account (l ∷ ls) =
    if l.account_id == account
    then (l.base_debit -ℤ l.base_credit) +ℤ base_net_of account ls
    else base_net_of account ls

pub mirrored-cancels :
    (account entry : ℕ) (reason number : Text) (id n : ℕ) (ls : List JournalEntryLine)
    → net_of account (mirrored_lines entry reason number id n ls) +ℤ net_of account ls ≡ pos 0
mirrored-cancels account entry reason number id n [] = omega int_laws
mirrored-cancels account entry reason number id n (l ∷ ls) =
    let rest = mirrored-cancels account entry reason number (suc id) (suc n) ls in
    elim (Bool-cases (l.account_id == account)) [
      | inl own ↦ rw own (omega int_laws)
      | inr other ↦ rw other rest
    ]

pub mirrored-cancels_base :
    (account entry : ℕ) (reason number : Text) (id n : ℕ) (ls : List JournalEntryLine)
    → base_net_of account (mirrored_lines entry reason number id n ls) +ℤ base_net_of account ls
      ≡ pos 0
mirrored-cancels_base account entry reason number id n [] = omega int_laws
mirrored-cancels_base account entry reason number id n (l ∷ ls) =
    let rest = mirrored-cancels_base account entry reason number (suc id) (suc n) ls in
    elim (Bool-cases (l.account_id == account)) [
      | inl own ↦ rw own (omega int_laws)
      | inr other ↦ rw other rest
    ]
