-- ===== src/Accounting/Engine/Constraints.antt =====
-- What the database itself checks of journal entries and their lines:
-- packages/db/prisma/migrations/20260910110000_ledger_integrity_constraints/migration.sql and the
-- unique key of the schema. The trigger on balances is deferred: `pending` collects the entries whose
-- lines a transaction writes, and `commit` checks them.
use markaz.Prelude.{
  ℕ, Bool, true, false, ◌&&◌, ◌||◌, Option, none, some, List, [], ◌∷◌, ◌++◌, map, leb, ◌==◌,
  if◌then◌else◌, length,
}
use markaz.Prelude.Int.{pos, leb_ℤ, eq_ℤ}
use markaz.Prelude.Sums.{sum_by}
use markaz.Decimals.{Decimal, greater_than}
use markaz.Store.{
  FiscalPeriod, JournalEntry, JournalEntryLine, constraint_violation, Action, ◌>>=◌, ◌>>◌, pure,
  gets, modify, require,
}
use markaz.Accounting.Engine.Command.{find_entry, find_period, is_open}

-- journal_entry_lines_debit_credit_check on one pair of columns.
abbrev pub is_one_sided : Decimal → Decimal → Bool
is_one_sided debit credit =
    (leb_ℤ (pos 0) debit && leb_ℤ (pos 0) credit)
    && ((greater_than debit (pos 0) && eq_ℤ credit (pos 0))
        || (greater_than credit (pos 0) && eq_ℤ debit (pos 0)))

abbrev pub line_check : JournalEntryLine → Bool
line_check l = is_one_sided l.debit l.credit && is_one_sided l.base_debit l.base_credit

abbrev pub all_lines : (JournalEntryLine → Bool) → List JournalEntryLine → Bool
all_lines p [] = true
all_lines p (l ∷ ls) = p l && all_lines p ls

-- The lines of one entry.
abbrev pub lines_of : ℕ → List JournalEntryLine → List JournalEntryLine
lines_of id [] = []
lines_of id (l ∷ ls) = if l.journal_entry_id == id then l ∷ lines_of id ls else lines_of id ls

-- check_journal_entry_balance.
abbrev pub balances : List JournalEntryLine → Bool
balances ls =
    leb 2 (length ls)
    && (eq_ℤ (sum_by (λ l. l.debit) ls) (sum_by (λ l. l.credit) ls)
        && eq_ℤ (sum_by (λ l. l.base_debit) ls) (sum_by (λ l. l.base_credit) ls))

abbrev pub all_balance : List JournalEntryLine → List ℕ → Bool
all_balance table [] = true
all_balance table (id ∷ ids) = balances (lines_of id table) && all_balance table ids

-- COMMIT: the deferred trigger, for each row written.
unfoldable pub commit : Action (Unit {0})
commit = do
  db ← gets λ db. db
  require (all_balance db.journal_entry_lines db.pending) constraint_violation
  modify λ db. record db { pending = [] }

-- `prisma.$transaction`.
unfoldable pub transaction : {A : Type 0} → Action A → Action A
unfolding commit
transaction m = do a ← m; commit; pure a

abbrev pub period_is_open : Option FiscalPeriod → Bool
period_is_open none = false
period_is_open (some p) = is_open p.status

abbrev pub is_absent : Option JournalEntry → Bool
is_absent none = true
is_absent (some e) = false

-- INSERT INTO journal_entries: check_fiscal_period_open and the unique idempotency key.
unfoldable pub insert_entry : JournalEntry → Action (Unit {0})
insert_entry e = do
  db ← gets λ db. db
  require (period_is_open (find_period e.fiscal_period_id db)) constraint_violation
  require (is_absent (find_entry e.company_id e.idempotency_key db)) constraint_violation
  modify λ db. record db { journal_entries = e ∷ db.journal_entries }

-- INSERT INTO journal_entry_lines, of one or more rows.
unfoldable pub insert_lines : List JournalEntryLine → Action (Unit {0})
insert_lines rows = do
  require (all_lines line_check rows) constraint_violation
  modify λ db. record db {
    journal_entry_lines = rows ++ db.journal_entry_lines;
    pending = map (λ l. l.journal_entry_id) rows ++ db.pending;
  }
