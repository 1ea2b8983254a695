-- ===== src/Accounting/Engine/Ledger.antt =====
-- The invariant of the ledger, and what a transaction that writes one entry does to it.
use markaz.Prelude.{
  ℕ, ◌<◌, ◌≤◌, ◌≡◌, ◌≢◌, refl, ◌∙◌, ap₂, true, List, [], ◌∷◌, ◌++◌, arith, All, append-nil,
}
use markaz.Prelude.Int.{ℤ, eq_ℤ→eq}
use markaz.Prelude.Sums.{sum_by, sum_by-append}
use markaz.Store.{Db, DocumentNumberSeries, JournalEntry, JournalEntryLine}
use markaz.Accounting.Numbering.Laws.{SeriesBelow}
use markaz.Accounting.Engine.Constraints.{lines_of, balances}

-- Each entry balances, in both currencies, and so do all lines together; no transaction is open; and
-- the counter of ids is ahead of every entry.
pub record IsLedger (db : Db) : Type 0 where
  pub fresh_entries : All (λ e. e.id < db.next_id) db.journal_entries
  pub fresh_lines : All (λ l. l.journal_entry_id < db.next_id) db.journal_entry_lines
  pub fresh_series : SeriesBelow db.next_id db.document_number_series
  pub settled : db.pending ≡ []
  pub balanced :
      All (λ e. balances (lines_of e.id db.journal_entry_lines) ≡ true) db.journal_entries
  pub total :
      sum_by (λ l. l.debit) db.journal_entry_lines ≡ sum_by (λ l. l.credit) db.journal_entry_lines
  pub base_total :
      sum_by (λ l. l.base_debit) db.journal_entry_lines
      ≡ sum_by (λ l. l.base_credit) db.journal_entry_lines

-- All rows belong to one entry.
abbrev pub AllOf : ℕ → List JournalEntryLine → Type 0
AllOf id = All (λ l. l.journal_entry_id ≡ id)

abbrev AllBelow : ℕ → List JournalEntryLine → Type 0
AllBelow n = All (λ l. l.journal_entry_id < n)

pub lines_of-append :
    (id : ℕ) (ls ks : List JournalEntryLine)
    → lines_of id (ls ++ ks) ≡ lines_of id ls ++ lines_of id ks
lines_of-append id [] ks = refl
lines_of-append id (l ∷ ls) ks = ground (arith, lines_of-append id ls ks)

pub lines_of_own : (id : ℕ) (ls : List JournalEntryLine) → AllOf id ls → lines_of id ls ≡ ls
lines_of_own id [] h = refl
lines_of_own id (l ∷ ls) h = ground (arith, lines_of_own id ls h.1)

pub lines_of_others :
    (id other : ℕ) (ls : List JournalEntryLine) → AllOf other ls → id ≢ other → lines_of id ls ≡ []
lines_of_others id other [] h ne = refl
lines_of_others id other (l ∷ ls) h ne = ground (arith, lines_of_others id other ls h.1 ne)

pub lines_of_below :
    (id n : ℕ) (ls : List JournalEntryLine) → AllBelow n ls → n ≤ id → lines_of id ls ≡ []
lines_of_below id n [] h le = refl
lines_of_below id n (l ∷ ls) h le = ground (arith, lines_of_below id n ls h.1 le)

All-mono : (k n : ℕ) (ls : List JournalEntryLine) → AllBelow k ls → k ≤ n → AllBelow n ls
All-mono k n [] h le = tt
All-mono k n (l ∷ ls) h le = (omega arith, All-mono k n ls h.1 le)

entries_mono :
    (k n : ℕ) (es : List JournalEntry) → All (λ e. e.id < k) es → k ≤ n → All (λ e. e.id < n) es
entries_mono k n [] h le = tt
entries_mono k n (e ∷ es) h le = (omega arith, entries_mono k n es h.1 le)

AllOf-below : (id n : ℕ) (ls : List JournalEntryLine) → AllOf id ls → id < n → AllBelow n ls
AllOf-below id n [] h lt = tt
AllOf-below id n (l ∷ ls) h lt = (ground arith, AllOf-below id n ls h.1 lt)

AllBelow-append :
    (n : ℕ) (ls ks : List JournalEntryLine) → AllBelow n ls → AllBelow n ks → AllBelow n (ls ++ ks)
AllBelow-append n [] ks h k = k
AllBelow-append n (l ∷ ls) ks h k = (h.0, AllBelow-append n ls ks h.1 k)

-- The lines of older entries are as they were.
balanced_still :
    (id n : ℕ) (rows ls : List JournalEntryLine) (es : List JournalEntry)
    → AllOf id rows
    → All (λ e. e.id < n) es
    → n ≤ id
    → All (λ e. balances (lines_of e.id ls) ≡ true) es
    → All (λ e. balances (lines_of e.id (rows ++ ls)) ≡ true) es
balanced_still id n rows ls [] own below le h = tt
balanced_still id n rows ls (e ∷ es) own below le h = (
  rw (lines_of-append e.id rows ls, lines_of_others e.id id rows own (λ same. omega arith)) h.0,
  balanced_still id n rows ls es own below.1 le h.1,
)

balances_totals :
    (ls : List JournalEntryLine)
    → balances ls ≡ true
    → (sum_by (λ l. l.debit) ls ≡ sum_by (λ l. l.credit) ls)
      × (sum_by (λ l. l.base_debit) ls ≡ sum_by (λ l. l.base_credit) ls)
balances_totals ls h = ground (
  arith,
  eq_ℤ→eq (sum_by (λ l. l.debit) ls) (sum_by (λ l. l.credit) ls),
  eq_ℤ→eq (sum_by (λ l. l.base_debit) ls) (sum_by (λ l. l.base_credit) ls),
)

totals-append :
    (f g : JournalEntryLine → ℤ) (rows ls : List JournalEntryLine)
    → sum_by f rows ≡ sum_by g rows
    → sum_by f ls ≡ sum_by g ls
    → sum_by f (rows ++ ls) ≡ sum_by g (rows ++ ls)
totals-append f g rows ls h k = rw (sum_by-append f rows ls, sum_by-append g rows ls, h, k)

module _ (db : Db) (e : JournalEntry) (rows : List JournalEntryLine)
    (ss : List DocumentNumberSeries) (n : ℕ) where
  -- The tables with one more entry, its rows, the series and the counter that its number left.
  abbrev pub with_entry : Db
  with_entry = record db {
    document_number_series = ss;
    journal_entries = e ∷ db.journal_entries;
    journal_entry_lines = rows ++ db.journal_entry_lines;
    pending = [];
    next_id = n;
  }

  pub with_entry-IsLedger :
      IsLedger db
      → db.next_id ≤ e.id
      → e.id < n
      → AllOf e.id rows
      → balances rows ≡ true
      → SeriesBelow n ss
      → IsLedger with_entry
  with_entry-IsLedger h fresh below own even series =
      let totals = balances_totals rows even in
      let new : lines_of e.id (rows ++ db.journal_entry_lines) ≡ rows =
        lines_of-append e.id rows db.journal_entry_lines
        ∙ ap₂ ◌++◌ (lines_of_own e.id rows own)
            (lines_of_below e.id db.next_id db.journal_entry_lines h.fresh_lines fresh)
        ∙ append-nil rows in
      record {
        fresh_entries =
            (below, entries_mono db.next_id n db.journal_entries h.fresh_entries (omega arith));
        fresh_lines =
            AllBelow-append n rows db.journal_entry_lines (AllOf-below e.id n rows own below)
              (All-mono db.next_id n db.journal_entry_lines h.fresh_lines (omega arith));
        fresh_series = series;
        settled = refl;
        balanced = (
          rw new even,
          balanced_still e.id db.next_id rows db.journal_entry_lines db.journal_entries own
              h.fresh_entries fresh h.balanced,
        );
        total =
            totals-append (λ l. l.debit) (λ l. l.credit) rows db.journal_entry_lines totals.0
              h.total;
        base_total =
            totals-append (λ l. l.base_debit) (λ l. l.base_credit) rows db.journal_entry_lines
              totals.1 h.base_total;
      }
