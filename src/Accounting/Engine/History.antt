-- ===== src/Accounting/Engine/History.antt =====
-- The ledger over time: any sequence of postings and reversals.
use markaz.Prelude.{
  ℕ, suc, ◌+◌, ◌≤◌, ◌≡◌, refl, ap, subst, inl, inr, Bool, true, some, List, [], ◌∷◌, arith, length,
  All, Bool-cases,
}
use markaz.Prelude.Text.{Text}
use markaz.Decimals.{Arithmetic}
use markaz.Store.{Db, JournalEntry, JournalEntryLine, ok, find}
use markaz.Accounting.Numbering.Laws.{SeriesBelow-mono}
use markaz.Accounting.Numbering.Gapless.{
  series_after, counter_after, next_id-le-counter_after, series_after-Below,
}
use markaz.Accounting.Engine.Command.{PostingCommand, PostingResult}
use markaz.Accounting.Engine.Constraints.{lines_of, balances}
use markaz.Accounting.Engine.Post.{post_entry}
use markaz.Accounting.Engine.Reverse.{mirrored_lines, reverse_entry}
use markaz.Accounting.Engine.Ledger.{IsLedger, AllOf}
use markaz.Accounting.Engine.Reversed.{reversal_type, reversal_rows, reversal, reverse_entry_in_inv}
use markaz.Accounting.Engine.Soundness.{transaction_inv, committed-IsLedger, post_entry-IsLedger}

pub mirrored-AllOf :
    (entry : ℕ) (reason number : Text) (id n : ℕ) (ls : List JournalEntryLine)
    → AllOf entry (mirrored_lines entry reason number id n ls)
mirrored-AllOf entry reason number id n [] = tt
mirrored-AllOf entry reason number id n (l ∷ ls) =
    (refl, mirrored-AllOf entry reason number (suc id) (suc n) ls)

length-mirrored :
    (entry : ℕ) (reason number : Text) (id n : ℕ) (ls : List JournalEntryLine)
    → length (mirrored_lines entry reason number id n ls) ≡ length ls
length-mirrored entry reason number id n [] = refl
length-mirrored entry reason number id n (l ∷ ls) =
    ap suc (length-mirrored entry reason number (suc id) (suc n) ls)

pub find_all :
    (P : JournalEntry → Type 0) (p : JournalEntry → Bool) (es : List JournalEntry)
    (e : JournalEntry)
    → All P es
    → find p es ≡ some e
    → P e
find_all P p [] e h found = absurd (ground arith)
find_all P p (x ∷ es) e h found = elim (Bool-cases (p x)) [
  | inl hit ↦ subst P (ground arith) h.0
  | inr miss ↦ find_all P p es e h.1 (ground arith)
]

-- A reversal that succeeds keeps the ledger balanced.
pub reverse_entry-IsLedger :
    (entry : ℕ) (reason : Text) (actor_id correlation_id now : ℕ) (db db' : Db) (r : PostingResult)
    → IsLedger db
    → reverse_entry entry reason actor_id correlation_id now db ≡ ok (r, db')
    → IsLedger db'
unfolding reverse_entry
reverse_entry-IsLedger entry reason actor correlation now db db' r h done =
    let (mid, ran, passed, same) = transaction_inv _ db r db' done in
    let (o, p, found, _, tables) =
      reverse_entry_in_inv entry reason actor correlation now db mid r ran in
    let t = reversal_type entry reason actor correlation now o p db in
    let c = o.company_id in
    let f = p.fiscal_year_name in
    let id = counter_after t c f db in
    let old = lines_of o.id db.journal_entry_lines in
    let enough : 2 ≤ length old = two_lines old (
      find_all (λ e. balances (lines_of e.id db.journal_entry_lines) ≡ true) _ db.journal_entries o
        h.balanced found) in
    rw (same, tables)
      (committed-IsLedger db (reversal entry reason actor correlation now o p db)
        (reversal_rows entry reason actor correlation now o p db) (series_after t c f db)
        (suc (suc id) + length old) h (next_id-le-counter_after t c f db) (omega arith)
        (mirrored-AllOf id reason o.number (suc (suc id)) 1 old)
        (omega (arith, length-mirrored id reason o.number (suc (suc id)) 1 old))
        (SeriesBelow-mono id (suc (suc id) + length old) (series_after t c f db) (omega arith)
          (series_after-Below t c f db h.fresh_series))
        (rw tables at passed))
  where
    two_lines : (ls : List JournalEntryLine) → balances ls ≡ true → 2 ≤ length ls
    two_lines ls even = ground arith

-- One call that succeeded; a call that fails leaves the tables as they were.
pub data Step (m : Arithmetic) (db : Db) : Db → Type 0 where
  posts :
      (command : PostingCommand) (r : PostingResult) {db' : Db}
      → post_entry m command db ≡ ok (r, db')
      → Step m db db'
  reverses :
      (entry : ℕ) (reason : Text) (actor_id correlation_id now : ℕ) (r : PostingResult) {db' : Db}
      → reverse_entry entry reason actor_id correlation_id now db ≡ ok (r, db')
      → Step m db db'

pub data Reach (m : Arithmetic) (db : Db) : Db → Type 0 where
  here : Reach m db db
  next : {mid db' : Db} → Reach m db mid → Step m mid db' → Reach m db db'

Step-IsLedger : (m : Arithmetic) {db db' : Db} → IsLedger db → Step m db db' → IsLedger db'
Step-IsLedger m {db} {db'} h (posts command r e) = post_entry-IsLedger m command db db' r h e
Step-IsLedger m {db} {db'} h (reverses entry reason actor correlation now r e) =
    reverse_entry-IsLedger entry reason actor correlation now db db' r h e

-- After any sequence of postings and reversals the ledger is balanced.
pub Reach-IsLedger : (m : Arithmetic) {db db' : Db} → IsLedger db → Reach m db db' → IsLedger db'
Reach-IsLedger m h here = h
Reach-IsLedger m h (next r s) = Step-IsLedger m (Reach-IsLedger m h r) s
