-- ===== src/Accounting/Engine/Soundness.antt =====
-- The engine keeps the ledger balanced: postings and reversals, in any order.
use markaz.Prelude.{
  ℕ, suc, ◌+◌, ◌<◌, ◌≤◌, ◌≡◌, refl, ◌∙◌, sym, ap, ap₂, ◌&&◌, inl, inr, Bool, true, List, [], ◌∷◌,
  ◌++◌, map, arith, length, All, Option-cases, append-nil,
}
use markaz.Decimals.{Decimal, Arithmetic}
use markaz.Store.{
  Db, DocumentNumberSeries, JournalEntry, JournalEntryLine, Result, Result-cases, ok, err, Action,
  ◌>>◌,
}
use markaz.Accounting.Numbering.Laws.{SeriesBelow, SeriesBelow-mono}
use markaz.Accounting.Numbering.Gapless.{series_after, next_id-le-counter_after, series_after-Below}
use markaz.Accounting.Engine.Command.{
  JournalLineInput, PostingCommand, PostingResult, find_entry, validate_shape, lift,
}
use markaz.Accounting.Engine.Constraints.{lines_of, balances, all_balance, commit, transaction}
use markaz.Accounting.Engine.Post.{
  rate_of, line_rows, posted_entry, post_new_entry, post_entry_in, post_entry,
}
use markaz.Accounting.Engine.Shape.{validate_shape_iff}
use markaz.Accounting.Engine.Posted.{entry_number, entry_id, posted_rows, post_new_entry_inv}
use markaz.Accounting.Engine.Ledger.{
  IsLedger, AllOf, lines_of-append, lines_of_own, lines_of_below, with_entry, with_entry-IsLedger,
}

-- A transaction that commits did its work, and the deferred trigger passed.
pub transaction_inv :
    {A : Type 0} (act : Action A) (db : Db) (a : A) (db' : Db)
    → transaction act db ≡ ok (a, db')
    → (mid : Db) × (act db ≡ ok (a, mid))
      × (all_balance mid.journal_entry_lines mid.pending ≡ true)
      × (db' ≡ record mid { pending = [] })
unfolding transaction commit
transaction_inv act db a db' h = elim (Result-cases (act db)) [
  | inl ((b, mid), e) ↦ (mid, ground arith, ground arith, ground arith)
  | inr (x, e) ↦ absurd (ground arith)
]

pub line_rows-AllOf :
    (m : Arithmetic) (entry : ℕ) (rate : Decimal) (id n : ℕ) (ls : List JournalLineInput)
    → AllOf entry (line_rows m entry rate id n ls)
line_rows-AllOf m entry rate id n [] = tt
line_rows-AllOf m entry rate id n (l ∷ ls) =
    (refl, line_rows-AllOf m entry rate (suc id) (suc n) ls)

pub length-line_rows :
    (m : Arithmetic) (entry : ℕ) (rate : Decimal) (id n : ℕ) (ls : List JournalLineInput)
    → length (line_rows m entry rate id n ls) ≡ length ls
length-line_rows m entry rate id n [] = refl
length-line_rows m entry rate id n (l ∷ ls) =
    ap suc (length-line_rows m entry rate (suc id) (suc n) ls)

and_left : (a b : Bool) → a && b ≡ true → a ≡ true
and_left a b e = ground arith

-- The trigger's verdict on an entry whose rows the transaction wrote: the rows balance.
pub rows_balance :
    (id n : ℕ) (rows ls : List JournalEntryLine)
    → AllOf id rows
    → All (λ l. l.journal_entry_id < n) ls
    → n ≤ id
    → 0 < length rows
    → all_balance (rows ++ ls) (map (λ l. l.journal_entry_id) rows ++ []) ≡ true
    → balances rows ≡ true
rows_balance id n [] ls own below le long h = absurd (omega arith)
rows_balance id n (r ∷ rows) ls own below le long h =
    let all : lines_of id ((r ∷ rows) ++ ls) ≡ r ∷ rows =
      lines_of-append id (r ∷ rows) ls
      ∙ ap₂ ◌++◌ (lines_of_own id (r ∷ rows) own) (lines_of_below id n ls below le)
      ∙ append-nil (r ∷ rows) in
    sym (ap balances all)
    ∙ ap (λ k. balances (lines_of k ((r ∷ rows) ++ ls))) (sym own.0)
    ∙ and_left _ _ h

-- An entry written in a transaction of its own keeps the invariant of the ledger.
module _ (db : Db) (e : JournalEntry) (rows : List JournalEntryLine)
    (ss : List DocumentNumberSeries) (n : ℕ) where
  pub committed-IsLedger :
      IsLedger db
      → db.next_id ≤ e.id
      → e.id < n
      → AllOf e.id rows
      → 0 < length rows
      → SeriesBelow n ss
      → all_balance
          (rows ++ db.journal_entry_lines)
          (map (λ l. l.journal_entry_id) rows ++ db.pending)
        ≡ true
      → IsLedger (with_entry db e rows ss n)
  committed-IsLedger h fresh below own long series passed =
      with_entry-IsLedger db e rows ss n h fresh below own
        (rows_balance e.id db.next_id rows db.journal_entry_lines own h.fresh_lines fresh long
          (rw h.settled at passed))
        series

post_new_IsLedger :
    (m : Arithmetic) (command : PostingCommand) (db mid : Db) (r : PostingResult)
    → IsLedger db
    → 0 < length command.lines
    → post_new_entry m command db ≡ ok (r, mid)
    → all_balance mid.journal_entry_lines mid.pending ≡ true
    → IsLedger (record mid { pending = [] })
post_new_IsLedger m command db mid r h long posted passed =
    let (p, _, _, same) = post_new_entry_inv m command db r mid posted in
    let id = entry_id m command p db in
    let rows = posted_rows m command p db in
    let t = command.source_document_type in
    let c = command.company_id in
    let f = p.fiscal_year_name in
    rw same (
      committed-IsLedger db (posted_entry m command id (entry_number m command p db)) rows
        (series_after t c f db) (suc id + length command.lines) h
        (next_id-le-counter_after t c f db) (omega arith)
        (line_rows-AllOf m id (rate_of m command.exchange_rate) (suc id) 1 command.lines)
        (omega
          (arith, length-line_rows m id (rate_of m command.exchange_rate) (suc id) 1 command.lines))
        (SeriesBelow-mono id (suc id + length command.lines) (series_after t c f db) (omega arith)
          (series_after-Below t c f db h.fresh_series))
        (rw same at passed))

replay_IsLedger : (db mid : Db) → IsLedger db → mid ≡ db → IsLedger (record mid { pending = [] })
replay_IsLedger db mid h e = rw e (record {
  fresh_entries = h.fresh_entries;
  fresh_lines = h.fresh_lines;
  fresh_series = h.fresh_series;
  settled = refl;
  balanced = h.balanced;
  total = h.total;
  base_total = h.base_total;
})

-- What runs after a check that passed.
pub lift_inv :
    {A : Type 0} (v : Result (Unit {0})) (act : Action A) (db : Db) (q : A × Db)
    → (lift v >> act) db ≡ ok q
    → (u : Unit {0}) × (v ≡ ok u) × (act db ≡ ok q)
lift_inv (ok u) act db q h = (u, refl, h)
lift_inv (err e) act db q h = absurd (ground arith)

-- A posting that succeeds keeps the ledger balanced, whether it is new or a replay.
pub post_entry-IsLedger :
    (m : Arithmetic) (command : PostingCommand) (db db' : Db) (r : PostingResult)
    → IsLedger db
    → post_entry m command db ≡ ok (r, db')
    → IsLedger db'
unfolding post_entry post_entry_in
post_entry-IsLedger m command db db' r h posted =
    let (v, shape_ok, run) = lift_inv (validate_shape command) _ db _ posted in
    let (mid, done, passed, same) = transaction_inv (post_entry_in m command) db r db' run in
    rw same (elim (Option-cases (find_entry command.company_id command.idempotency_key db)) [
      | inl absent ↦
          post_new_IsLedger m command db mid r h
            (omega (arith, (validate_shape_iff command).0 shape_ok)) (ground arith) passed
      | inr (x, there) ↦ replay_IsLedger db mid h (ground arith)
    ])
