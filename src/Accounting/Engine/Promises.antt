-- ===== src/Accounting/Engine/Promises.antt =====
-- What a caller of the engine relies on: a retry posts nothing twice, history is only added to, a
-- reversal cancels its original.
use markaz.Prelude.{
  ℕ, suc, ◌<◌, ◌≡◌, refl, ◌∙◌, sym, ap, ap₂, ◌⊎◌, inl, inr, none, some, List, [], ◌∷◌, ◌++◌, arith,
  Option-cases, Bool-cases, ◌==◌, append_assoc, append-nil,
}
use markaz.Prelude.Int.{pos, ◌+ℤ◌}
use markaz.Prelude.Text.{Text, text_eq_refl}
use markaz.Decimals.{Arithmetic}
use markaz.Store.{Db, JournalEntry, JournalEntryLine, ok, find}
use markaz.Accounting.Numbering.Gapless.{next_id-le-counter_after}
use markaz.Accounting.Engine.Command.{PostingCommand, PostingResult, find_entry, validate_shape}
use markaz.Accounting.Engine.Constraints.{lines_of, commit, transaction}
use markaz.Accounting.Engine.Post.{post_entry_in, post_entry, post_new_entry, posted_entry}
use markaz.Accounting.Engine.Reverse.{mirrored_lines, reverse_entry}
use markaz.Accounting.Engine.Ledger.{
  IsLedger, lines_of-append, lines_of_own, lines_of_below, lines_of_others,
}
use markaz.Accounting.Engine.Posted.{entry_id, entry_number, posted_rows, post_new_entry_inv}
use markaz.Accounting.Engine.Reversed.{
  reversal, reversal_type, reversal_id, reversal_rows, reverse_entry_in_inv, net_of, base_net_of,
  mirrored-cancels, mirrored-cancels_base,
}
use markaz.Accounting.Engine.Soundness.{transaction_inv, lift_inv}
use markaz.Accounting.Engine.History.{
  Step, posts, reverses, Reach, here, next, mirrored-AllOf, find_all,
}

-- What `post_entry` did when it succeeded: replayed the entry of the key, or wrote a new one.
pub post_entry_cases :
    (m : Arithmetic) (command : PostingCommand) (db db' : Db) (r : PostingResult)
    → post_entry m command db ≡ ok (r, db')
    → ((e : JournalEntry) × (find_entry command.company_id command.idempotency_key db ≡ some e)
        × (r ≡ record { journal_entry_id = e.id; number = e.number })
        × (db' ≡ record db { pending = [] }))
      ⊎ ((mid : Db) × (find_entry command.company_id command.idempotency_key db ≡ none)
          × (post_new_entry m command db ≡ ok (r, mid))
          × (db' ≡ record mid { pending = [] }))
unfolding post_entry post_entry_in
post_entry_cases m command db db' r posted =
    let (v, shape_ok, run) = lift_inv (validate_shape command) _ db _ posted in
    let (mid, done, passed, same) = transaction_inv (post_entry_in m command) db r db' run in
    elim (Option-cases (find_entry command.company_id command.idempotency_key db)) [
      | inl absent ↦ inr (mid, absent, ground arith, same)
      | inr (e, there) ↦ inl (e, there, ground arith, ground arith)
    ]

-- The lookup that a retry makes, after a success.
found_after :
    (m : Arithmetic) (command : PostingCommand) (db db' : Db) (r : PostingResult)
    → post_entry m command db ≡ ok (r, db')
    → (e : JournalEntry) × (find_entry command.company_id command.idempotency_key db' ≡ some e)
      × (r ≡ record { journal_entry_id = e.id; number = e.number })
      × (db'.pending ≡ [])
found_after m command db db' r posted = elim (post_entry_cases m command db db' r posted) [
  | inl (e, there, result, same) ↦ (e, rw same there, result, rw same refl)
  | inr (mid, absent, new, same) ↦
      let (p, _, result, tables) = post_new_entry_inv m command db r mid new in
      (
        posted_entry m command (entry_id m command p db) (entry_number m command p db),
        rw (same, tables) (ground (arith, text_eq_refl command.idempotency_key)),
        result,
        rw same refl,
      )
]

-- A command that is sent again after it succeeded gives the same result and changes nothing: no second
-- entry, no second number.
pub post_entry_replay :
    (m : Arithmetic) (command : PostingCommand) (db db' : Db) (r : PostingResult)
    → post_entry m command db ≡ ok (r, db')
    → post_entry m command db' ≡ ok (r, db')
unfolding post_entry post_entry_in transaction commit
post_entry_replay m command db db' r posted =
    let (v, shape_ok, _) = lift_inv (validate_shape command) _ db _ posted in
    let (e, there, result, settled) = found_after m command db db' r posted in ground arith

-- `db'` has all the entries and lines of `db`, unchanged, below those that were added.
abbrev pub IsExtension : Db → Db → Type 0
IsExtension db db' =
    (es : List JournalEntry) × (ls : List JournalEntryLine) × (db'.journal_entries
      ≡ es ++ db.journal_entries)
    × (db'.journal_entry_lines ≡ ls ++ db.journal_entry_lines)

Step-IsExtension : (m : Arithmetic) {db db' : Db} → Step m db db' → IsExtension db db'
unfolding reverse_entry
Step-IsExtension m {db} {db'} (posts command r e) = elim (post_entry_cases m command db db' r e) [
  | inl (x, _, _, same) ↦ ([], [], rw same refl, rw same refl)
  | inr (mid, _, new, same) ↦
      let (p, _, _, tables) = post_new_entry_inv m command db r mid new in
      (
        posted_entry m command (entry_id m command p db) (entry_number m command p db) ∷ [],
        posted_rows m command p db,
        rw (same, tables) refl,
        rw (same, tables) refl,
      )
]
Step-IsExtension m {db} {db'} (reverses entry reason actor correlation now r e) =
    let (mid, ran, _, same) = transaction_inv _ db r db' e in
    let (o, p, _, _, tables) =
      reverse_entry_in_inv entry reason actor correlation now db mid r ran in
    (
      reversal entry reason actor correlation now o p db ∷ [],
      reversal_rows entry reason actor correlation now o p db,
      rw (same, tables) refl,
      rw (same, tables) refl,
    )

-- Nothing that was posted is ever changed or removed by later postings and reversals.
pub Reach-IsExtension : (m : Arithmetic) {db db' : Db} → Reach m db db' → IsExtension db db'
Reach-IsExtension m here = ([], [], refl, refl)
Reach-IsExtension m (next r s) =
    let (es, ls, e, l) = Reach-IsExtension m r in
    let (es', ls', e', l') = Step-IsExtension m s in
    (
      es' ++ es,
      ls' ++ ls,
      e' ∙ ap (◌++◌ es') e ∙ sym (append_assoc es' es _),
      l' ∙ ap (◌++◌ ls') l ∙ sym (append_assoc ls' ls _),
    )

find_id :
    (id : ℕ) (es : List JournalEntry) (e : JournalEntry)
    → find (λ x. x.id == id) es ≡ some e
    → e.id ≡ id
find_id id [] e found = absurd (ground arith)
find_id id (x ∷ es) e found = elim (Bool-cases (x.id == id)) [
  | inl hit ↦ ground arith
  | inr miss ↦ find_id id es e (ground arith)
]

-- The lines of the original and of the new entry, among all lines after a reversal.
module _ (entry : ℕ) (reason : Text) (actor_id correlation_id now : ℕ) (db db' : Db)
    (r : PostingResult) (h : IsLedger db)
    (done : reverse_entry entry reason actor_id correlation_id now db ≡ ok (r, db')) where
  lines_after :
      (number : Text) × (id : ℕ) × (lines_of entry db'.journal_entry_lines
        ≡ lines_of entry db.journal_entry_lines)
      × (lines_of r.journal_entry_id db'.journal_entry_lines
          ≡ mirrored_lines r.journal_entry_id reason number id 1
              (lines_of entry db.journal_entry_lines))
  unfolding reverse_entry
  lines_after =
      let (mid, ran, _, same) = transaction_inv _ db r db' done in
      let (o, p, found, result, tables) =
        reverse_entry_in_inv entry reason actor_id correlation_id now db mid r ran in
      let rows = reversal_rows entry reason actor_id correlation_id now o p db in
      let id = reversal_id entry reason actor_id correlation_id now o p db in
      let old = db.journal_entry_lines in
      let own = mirrored-AllOf id reason o.number (suc (suc id)) 1 (lines_of o.id old) in
      let fresh =
        next_id-le-counter_after (reversal_type entry reason actor_id correlation_id now o p db)
          o.company_id p.fiscal_year_name db in
      let known : o.id ≡ entry = find_id entry db.journal_entries o found in
      let below : o.id < db.next_id =
        find_all (λ x. x.id < db.next_id) _ db.journal_entries o h.fresh_entries found in
      let apart : lines_of entry rows ≡ [] =
        lines_of_others entry id rows own (λ e. omega (arith, known)) in
      let mine : lines_of id (rows ++ old) ≡ rows =
        lines_of-append id rows old
        ∙ ap₂ ◌++◌ (lines_of_own id rows own) (lines_of_below id db.next_id old h.fresh_lines fresh)
        ∙ append-nil rows in
      (
        o.number,
        suc (suc id),
        rw (same, tables)
            (lines_of-append entry rows old ∙ ap (λ k. k ++ lines_of entry old) apart),
        rw (same, tables, result)
            (mine
              ∙ ap (λ k. mirrored_lines id reason o.number (suc (suc id)) 1 (lines_of k old))
                  known),
      )

  -- A reversal cancels its original: on every account the lines of the two entries together come to
  -- zero, in the entry's currency and in the base currency, and the original's lines stay as they were.
  pub reverse_entry_cancels :
      (account : ℕ)
      → (net_of account (lines_of r.journal_entry_id db'.journal_entry_lines)
            +ℤ net_of account (lines_of entry db'.journal_entry_lines)
          ≡ pos 0)
        × (base_net_of account (lines_of r.journal_entry_id db'.journal_entry_lines)
              +ℤ base_net_of account (lines_of entry db'.journal_entry_lines)
            ≡ pos 0)
        × (lines_of entry db'.journal_entry_lines ≡ lines_of entry db.journal_entry_lines)
  reverse_entry_cancels account =
      let (number, id, same, mirrored) = lines_after in
      (
        rw (mirrored, same)
            (mirrored-cancels account r.journal_entry_id reason number id 1
              (lines_of entry db.journal_entry_lines)),
        rw (mirrored, same)
            (mirrored-cancels_base account r.journal_entry_id reason number id 1
              (lines_of entry db.journal_entry_lines)),
        same,
      )
