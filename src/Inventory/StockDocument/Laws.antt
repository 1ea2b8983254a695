-- ===== src/Inventory/StockDocument/Laws.antt =====
-- The entry of a stock document, and the balance of its two accounts.
use markaz.Prelude.{
  ℕ, suc, ◌+◌, ◌≤◌, ◌≡◌, refl, ◌∙◌, ap, inl, inr, false, none, some, List, [], ◌∷◌, ◌++◌, arith,
  ◌==◌, Bool-cases, if◌then◌else◌,
}
use markaz.Prelude.Int.{ℤ, pos, ◌+ℤ◌, ◌-ℤ◌, int_laws}
use markaz.Prelude.Text.{Text}
use markaz.Decimals.{Decimal, Arithmetic, IsArithmetic, IsScaled, column4_zero, one}
use markaz.Store.{Db, JournalEntry, JournalEntryLine, ok}
use markaz.Accounting.Numbering.Gapless.{next_id-le-counter_after}
use markaz.Accounting.Engine.Command.{PostingCommand, PostingResult, find_entry, validate_shape}
use markaz.Accounting.Engine.Constraints.{commit, all_balance}
use markaz.Accounting.Engine.Post.{line_rows, post_new_entry, post_entry_in, post_entry_within}
use markaz.Accounting.Engine.Posted.{entry_id, posted_rows, post_new_entry_inv}
use markaz.Accounting.Engine.Reversed.{net_of}
use markaz.Accounting.Engine.Soundness.{lift_inv}
use markaz.Inventory.AccountMapping.{inventory, resolve}
use markaz.Inventory.Stock.{StockActor, StockDb}
use markaz.Inventory.StockRow.Laws.{stock_value, IsTable-mono}
use markaz.Inventory.StockRow.Moves.{IsStockTable, Moves}
use markaz.Inventory.StockDocument.{PostingContext, posting_command}

net_of_append :
    (account : ℕ) (xs ys : List JournalEntryLine)
    → net_of account (xs ++ ys) ≡ net_of account xs +ℤ net_of account ys
net_of_append account [] ys = omega int_laws
net_of_append account (x ∷ xs) ys =
    let rest = net_of_append account xs ys in
    elim (Bool-cases (x.account_id == account)) [
      | inl own ↦ rw (own, rest) (omega int_laws)
      | inr other ↦ rw (other, rest) refl
    ]

-- A key that no entry has, and an inventory account that is not the other account of the entry.
pub record IsOrderly (company_id : ℕ) (key : Text) (inventory_account other_account : ℕ)
    (db : StockDb) : Type 0 where
  pub new_key : find_entry company_id key db.ledger ≡ none
  pub held : resolve company_id inventory db.account_mappings ≡ some inventory_account
  pub apart : (other_account == inventory_account) ≡ false

-- What the entry of a document puts on an account.
abbrev pub moved_on : PostingContext → Decimal → ℕ → ℤ
moved_on context amount account =
    (if context.debit_account_id == account then amount else pos 0)
    -ℤ (if context.credit_account_id == account then amount else pos 0)

-- What the stock is worth more than an account says.
abbrev pub gap : ℕ → StockDb → ℤ
gap account db = stock_value db.item_warehouse_stock -ℤ net_of account db.ledger.journal_entry_lines

-- Where the entry puts on the account what the stock rows have moved by, the difference stays.
pub gap_kept :
    (m : Arithmetic) (account : ℕ) (d : ℤ) (db db1 db' : StockDb) (l : Db)
    → Moves m db db1 d
    → net_of account l.journal_entry_lines ≡ d +ℤ net_of account db1.ledger.journal_entry_lines
    → db'.item_warehouse_stock ≡ db1.item_warehouse_stock
    → db'.ledger.journal_entry_lines ≡ l.journal_entry_lines
    → db1.ledger.next_id ≤ db'.ledger.next_id
    → IsStockTable m db' × (gap account db' ≡ gap account db)
gap_kept m account d db db1 db' l (rows, n, k) net kept lines later =
    let held : db'.item_warehouse_stock ≡ rows = kept ∙ ap (λ x. x.item_warehouse_stock) k.same in
    let first : db1.ledger.next_id ≡ n = ap (λ x. x.ledger.next_id) k.same in
    let value : stock_value db'.item_warehouse_stock ≡ stock_value rows = ap stock_value held in
    let posted : net_of account db'.ledger.journal_entry_lines
        ≡ net_of account l.journal_entry_lines =
      ap (net_of account) lines in
    let older : net_of account db1.ledger.journal_entry_lines
        ≡ net_of account db.ledger.journal_entry_lines =
      ap (λ x. net_of account x.ledger.journal_entry_lines) k.same in
    let moved = k.value in
    (
      rw held (IsTable-mono m n db'.ledger.next_id rows (omega (arith, first)) k.table),
      omega int_laws,
    )

module _ (m : Arithmetic) (laws : IsArithmetic m) (document_type description : Text) (date : ℕ)
    (actor : StockActor) (correlation_id : ℕ) (key : Text) (context : PostingContext)
    (amount : Decimal) (id : ℕ) where
  abbrev command : PostingCommand
  command =
      posting_command document_type description date actor correlation_id key context amount id

  net_of_command :
      (account entry first : ℕ)
      → IsScaled m amount
      → net_of account (line_rows m entry (one m) first 1 command.lines)
        ≡ moved_on context amount account
  net_of_command account entry first scaled =
      let nothing = column4_zero m laws in
      elim (Bool-cases (context.debit_account_id == account)) [
        | inl d ↦ elim (Bool-cases (context.credit_account_id == account)) [
          | inl c ↦ rw (d, c, scaled, nothing) (omega int_laws)
          | inr c ↦ rw (d, c, scaled, nothing) (omega int_laws)
        ]
        | inr d ↦ elim (Bool-cases (context.credit_account_id == account)) [
          | inl c ↦ rw (d, c, scaled, nothing) (omega int_laws)
          | inr c ↦ rw (d, c) (omega int_laws)
        ]
      ]

  -- A posting under a new key.
  pub document_posted :
      (db db' : Db) (r : PostingResult)
      → find_entry actor.company_id key db ≡ none
      → IsScaled m amount
      → post_entry_within m command db ≡ ok (r, db')
      → (db.next_id ≤ db'.next_id)
        × ((account : ℕ)
            → net_of account db'.journal_entry_lines
              ≡ moved_on context amount account +ℤ net_of account db.journal_entry_lines)
  unfolding post_entry_within post_entry_in
  document_posted db db' r new scaled posted =
      let (v, shape_ok, run) = lift_inv (validate_shape command) _ db _ posted in
      let fresh : post_new_entry m command db ≡ ok (r, db') = ground arith in
      let (p, _, _, tables) = post_new_entry_inv m command db r db' fresh in
      let lines : db'.journal_entry_lines ≡ posted_rows m command p db ++ db.journal_entry_lines =
        ap (λ d. d.journal_entry_lines) tables in
      let entry = entry_id m command p db in
      let later = next_id-le-counter_after document_type actor.company_id p.fiscal_year_name db in
      let last : db'.next_id ≡ suc entry + 2 = ap (λ d. d.next_id) tables in
      (
        omega arith,
        λ account.
            ap (net_of account) lines
            ∙ net_of_append account (posted_rows m command p db) db.journal_entry_lines
            ∙ ap (λ a. a +ℤ net_of account db.journal_entry_lines)
                (net_of_command account entry (suc entry) scaled),
      )

pub replayed :
    (m : Arithmetic) (command : PostingCommand) (db db' : Db) (r : PostingResult)
    (existing : JournalEntry)
    → find_entry command.company_id command.idempotency_key db ≡ some existing
    → post_entry_within m command db ≡ ok (r, db')
    → r ≡ record { journal_entry_id = existing.id; number = existing.number }
unfolding post_entry_within post_entry_in
replayed m command db db' r existing there posted =
    let (v, shape_ok, run) = lift_inv (validate_shape command) _ db _ posted in ground arith

pub commit_keeps :
    (db db' : Db) (u : Unit {0})
    → commit db ≡ ok (u, db')
    → (db'.journal_entry_lines ≡ db.journal_entry_lines) × (db'.next_id ≡ db.next_id)
unfolding commit
commit_keeps db db' u e = elim (Bool-cases (all_balance db.journal_entry_lines db.pending)) [
  | inl passed ↦ (ground arith, ground arith)
  | inr failed ↦ absurd (ground arith)
]
