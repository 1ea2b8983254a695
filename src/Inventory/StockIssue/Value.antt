-- ===== src/Inventory/StockIssue/Value.antt =====
-- A stock issue takes from the value of the stock what its entry takes from the inventory account.
use markaz.Prelude.{
  ℕ, suc, ◌≤◌, ◌≡◌, refl, ◌∙◌, sym, ap, inl, inr, true, false, ◌&&◌, some, List, arith, All, ◌==◌,
}
use markaz.Prelude.Int.{pos, ◌+ℤ◌, ◌-ℤ◌}
use markaz.Prelude.Text.{Text, codes, text_eq}
use markaz.Decimals.{Decimal, Arithmetic, IsArithmetic, IsScaled, column4_zero, round4_scaled}
use markaz.Store.{Db, Error, JournalEntry, Result-cases, ok, err, find}
use markaz.Accounting.Engine.Command.{PostingCommand, find_entry}
use markaz.Accounting.Engine.Constraints.{commit}
use markaz.Accounting.Engine.Post.{post_entry_within}
use markaz.Accounting.Engine.Reversed.{net_of}
use markaz.Inventory.AccountMapping.{inventory, project_issue_expense, resolve}
use markaz.Inventory.Stock.{StockDb, StockActor, StockDocumentResult, LineRecord, is_there}
use markaz.Inventory.StockRow.Moves.{IsStockTable}
use markaz.Inventory.StockDocument.{PostingContext, posting_command}
use markaz.Inventory.StockDocument.Laws.{
  IsOrderly, moved_on, gap, gap_kept, document_posted, commit_keeps, replayed,
}
use markaz.Inventory.StockIssue.{
  CreateStockIssueInput, issue_context, issue_lines, issue_row, write_issue, issue_description,
  create,
}
use markaz.Inventory.StockIssue.Laws.{issue_lines-Moves}
use markaz.Inventory.StockIssue.Context.{issue_context_inv, write_issue_keeps}

module _ (m : Arithmetic) (input : CreateStockIssueInput) (actor : StockActor) (correlation_id : ℕ)
    (key : Text) where
  abbrev command_of : PostingContext → Decimal → ℕ → PostingCommand
  command_of context total id =
      posting_command (codes "stock_issue") (issue_description input) input.document_date actor
        correlation_id key context (m.round4 total) id

  -- The steps of an issue that was made: its loop ends in `db1`, its posting in the ledger `l`.
  pub record IsIssued (db db' : StockDb) (r : StockDocumentResult) (context : PostingContext)
      (total : Decimal) (records : List LineRecord) (db1 : StockDb) (l : Db) : Type 0 where
    pub charged :
        resolve actor.company_id project_issue_expense db.account_mappings
        ≡ some context.debit_account_id
    pub held :
        resolve actor.company_id inventory db.account_mappings ≡ some context.credit_account_id
    pub taken :
        issue_lines m actor.company_id input.warehouse_id input.lines (pos 0) db
        ≡ ok ((total, records), db1)
    pub posted :
        post_entry_within m
          (command_of context total db1.ledger.next_id)
          (record db1.ledger { next_id = suc db1.ledger.next_id })
        ≡ ok (record { journal_entry_id = r.journal_entry_id; number = r.number }, l)
    pub kept : db'.item_warehouse_stock ≡ db1.item_warehouse_stock
    pub lines : db'.ledger.journal_entry_lines ≡ l.journal_entry_lines
    pub later : l.next_id ≤ db'.ledger.next_id
    pub once :
        is_there (
          find
            (λ i. (i.company_id == actor.company_id) && text_eq i.number r.number)
            db1.stock_issues)
        ≡ false

  pub create_inv :
      (db db' : StockDb) (r : StockDocumentResult)
      → create m input actor correlation_id key db ≡ ok (r, db')
      → (context : PostingContext) × (total : Decimal) × (records : List LineRecord)
        × (db1 : StockDb) × (l : Db) × IsIssued db db' r context total records db1 l
  unfolding create
  create_inv db db' r e = elim (Result-cases (issue_context input actor db)) [
    | inr (x, refused) ↦ absurd (ground arith)
    | inl ((context, db0), checked) ↦
        let (same, charged, held) = issue_context_inv input actor db db0 context checked in
        elim (Result-cases
          (issue_lines m actor.company_id input.warehouse_id input.lines (pos 0) db0)) [
            | inr (x, refused) ↦ absurd (ground arith)
            | inl (((total, records), db1), taken) ↦
                let id = db1.ledger.next_id in
                elim (Result-cases (
                  post_entry_within m (command_of context total id)
                    (record db1.ledger { next_id = suc id }))) [
                      | inr (x, refused) ↦ absurd (ground arith)
                      | inl ((posting, l), posted) ↦
                          let row =
                            issue_row input actor correlation_id id posting.number
                              posting.journal_entry_id in
                          let db2 : StockDb = record db1 { ledger = l } in
                          elim (Result-cases (write_issue m row actor records db2)) [
                            | inr (x, refused) ↦ absurd (ground arith)
                            | inl ((u, db3), written) ↦ elim (Result-cases (commit db3.ledger)) [
                              | inr (x, refused) ↦ absurd (ground arith)
                              | inl ((v, l'), settled) ↦
                                  let (rows, entries, ids, once) =
                                    write_issue_keeps m row actor records db2 db3 u written in
                                  let (entries', ids') = commit_keeps db3.ledger l' v settled in
                                  let ended : db' ≡ record db3 { ledger = l' } = ground arith in
                                  let result : r ≡ record {
                                    id = id;
                                    number = posting.number;
                                    journal_entry_id = posting.journal_entry_id;
                                  } =
                                    ground arith in
                                  (
                                    context,
                                    total,
                                    records,
                                    db1,
                                    l,
                                    record {
                                      charged = charged;
                                      held = held;
                                      taken = rw (sym same) taken;
                                      posted = rw result posted;
                                      kept = ap (λ x. x.item_warehouse_stock) ended ∙ rows;
                                      lines =
                                          ap (λ x. x.ledger.journal_entry_lines) ended
                                          ∙ entries'
                                          ∙ entries;
                                      later = rw ended (omega (arith, ids, ids'));
                                      once = rw result once;
                                    },
                                  )
                            ]
                          ]
                    ]
          ]
  ]

  pub create_value :
      IsArithmetic m
      → (account expense : ℕ) (db db' : StockDb) (r : StockDocumentResult) → IsStockTable m db
      → All (λ line. IsScaled m line.quantity) input.lines
      → IsOrderly actor.company_id key account expense db
      → resolve actor.company_id project_issue_expense db.account_mappings ≡ some expense
      → create m input actor correlation_id key db ≡ ok (r, db')
      → IsStockTable m db' × (gap account db' ≡ gap account db)
  create_value laws account expense db db' r table whole orderly charged e =
      let (context, total, records, db1, l, h) = create_inv db db' r e in
      let (moved, scaled) =
        issue_lines-Moves m laws actor.company_id input.warehouse_id input.lines (pos 0) total
          records db db1 table whole (column4_zero m laws) h.taken in
      let (rows, n, k) = moved in
      let same_total : m.round4 total ≡ total = round4_scaled m laws total scaled in
      let new_key =
        ap
          (λ x.
            find_entry actor.company_id key (record x.ledger { next_id = suc x.ledger.next_id }))
          k.same
        ∙ orderly.new_key in
      let (ids, net) =
        document_posted m laws (codes "stock_issue") (issue_description input) input.document_date
          actor correlation_id key context (m.round4 total) db1.ledger.next_id
          (record db1.ledger { next_id = suc db1.ledger.next_id }) l
          (record { journal_entry_id = r.journal_entry_id; number = r.number }) new_key
          (rw same_total scaled) h.posted in
      let own : (context.credit_account_id == account) ≡ true =
        ground (arith, h.held, orderly.held) in
      let other : (context.debit_account_id == account) ≡ false =
        ground (arith, h.charged, charged, orderly.apart) in
      let out : moved_on context (m.round4 total) account ≡ pos 0 -ℤ total =
        rw (own, other, same_total) refl in
      gap_kept m account (pos 0 -ℤ total) db db1 db' l moved
        (net account ∙ ap (λ d. d +ℤ net_of account db1.ledger.journal_entry_lines) out) h.kept
        h.lines (omega (arith, ids, h.later))

  -- A key that has made an issue makes no second one: where the key's entry has the number of an issue of
  -- the company, the call throws, and the stock stays as it is.
  pub create_never_twice :
      IsArithmetic m
      → (existing : JournalEntry) (db : StockDb) → IsStockTable m db
      → All (λ line. IsScaled m line.quantity) input.lines
      → find_entry actor.company_id key db.ledger ≡ some existing
      → is_there (
          find
            (λ i. (i.company_id == actor.company_id) && text_eq i.number existing.number)
            db.stock_issues)
        ≡ true
      → (x : Error) × (create m input actor correlation_id key db ≡ err x)
  create_never_twice laws existing db table whole there issued =
      elim (Result-cases (create m input actor correlation_id key db)) [
        | inr thrown ↦ thrown
        | inl ((r, db'), e) ↦
            let (context, total, records, db1, l, h) = create_inv db db' r e in
            let ((rows, n, k), _) =
              issue_lines-Moves m laws actor.company_id input.warehouse_id input.lines (pos 0) total
                records db db1 table whole (column4_zero m laws) h.taken in
            let found =
              ap
                (λ x.
                  find_entry actor.company_id key
                    (record x.ledger { next_id = suc x.ledger.next_id }))
                k.same
              ∙ there in
            let same : r.number ≡ existing.number =
              ap (λ x. x.number)
                (replayed m (command_of context total db1.ledger.next_id)
                  (record db1.ledger { next_id = suc db1.ledger.next_id }) l
                  (record { journal_entry_id = r.journal_entry_id; number = r.number }) existing
                  found h.posted) in
            let once =
              sym (
                ap
                  (λ t. is_there (
                    find (λ i. (i.company_id == actor.company_id) && text_eq i.number t)
                      db1.stock_issues))
                  same
                ∙ ap
                    (λ x. is_there (
                      find
                        (λ i.
                          (i.company_id == actor.company_id) && text_eq i.number existing.number)
                        x.stock_issues))
                    k.same
                ∙ issued)
              ∙ h.once in
            absurd (ground arith)
      ]
