-- ===== src/Inventory/GoodsReceipt/Value.antt =====
-- A goods receipt adds to the value of the stock what its entry adds to the inventory account.
use markaz.Prelude.{
  ℕ, suc, ◌≤◌, ◌≡◌, refl, ◌∙◌, sym, ap, inl, inr, true, false, ◌&&◌, some, List, arith, All, ◌==◌,
}
use markaz.Prelude.Int.{pos, ◌+ℤ◌, ◌-ℤ◌}
use markaz.Prelude.Text.{Text, codes, text_eq}
use markaz.Decimals.{Decimal, Arithmetic, IsArithmetic, IsScaled, column4_zero, round4_scaled}
use markaz.Store.{Db, Result-cases, ok, find}
use markaz.Accounting.Engine.Command.{PostingCommand, find_entry}
use markaz.Accounting.Engine.Constraints.{commit}
use markaz.Accounting.Engine.Post.{post_entry_within}
use markaz.Accounting.Engine.Reversed.{net_of}
use markaz.Inventory.AccountMapping.{inventory, grni, resolve}
use markaz.Inventory.Stock.{StockDb, StockActor, StockDocumentResult, LineRecord, is_there}
use markaz.Inventory.StockRow.Moves.{IsStockTable}
use markaz.Inventory.StockDocument.{PostingContext, posting_command}
use markaz.Inventory.StockDocument.Laws.{
  IsOrderly, moved_on, gap, gap_kept, document_posted, commit_keeps,
}
use markaz.Inventory.GoodsReceipt.{
  CreateGoodsReceiptInput, receipt_context, receive_lines, receipt_row, write_receipt, create_in,
  create,
}
use markaz.Inventory.GoodsReceipt.Laws.{receive_lines-Moves}
use markaz.Inventory.GoodsReceipt.Context.{receipt_context_inv, write_receipt_keeps}

module _ (m : Arithmetic) (input : CreateGoodsReceiptInput) (actor : StockActor)
    (correlation_id : ℕ) (key : Text) where
  abbrev command_of : PostingContext → Decimal → ℕ → PostingCommand
  command_of context total id =
      posting_command (codes "goods_receipt") (codes "Goods receipt") input.document_date actor
        correlation_id key context (m.round4 total) id

  -- The steps of a receipt that was made: its loop ends in `db1`, its posting in the ledger `l`.
  pub record IsReceived (db db' : StockDb) (r : StockDocumentResult) (context : PostingContext)
      (total : Decimal) (records : List LineRecord) (db1 : StockDb) (l : Db) : Type 0 where
    pub charged : resolve actor.company_id grni db.account_mappings ≡ some context.credit_account_id
    pub held :
        resolve actor.company_id inventory db.account_mappings ≡ some context.debit_account_id
    pub taken :
        receive_lines m actor.company_id input.warehouse_id input.lines (pos 0) db
        ≡ ok ((total, records), db1)
    pub posted :
        post_entry_within m
          (command_of context total db1.ledger.next_id)
          (record db1.ledger { next_id = suc db1.ledger.next_id })
        ≡ ok (record { journal_entry_id = r.journal_entry_id; number = r.number }, l)
    pub kept : db'.item_warehouse_stock ≡ db1.item_warehouse_stock
    pub lines : db'.ledger.journal_entry_lines ≡ l.journal_entry_lines
    pub later : l.next_id ≤ db'.ledger.next_id
    pub once :
        is_there (
          find
            (λ i. (i.company_id == actor.company_id) && text_eq i.number r.number)
            db1.goods_receipts)
        ≡ false

  pub create_inv :
      (db db' : StockDb) (r : StockDocumentResult)
      → create m input actor correlation_id key db ≡ ok (r, db')
      → (context : PostingContext) × (total : Decimal) × (records : List LineRecord)
        × (db1 : StockDb) × (l : Db) × IsReceived db db' r context total records db1 l
  unfolding create create_in
  create_inv db db' r e = elim (Result-cases (receipt_context input actor db)) [
    | inr (x, refused) ↦ absurd (ground arith)
    | inl ((context, db0), checked) ↦
        let (same, charged, held) = receipt_context_inv input actor db db0 context checked in
        elim (Result-cases
          (receive_lines m actor.company_id input.warehouse_id input.lines (pos 0) db0)) [
            | inr (x, refused) ↦ absurd (ground arith)
            | inl (((total, records), db1), taken) ↦
                let id = db1.ledger.next_id in
                elim (Result-cases (
                  post_entry_within m (command_of context total id)
                    (record db1.ledger { next_id = suc id }))) [
                      | inr (x, refused) ↦ absurd (ground arith)
                      | inl ((posting, l), posted) ↦
                          let row =
                            receipt_row input actor correlation_id id posting.number
                              posting.journal_entry_id in
                          let db2 : StockDb = record db1 { ledger = l } in
                          elim (Result-cases (write_receipt m row actor records db2)) [
                            | inr (x, refused) ↦ absurd (ground arith)
                            | inl ((u, db3), written) ↦ elim (Result-cases (commit db3.ledger)) [
                              | inr (x, refused) ↦ absurd (ground arith)
                              | inl ((v, l'), settled) ↦
                                  let (rows, entries, ids, once) =
                                    write_receipt_keeps m row actor records db2 db3 u written in
                                  let (entries', ids') = commit_keeps db3.ledger l' v settled in
                                  let ended : db' ≡ record db3 { ledger = l' } = ground arith in
                                  let result : r ≡ record {
                                    id = id;
                                    number = posting.number;
                                    journal_entry_id = posting.journal_entry_id;
                                  } =
                                    ground arith in
                                  (
                                    context,
                                    total,
                                    records,
                                    db1,
                                    l,
                                    record {
                                      charged = charged;
                                      held = held;
                                      taken = rw (sym same) taken;
                                      posted = rw result posted;
                                      kept = ap (λ x. x.item_warehouse_stock) ended ∙ rows;
                                      lines =
                                          ap (λ x. x.ledger.journal_entry_lines) ended
                                          ∙ entries'
                                          ∙ entries;
                                      later = rw ended (omega (arith, ids, ids'));
                                      once = rw result once;
                                    },
                                  )
                            ]
                          ]
                    ]
          ]
  ]

  pub create_value :
      IsArithmetic m
      → (account other : ℕ) (db db' : StockDb) (r : StockDocumentResult) → IsStockTable m db
      → All (λ line. IsScaled m line.quantity) input.lines
      → IsOrderly actor.company_id key account other db
      → resolve actor.company_id grni db.account_mappings ≡ some other
      → create m input actor correlation_id key db ≡ ok (r, db')
      → IsStockTable m db' × (gap account db' ≡ gap account db)
  create_value laws account other db db' r table whole orderly charged e =
      let (context, total, records, db1, l, h) = create_inv db db' r e in
      let (moved, scaled) =
        receive_lines-Moves m laws actor.company_id input.warehouse_id input.lines (pos 0) total
          records db db1 table whole (column4_zero m laws) h.taken in
      let (rows, n, k) = moved in
      let same_total : m.round4 total ≡ total = round4_scaled m laws total scaled in
      let new_key =
        ap
          (λ x.
            find_entry actor.company_id key (record x.ledger { next_id = suc x.ledger.next_id }))
          k.same
        ∙ orderly.new_key in
      let (ids, net) =
        document_posted m laws (codes "goods_receipt") (codes "Goods receipt") input.document_date
          actor correlation_id key context (m.round4 total) db1.ledger.next_id
          (record db1.ledger { next_id = suc db1.ledger.next_id }) l
          (record { journal_entry_id = r.journal_entry_id; number = r.number }) new_key
          (rw same_total scaled) h.posted in
      let own : (context.debit_account_id == account) ≡ true =
        ground (arith, h.held, orderly.held) in
      let other : (context.credit_account_id == account) ≡ false =
        ground (arith, h.charged, charged, orderly.apart) in
      let out : moved_on context (m.round4 total) account ≡ total -ℤ pos 0 =
        rw (own, other, same_total) refl in
      gap_kept m account (total -ℤ pos 0) db db1 db' l moved
        (net account ∙ ap (λ d. d +ℤ net_of account db1.ledger.journal_entry_lines) out) h.kept
        h.lines (omega (arith, ids, h.later))
