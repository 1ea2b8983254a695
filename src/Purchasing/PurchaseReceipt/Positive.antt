-- ===== src/Purchasing/PurchaseReceipt/Positive.antt =====
-- What a receipt counts is above 0.
use markaz.Prelude.{
  ℕ, ◌≡◌, subst, inl, inr, some, List, [], ◌∷◌, arith, All, Bool-cases, Option-cases,
}
use markaz.Prelude.Int.{pos, ◌+ℤ◌, ◌≤ℤ◌}
use markaz.Prelude.Text.{Text}
use markaz.Decimals.{Decimal, Arithmetic, greater_than}
use markaz.Store.{Result-cases, ok}
use markaz.Inventory.WeightedAverage.{apply_receipt}
use markaz.Inventory.Stock.{StockDb, StockActor, StockDocumentResult, LineRecord}
use markaz.Inventory.StockRow.{lock_stock_row}
use markaz.Inventory.GoodsReceipt.{
  GoodsReceiptLineInput, CreateGoodsReceiptInput, receipt_context, receive_line, receive_lines,
  create_in,
}
use markaz.Purchasing.PurchaseOrder.{PurchaseOrderLine}
use markaz.Purchasing.PurchaseReceipt.{line_by_id, receipt_lines, ReceiveAgainstOrderLine}

receive_line_positive :
    (m : Arithmetic) (company_id warehouse_id : ℕ) (line : GoodsReceiptLineInput) (db db' : StockDb)
    (l : LineRecord)
    → receive_line m company_id warehouse_id line db ≡ ok (l, db')
    → pos 1 ≤ℤ line.quantity
unfolding receive_line apply_receipt
receive_line_positive m company_id warehouse_id line db db' l e =
    elim (Result-cases (lock_stock_row company_id line.item_id warehouse_id db)) [
      | inr (x, bad) ↦ absurd (ground arith)
      | inl ((stock, db1), locked) ↦ elim (Bool-cases (greater_than line.quantity (pos 0))) [
        | inr none_given ↦ absurd (ground arith)
        | inl given ↦ ground arith
      ]
    ]

-- What `createIn` has checked of its lines when it succeeds.
receive_lines_positive :
    (m : Arithmetic) (company_id warehouse_id : ℕ) (lines : List GoodsReceiptLineInput)
    (total sum : Decimal) (records : List LineRecord) (db db' : StockDb)
    → receive_lines m company_id warehouse_id lines total db ≡ ok ((sum, records), db')
    → All (λ l. pos 1 ≤ℤ l.quantity) lines
unfolding receive_lines
receive_lines_positive m company_id warehouse_id [] total sum records db db' e = tt
receive_lines_positive m company_id warehouse_id (line ∷ lines) total sum records db db' e =
    elim (Result-cases (receive_line m company_id warehouse_id line db)) [
      | inr (x, bad) ↦ absurd (ground arith)
      | inl ((l, db1), first) ↦
          elim (Result-cases
            (receive_lines m company_id warehouse_id lines (total +ℤ l.value) db1)) [
              | inr (x, bad) ↦ absurd (ground arith)
              | inl (((sum', records'), db2), others) ↦ (
                receive_line_positive m company_id warehouse_id line db db1 l first,
                receive_lines_positive m company_id warehouse_id lines (total +ℤ l.value) sum'
                    records' db1 db2 others,
              )
            ]
    ]

pub create_in_positive :
    (m : Arithmetic) (input : CreateGoodsReceiptInput) (actor : StockActor) (correlation_id : ℕ)
    (key : Text) (db db' : StockDb) (r : StockDocumentResult)
    → create_in m input actor correlation_id key db ≡ ok (r, db')
    → All (λ l. pos 1 ≤ℤ l.quantity) input.lines
unfolding create_in
create_in_positive m input actor correlation_id key db db' r e =
    elim (Result-cases (receipt_context input actor db)) [
      | inr (x, bad) ↦ absurd (ground arith)
      | inl ((context, db0), checked) ↦
          elim (Result-cases
            (receive_lines m actor.company_id input.warehouse_id input.lines (pos 0) db0)) [
              | inr (x, bad) ↦ absurd (ground arith)
              | inl (((total, records), db1), received_lines) ↦
                  receive_lines_positive m actor.company_id input.warehouse_id input.lines (pos 0)
                    total records db0 db1 received_lines
            ]
    ]

pub receipt_lines_positive :
    (m : Arithmetic) (order_lines : List PurchaseOrderLine) (lines : List ReceiveAgainstOrderLine)
    (given : List GoodsReceiptLineInput)
    → receipt_lines m order_lines lines ≡ ok given
    → All (λ l. pos 1 ≤ℤ l.quantity) given
    → All (λ l. pos 1 ≤ℤ l.quantity) lines
receipt_lines_positive m order_lines [] given e h = tt
receipt_lines_positive m order_lines (line ∷ lines) given e h =
    elim (Option-cases (line_by_id line.purchase_order_line_id order_lines)) [
      | inl missing ↦ absurd (ground arith)
      | inr (l, there) ↦ elim (Result-cases (receipt_lines m order_lines lines)) [
        | inr (x, bad) ↦ absurd (ground arith)
        | inl (more, others) ↦
            let first : GoodsReceiptLineInput = record {
              item_id = l.item_id;
              quantity = line.quantity;
              unit_cost = m.round4 l.unit_price;
              purchase_order_line_id = some l.id;
            } in
            let same : given ≡ first ∷ more = ground arith in
            let both = subst (All (λ l. pos 1 ≤ℤ l.quantity)) same h in
            (both.0, receipt_lines_positive m order_lines lines more others both.1)
      ]
    ]
