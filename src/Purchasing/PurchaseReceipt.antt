-- ===== src/Purchasing/PurchaseReceipt.antt =====
-- `receive` of packages/core/src/purchasing/purchase-receipt.service.ts: goods are booked against an
-- approved order, in one transaction with the goods receipt. (The audit records are left out; a
-- quantity is read as a decimal before the call.)
pub mod Laws
pub mod Bound
pub mod Positive
use markaz.Prelude.{
  ℕ, suc, Bool, true, false, not, ◌&&◌, ◌||◌, Option, none, some, List, [], ◌∷◌, map, ◌==◌,
  if◌then◌else◌,
}
use markaz.Prelude.Int.{pos, ◌+ℤ◌, ◌-ℤ◌, leb_ℤ}
use markaz.Prelude.Text.{Text}
use markaz.Decimals.{Decimal, Arithmetic, greater_than, less_than}
use markaz.Store.{
  Error, constraint_violation, order_error, empty_order_receipt, order_not_found,
  order_not_receivable, line_not_on_order, over_receipt, Result, ok, err, ActionOn, ◌>>=◌, ◌>>◌,
  pure, throw, gets, modify, require, or_throw, find,
}
use markaz.Accounting.Engine.Constraints.{commit}
use markaz.Purchasing.PurchaseOrder.{
  OrderStatus, approved, partially_received, received, PurchaseOrder, PurchaseOrderLine, PurchaseDb,
  on_stock, set_status,
}
use markaz.Inventory.Stock.{StockDb, StockActor, StockDocumentResult, on_ledger}
use markaz.Inventory.StockIssue.{is_empty}
use markaz.Inventory.GoodsReceipt.{GoodsReceiptLineInput, CreateGoodsReceiptInput, create_in}

pub record ReceiveAgainstOrderLine : Type 0 where
  pub purchase_order_line_id : ℕ
  pub quantity : Decimal

pub record ReceiveAgainstOrderInput : Type 0 where
  pub warehouse_id : ℕ
  pub document_date : ℕ
  pub reference : Option Text
  pub lines : List ReceiveAgainstOrderLine

pub record PurchaseReceiptResult : Type 0 where
  pub receipt : StockDocumentResult
  pub order_status : OrderStatus

abbrev pub is_receivable : OrderStatus → Bool
is_receivable approved = true
is_receivable partially_received = true
is_receivable _ = false

abbrev pub lift_checked : {A : Type 0} → Result A → ActionOn PurchaseDb A
lift_checked (ok a) = pure a
lift_checked (err e) = throw e

abbrev pub lines_of_order : ℕ → List PurchaseOrderLine → List PurchaseOrderLine
lines_of_order order_id [] = []
lines_of_order order_id (l ∷ ls) =
    if l.purchase_order_id == order_id
    then l ∷ lines_of_order order_id ls
    else lines_of_order order_id ls

abbrev pub line_by_id : ℕ → List PurchaseOrderLine → Option PurchaseOrderLine
line_by_id id lines = find (λ l. l.id == id) lines

-- The map `requested`: what is asked for on each line, in all.
abbrev pub requested_of : ℕ → List ReceiveAgainstOrderLine → Decimal
requested_of id [] = pos 0
requested_of id (line ∷ lines) =
    if line.purchase_order_line_id == id
    then line.quantity +ℤ requested_of id lines
    else requested_of id lines

-- The loop over `requested`: no line is asked for more than is outstanding. (The source looks at each id
-- once; a second look finds the same.)
abbrev pub is_outstanding :
    List PurchaseOrderLine → List ReceiveAgainstOrderLine → List ReceiveAgainstOrderLine → Bool
is_outstanding order_lines requested [] = true
is_outstanding order_lines requested (line ∷ lines) =
    elim (line_by_id line.purchase_order_line_id order_lines) [
      | none ↦ true
      | some l ↦ not (
          greater_than (requested_of line.purchase_order_line_id requested)
            (l.quantity -ℤ l.received_quantity))
    ]
    && is_outstanding order_lines requested lines

abbrev pub is_all_received : ℕ → List ReceiveAgainstOrderLine → List PurchaseOrderLine → Bool
is_all_received order_id requested [] = true
is_all_received order_id requested (l ∷ ls) =
    (if l.purchase_order_id == order_id
      then not (less_than (l.received_quantity +ℤ requested_of l.id requested) l.quantity)
      else true)
    && is_all_received order_id requested ls

module _ (m : Arithmetic) where
  open m use {round4, column4}

  -- The lines of the receipt, or the error of the first line that is not on the order.
  abbrev pub receipt_lines :
      List PurchaseOrderLine → List ReceiveAgainstOrderLine → Result (List GoodsReceiptLineInput)
  receipt_lines order_lines [] = ok []
  receipt_lines order_lines (line ∷ lines) =
      elim (line_by_id line.purchase_order_line_id order_lines) [
        | none ↦ err (order_error line_not_on_order)
        | some order_line ↦ elim (receipt_lines order_lines lines) [
          | err e ↦ err e
          | ok more ↦ ok (
              record {
                item_id = order_line.item_id;
                quantity = line.quantity;
                unit_cost = round4 order_line.unit_price;
                purchase_order_line_id = some order_line.id;
              }
              ∷ more)
        ]
      ]

  -- The update of the counter of one line, with purchase_order_lines_received_check.
  abbrev pub count_line :
      List ReceiveAgainstOrderLine → PurchaseOrderLine → Result PurchaseOrderLine
  count_line requested l =
      let added = requested_of l.id requested in
      let counted = column4 (l.received_quantity +ℤ added) in
      if greater_than added (pos 0)
      then if leb_ℤ (pos 0) counted && leb_ℤ counted l.quantity
        then ok (record l { received_quantity = counted })
        else err constraint_violation
      else ok l

  -- The loop over the lines of the order, on the table of all lines.
  abbrev pub count_received :
      ℕ → List ReceiveAgainstOrderLine → List PurchaseOrderLine → Result (List PurchaseOrderLine)
  count_received order_id requested [] = ok []
  count_received order_id requested (l ∷ ls) =
      elim (if l.purchase_order_id == order_id then count_line requested l else ok l) [
        | err e ↦ err e
        | ok l' ↦ elim (count_received order_id requested ls) [
          | err e ↦ err e
          | ok ls' ↦ ok (l' ∷ ls')
        ]
      ]

  -- The checks before the receipt: the order, its status, its lines and what is outstanding on them.
  unfoldable pub receivable :
      ℕ
      → ReceiveAgainstOrderInput
      → StockActor
      → ActionOn PurchaseDb (PurchaseOrder × List GoodsReceiptLineInput)
  receivable order_id input actor = do
    require (not (is_empty input.lines)) (order_error empty_order_receipt)
    db ← gets λ db. db
    order ←
        or_throw
          (find (λ o. (o.id == order_id) && (o.company_id == actor.company_id)) db.purchase_orders)
          (order_error order_not_found)
    require (is_receivable order.status) (order_error order_not_receivable)
    let order_lines = lines_of_order order_id db.purchase_order_lines
    lines ← lift_checked (receipt_lines order_lines input.lines)
    require (is_outstanding order_lines input.lines input.lines) (order_error over_receipt)
    pure (order, lines)

  -- The one transaction.
  unfoldable pub receive :
      ℕ
      → ReceiveAgainstOrderInput
      → StockActor
      → ℕ
      → Text
      → ActionOn PurchaseDb PurchaseReceiptResult
  receive order_id input actor correlation_id idempotency_key = do
    (order, lines) ← receivable order_id input actor
    receipt ← on_stock (
        create_in m
          (record {
            warehouse_id = input.warehouse_id;
            party_id = some order.supplier_id;
            purchase_order_id = some order_id;
            document_date = input.document_date;
            reference = input.reference;
            lines = lines;
          })
          actor correlation_id idempotency_key)
    db ← gets λ db. db
    table ← lift_checked (count_received order_id input.lines db.purchase_order_lines)
    let status =
        if is_all_received order_id input.lines db.purchase_order_lines
        then received
        else partially_received
    modify λ db. record db {
      purchase_order_lines = table;
      purchase_orders = set_status order_id status db.purchase_orders;
    }
    on_stock (on_ledger commit)
    pure (record { receipt = receipt; order_status = status })
