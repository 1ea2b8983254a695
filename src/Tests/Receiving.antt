-- ===== src/Tests/Receiving.antt =====
-- Goods are received against an order.
use markaz.Prelude.{ℕ, ◌⊎◌, ◌≡◌, ◌↔◌, refl, none, some, [], ◌∷◌, ◌&&◌, ◌==◌, map, arith, All}
use markaz.Prelude.Int.{pos, ◌+ℤ◌, ◌-ℤ◌}
use markaz.Prelude.Text.{Text, codes}
use markaz.Store.{Result, ok, err, find}
use markaz.Accounting.Numbering.{next as next_number, series_row, create_series}
use markaz.Accounting.Engine.Command.{validate_shape}
use markaz.Accounting.Engine.Constraints.{commit, insert_entry, insert_lines}
use markaz.Accounting.Engine.Post.{posting_period, post_new_entry, post_entry_in, post_entry_within}
use markaz.Inventory.AccountMapping.{key_index}
use markaz.Inventory.WeightedAverage.{apply_receipt}
use markaz.Inventory.StockRow.{lock_stock_row, save_stock_row}
use markaz.Inventory.GoodsReceipt.{
  receipt_context, receive_line, receive_lines, write_receipt, create_in,
}
use markaz.Purchasing.PurchaseOrder.{
  approved, received, partially_received, cancelled, PurchaseOrderCreated, cancel, PurchaseOrder,
  PurchaseOrderLine, PurchaseDb,
}
use markaz.Purchasing.PurchaseReceipt.{
  ReceiveAgainstOrderInput, PurchaseReceiptResult, receivable, receive,
}
use markaz.Purchasing.OrderStates.{HasStatus, cancels, here, next, order_final}
use markaz.Purchasing.PurchaseReceipt.Laws.{IsWithin, IsFullyReceived}
use markaz.Purchasing.PurchaseReceipt.Bound.{receive_lem, booked, with_status}
use markaz.Tests.FourPlaces.{four_places, four_places-IsArithmetic}
use markaz.Tests.Stock.{db as stock, actor}

abbrev order_line : ℕ → ℕ → PurchaseOrderLine
order_line id item = record {
  id = id;
  purchase_order_id = 70;
  item_id = item;
  quantity = pos 100000;
  unit_price = pos 20000;
  received_quantity = pos 0;
}

abbrev order : ℕ → Text → PurchaseOrder
order id number = record {
  id = id;
  company_id = 7;
  number = number;
  supplier_id = 3;
  status = approved;
  approval_request_id = none;
  version = 1;
}

abbrev before : PurchaseDb
before = record {
  stock = stock;
  approvals = record { policies = []; requests = []; next_id = 1 };
  purchase_orders = order 70 (codes "PO-1") ∷ order 80 (codes "PO-2") ∷ [];
  purchase_order_lines = order_line 71 61 ∷ order_line 72 62 ∷ [];
}

-- 4 and 6 of the first line, and all of the second.
abbrev input : ReceiveAgainstOrderInput
input = record {
  warehouse_id = 5;
  document_date = 40;
  reference = none;
  lines =
      record { purchase_order_line_id = 71; quantity = pos 40000 }
      ∷ record { purchase_order_line_id = 72; quantity = pos 100000 }
      ∷ record { purchase_order_line_id = 71; quantity = pos 60000 }
      ∷ [];
}

abbrev tables : Result (PurchaseReceiptResult × PurchaseDb) → PurchaseDb → PurchaseDb
tables (ok (r, db')) other = db'
tables (err e) other = other

abbrev result : Result (PurchaseReceiptResult × PurchaseDb) → PurchaseReceiptResult
result (ok (r, db')) = r
result (err e) = record {
  receipt = record { id = 0; number = []; journal_entry_id = 0 };
  order_status = approved;
}

unfoldable booked_in : Result (PurchaseReceiptResult × PurchaseDb)
booked_in = receive four_places 70 input actor 9 (codes "k1") before

booked_in_is_ok : booked_in ≡ ok (result booked_in, tables booked_in before)
unfolding booked_in receive receivable create_in receipt_context receive_lines receive_line
    write_receipt lock_stock_row save_stock_row apply_receipt commit insert_entry insert_lines
    posting_period post_new_entry post_entry_in post_entry_within next_number series_row
    create_series validate_shape key_index ◌+ℤ◌ ◌-ℤ◌
booked_in_is_ok = refl

receive_lem_example :
    ((o : PurchaseOrder) × (find (λ o. (o.id == 70) && (o.company_id == 7)) before.purchase_orders
        ≡ some o)
      × ((o.status ≡ approved) ⊎ (o.status ≡ partially_received)))
    × ((tables booked_in before).purchase_order_lines
        ≡ map (booked 70 input.lines) before.purchase_order_lines)
    × All IsWithin (tables booked_in before).purchase_order_lines
    × (((result booked_in).order_status ≡ received)
        ↔ IsFullyReceived 70 (tables booked_in before).purchase_order_lines)
    × (((result booked_in).order_status ≡ received)
        ⊎ ((result booked_in).order_status ≡ partially_received))
    × ((tables booked_in before).purchase_orders
        ≡ map (with_status 70 (result booked_in).order_status) before.purchase_orders)
unfolding booked_in
receive_lem_example =
    receive_lem four_places 70 input actor four_places-IsArithmetic 9 (codes "k1") before
      (tables booked_in before) (result booked_in) (refl, (refl, (refl, tt))) (refl, (refl, tt))
      ((omega arith, omega arith), ((omega arith, omega arith), tt)) booked_in_is_ok

abbrev cancel_tables : Result (PurchaseOrderCreated × PurchaseDb) → PurchaseDb → PurchaseDb
cancel_tables (ok (r, db')) other = db'
cancel_tables (err e) other = other

unfoldable cancelled_in : Result (PurchaseOrderCreated × PurchaseDb)
cancelled_in = cancel 80 actor 41 (tables booked_in before)

cancelled_in_is_ok :
    cancelled_in
    ≡ ok (
      record { id = 80; number = codes "PO-2"; status = cancelled },
      cancel_tables cancelled_in (tables booked_in before),
    )
unfolding cancelled_in cancel booked_in receive receivable create_in receipt_context receive_lines
    receive_line write_receipt lock_stock_row save_stock_row apply_receipt commit insert_entry
    insert_lines posting_period post_new_entry post_entry_in post_entry_within next_number
    series_row create_series validate_shape key_index ◌+ℤ◌ ◌-ℤ◌
cancelled_in_is_ok = refl

received_first : HasStatus 70 received (tables booked_in before).purchase_orders
unfolding booked_in receive receivable create_in receipt_context receive_lines receive_line
    write_receipt lock_stock_row save_stock_row apply_receipt commit insert_entry insert_lines
    posting_period post_new_entry post_entry_in post_entry_within next_number series_row
    create_series validate_shape key_index ◌+ℤ◌ ◌-ℤ◌
received_first = (λ e. refl, (λ e. absurd (ground arith), tt))

order_final_example :
    HasStatus 70 received (cancel_tables cancelled_in (tables booked_in before)).purchase_orders
unfolding cancelled_in
order_final_example =
    order_final four_places 70 received refl
      (next
        (cancels 80 actor 41 (record { id = 80; number = codes "PO-2"; status = cancelled })
          cancelled_in_is_ok)
        here)
      received_first
