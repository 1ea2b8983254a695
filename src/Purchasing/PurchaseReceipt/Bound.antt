-- ===== src/Purchasing/PurchaseReceipt/Bound.antt =====
-- A receipt against an order keeps within what was ordered.
use markaz.Prelude.{
  ℕ, suc, ◌⊎◌, [], ◌∷◌, ◌≡◌, ◌≢◌, refl, ◌∙◌, sym, ap, ap₂, inl, inr, Bool, true, false, ◌&&◌, some,
  List, map, arith, All, ◌==◌, ◌↔◌, Bool-cases, Option-cases, if◌then◌else◌,
}
use markaz.Prelude.Int.{pos, ◌+ℤ◌, ◌≤ℤ◌, int_laws}
use markaz.Prelude.Sums.{sum_by}
use markaz.Prelude.Text.{Text}
use markaz.Decimals.{Decimal, Arithmetic, IsArithmetic, IsScaled}
use markaz.Store.{Result-cases, ok, find}
use markaz.Inventory.Stock.{StockActor}
use markaz.Inventory.StockIssue.{is_empty}
use markaz.Inventory.GoodsReceipt.{GoodsReceiptLineInput, CreateGoodsReceiptInput, create_in}
use markaz.Accounting.Engine.Constraints.{commit}
use markaz.Purchasing.PurchaseOrder.{
  set_status, PurchaseOrderLine, OrderStatus, approved, received, partially_received, PurchaseOrder,
  PurchaseDb,
}
use markaz.Purchasing.PurchaseReceipt.{
  ReceiveAgainstOrderInput, ReceiveAgainstOrderLine, requested_of, PurchaseReceiptResult,
  is_receivable, lines_of_order, is_outstanding, receipt_lines, receivable, receive, count_received,
  is_all_received,
}
use markaz.Purchasing.PurchaseReceipt.Laws.{
  with_requested, IsWithin, count_received_lem, IsFullyReceived, is_all_received_iff,
}
use markaz.Purchasing.PurchaseReceipt.Positive.{create_in_positive, receipt_lines_positive}

receivable_inv :
    (m : Arithmetic) (order_id : ℕ) (input : ReceiveAgainstOrderInput) (actor : StockActor)
    (db db' : PurchaseDb) (order : PurchaseOrder) (lines : List GoodsReceiptLineInput)
    → receivable m order_id input actor db ≡ ok ((order, lines), db')
    → (db' ≡ db)
      × (find (λ o. (o.id == order_id) && (o.company_id == actor.company_id)) db.purchase_orders
          ≡ some order)
      × (is_receivable order.status ≡ true)
      × (receipt_lines m (lines_of_order order_id db.purchase_order_lines) input.lines ≡ ok lines)
unfolding receivable
receivable_inv m order_id input actor db db' order lines e =
    elim (Bool-cases (is_empty input.lines)) [
      | inl nothing ↦ absurd (ground arith)
      | inr some_lines ↦
          elim (Option-cases (
            find (λ o. (o.id == order_id) && (o.company_id == actor.company_id))
              db.purchase_orders)) [
                | inl unknown ↦ absurd (ground arith)
                | inr (o, there) ↦ elim (Bool-cases (is_receivable o.status)) [
                  | inr closed ↦ absurd (ground arith)
                  | inl fitting ↦
                      let order_lines = lines_of_order order_id db.purchase_order_lines in
                      elim (Result-cases (receipt_lines m order_lines input.lines)) [
                        | inr (x, bad) ↦ absurd (ground arith)
                        | inl (given, named) ↦
                            elim (Bool-cases (is_outstanding order_lines input.lines input.lines)) [
                              | inr over ↦ absurd (ground arith)
                              | inl fits ↦ (ground arith, ground arith, ground arith, ground arith)
                            ]
                      ]
                ]
              ]
    ]

-- The quantities on a line of the order, added up over the request.
abbrev pub asked_on : ℕ → List ReceiveAgainstOrderLine → Decimal
asked_on id = sum_by λ l. if l.purchase_order_line_id == id then l.quantity else pos 0

requested_of-eq :
    (id : ℕ) (lines : List ReceiveAgainstOrderLine) → requested_of id lines ≡ asked_on id lines
requested_of-eq id [] = refl
requested_of-eq id (line ∷ lines) =
    let rest = requested_of-eq id lines in
    elim (Bool-cases (line.purchase_order_line_id == id)) [
      | inl own ↦ rw (own, rest) refl
      | inr other ↦ rw (other, rest) (omega int_laws)
    ]

-- A line after what is asked for was received on it.
abbrev pub booked : ℕ → List ReceiveAgainstOrderLine → PurchaseOrderLine → PurchaseOrderLine
booked order_id requested l =
    if l.purchase_order_id == order_id
    then record l { received_quantity = l.received_quantity +ℤ asked_on l.id requested }
    else l

with_requested-booked :
    (order_id : ℕ) (requested : List ReceiveAgainstOrderLine) (table : List PurchaseOrderLine)
    → map (with_requested order_id requested) table ≡ map (booked order_id requested) table
with_requested-booked order_id requested [] = refl
with_requested-booked order_id requested (l ∷ ls) =
    ap₂ (λ x xs. x ∷ xs)
      (ap
        (λ q.
          if l.purchase_order_id == order_id
          then record l { received_quantity = l.received_quantity +ℤ q }
          else l)
        (requested_of-eq l.id requested))
      (with_requested-booked order_id requested ls)

-- The order with the id after its status was set.
abbrev pub with_status : ℕ → OrderStatus → PurchaseOrder → PurchaseOrder
with_status id status o =
    if o.id == id then record o { status = status; version = suc o.version } else o

set_status-map :
    (id : ℕ) (status : OrderStatus) (orders : List PurchaseOrder)
    → set_status id status orders ≡ map (with_status id status) orders
set_status-map id status [] = refl
set_status-map id status (o ∷ os) =
    ap (λ more. with_status id status o ∷ more) (set_status-map id status os)

open_status : (s : OrderStatus) → is_receivable s ≡ true → (s ≡ approved) ⊎ (s ≡ partially_received)
open_status s h = ground arith

either_status :
    (b : Bool) (s : OrderStatus)
    → s ≡ (if b then received else partially_received)
    → (s ≡ received) ⊎ (s ≡ partially_received)
either_status true s e = inl e
either_status false s e = inr e

not_both : true ≢ false
not_both e = ground arith

is_received : OrderStatus → Bool
is_received received = true
is_received _ = false

received_iff :
    {P : Type 0} (b : Bool) (s : OrderStatus)
    → (b ≡ true) ↔ P
    → s ≡ (if b then received else partially_received)
    → (s ≡ received) ↔ P
unfolding is_received
received_iff true s full e = (λ h. full.0 refl, λ p. e)
received_iff false s full e =
    (λ h. absurd (not_both (ap is_received (sym h ∙ e))), λ p. absurd (not_both (sym (full.1 p))))

module _ (m : Arithmetic) (order_id : ℕ) (input : ReceiveAgainstOrderInput)
    (actor : StockActor) where
  pub receive_inv :
      (correlation_id : ℕ) (key : Text) (db db' : PurchaseDb) (r : PurchaseReceiptResult)
      → receive m order_id input actor correlation_id key db ≡ ok (r, db')
      → (order : PurchaseOrder) × (find
            (λ o. (o.id == order_id) && (o.company_id == actor.company_id))
            db.purchase_orders
          ≡ some order)
        × (is_receivable order.status ≡ true)
        × All (λ l. pos 1 ≤ℤ l.quantity) input.lines
        × (count_received m order_id input.lines db.purchase_order_lines
            ≡ ok db'.purchase_order_lines)
        × (r.order_status ≡ (
            if is_all_received order_id input.lines db.purchase_order_lines
            then received
            else partially_received))
        × (db'.purchase_orders ≡ set_status order_id r.order_status db.purchase_orders)
  unfolding receive
  receive_inv correlation_id key db db' r e =
      elim (Result-cases (receivable m order_id input actor db)) [
        | inr (x, bad) ↦ absurd (ground arith)
        | inl (((order, lines), db0), allowed) ↦
            let (same, there, open_order, named) =
              receivable_inv m order_id input actor db db0 order lines allowed in
            let receipt_input : CreateGoodsReceiptInput = record {
              warehouse_id = input.warehouse_id;
              party_id = some order.supplier_id;
              purchase_order_id = some order_id;
              document_date = input.document_date;
              reference = input.reference;
              lines = lines;
            } in
            elim (Result-cases (create_in m receipt_input actor correlation_id key db0.stock)) [
              | inr (x, bad) ↦ absurd (ground arith)
              | inl ((receipt, stock), made) ↦
                  let positive =
                    receipt_lines_positive m (lines_of_order order_id db.purchase_order_lines)
                      input.lines lines named
                      (create_in_positive m receipt_input actor correlation_id key db0.stock stock
                        receipt made) in
                  let lines_same : db0.purchase_order_lines ≡ db.purchase_order_lines =
                    ap (λ x. x.purchase_order_lines) same in
                  elim (Result-cases
                    (count_received m order_id input.lines db0.purchase_order_lines)) [
                      | inr (x, bad) ↦ absurd (ground arith)
                      | inl (table, counted) ↦ elim (Result-cases (commit stock.ledger)) [
                        | inr (x, bad) ↦ absurd (ground arith)
                        | inl ((u, l), settled) ↦
                            let written : db'.purchase_order_lines ≡ table = ground arith in
                            let ordered : db'.purchase_orders
                                ≡ set_status order_id r.order_status db0.purchase_orders =
                              ground arith in
                            let status : r.order_status ≡ (
                                if is_all_received order_id input.lines db0.purchase_order_lines
                                then received
                                else partially_received) =
                              ground arith in
                            (
                              order,
                              there,
                              open_order,
                              positive,
                              ap (count_received m order_id input.lines) (sym lines_same)
                                  ∙ counted
                                  ∙ ap ok (sym written),
                              status
                                  ∙ ap
                                      (λ x.
                                        if is_all_received order_id input.lines x
                                        then received
                                        else partially_received)
                                      lines_same,
                              ordered
                                  ∙ ap (λ x. set_status order_id r.order_status x.purchase_orders)
                                      same,
                            )
                      ]
                    ]
            ]
      ]

  -- Goods are received only against an approved or partly received order of the company. The received
  -- quantity of each of its lines grows by exactly what is asked for on it in all, every other line
  -- stays, and no line ever has more received than was ordered. The answer is RECEIVED exactly where all
  -- of the order is there, else PARTIALLY_RECEIVED; the order's row gets that status and the next version,
  -- and no other order changes. This holds for quantities of the column's scale.
  pub receive_lem :
      IsArithmetic m
      → (correlation_id : ℕ) (key : Text) (db db' : PurchaseDb) (r : PurchaseReceiptResult)
      → All (λ l. IsScaled m l.quantity) input.lines
      → All (λ l. IsScaled m l.received_quantity) db.purchase_order_lines
      → All IsWithin db.purchase_order_lines
      → receive m order_id input actor correlation_id key db ≡ ok (r, db')
      → ((order : PurchaseOrder) × (find
              (λ o. (o.id == order_id) && (o.company_id == actor.company_id))
              db.purchase_orders
            ≡ some order)
          × ((order.status ≡ approved) ⊎ (order.status ≡ partially_received)))
        × (db'.purchase_order_lines ≡ map (booked order_id input.lines) db.purchase_order_lines)
        × All IsWithin db'.purchase_order_lines
        × ((r.order_status ≡ received) ↔ IsFullyReceived order_id db'.purchase_order_lines)
        × ((r.order_status ≡ received) ⊎ (r.order_status ≡ partially_received))
        × (db'.purchase_orders ≡ map (with_status order_id r.order_status) db.purchase_orders)
  receive_lem laws correlation_id key db db' r whole scaled within e =
      let (order, there, open_order, positive, counted, status, ordered) =
        receive_inv correlation_id key db db' r e in
      let (table, inside) =
        count_received_lem m laws order_id input.lines db.purchase_order_lines
          db'.purchase_order_lines positive whole scaled within counted in
      let full = is_all_received_iff order_id input.lines db.purchase_order_lines in
      (
        (order, there, open_status order.status open_order),
        table ∙ with_requested-booked order_id input.lines db.purchase_order_lines,
        inside,
        rw table (
            received_iff (is_all_received order_id input.lines db.purchase_order_lines)
              r.order_status full status),
        either_status (is_all_received order_id input.lines db.purchase_order_lines) r.order_status
            status,
        ordered ∙ set_status-map order_id r.order_status db.purchase_orders,
      )
