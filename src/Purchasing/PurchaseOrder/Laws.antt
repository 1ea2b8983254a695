-- ===== src/Purchasing/PurchaseOrder/Laws.antt =====
-- What a decision and a cancellation do to the status of an order.
use markaz.Prelude.{
  ℕ, ◌≡◌, ◌∙◌, ap, inl, inr, true, Option, none, some, arith, Bool-cases, Option-cases,
}
use markaz.Prelude.Text.{Text, codes}
use markaz.Store.{Result-cases, ok}
use markaz.Approvals.{ApprovalDecision, reject, decide as decide_request}
use markaz.Inventory.Stock.{StockActor}
use markaz.Purchasing.PurchaseOrder.{
  cancelled, PurchaseOrder, PurchaseDb, PurchaseOrderCreated, set_status, locked_order,
  is_pending_approval, is_cancellable, pending_request, decided_status, decide, reject_request,
  cancel,
}

pub decide_inv :
    (id : ℕ) (decision : ApprovalDecision) (actor : StockActor) (now : ℕ) (reason : Option Text)
    (db db' : PurchaseDb) (r : PurchaseOrderCreated)
    → decide id decision actor now reason db ≡ ok (r, db')
    → (order : PurchaseOrder) × (locked_order id actor.company_id db.purchase_orders ≡ some order)
      × (is_pending_approval order.status ≡ true)
      × (db'.purchase_orders ≡ set_status id (decided_status decision) db.purchase_orders)
unfolding decide
decide_inv id decision actor now reason db db' r e =
    elim (Option-cases (locked_order id actor.company_id db.purchase_orders)) [
      | inl unknown ↦ absurd (ground arith)
      | inr (order, there) ↦ elim (Bool-cases (is_pending_approval order.status)) [
        | inr other ↦ absurd (ground arith)
        | inl waits ↦ elim (Option-cases order.approval_request_id) [
          | inl missing ↦ absurd (ground arith)
          | inr (request, asked) ↦
              elim (Result-cases
                (decide_request request decision actor.id now reason db.approvals)) [
                  | inr (x, bad) ↦ absurd (ground arith)
                  | inl ((a, approvals), decided_it) ↦ (order, there, waits, ground arith)
                ]
        ]
      ]
    ]

reject_request_inv :
    (request : Option ℕ) (actor : StockActor) (now : ℕ) (db db' : PurchaseDb) (u : Unit {0})
    → reject_request request actor now db ≡ ok (u, db')
    → db'.purchase_orders ≡ db.purchase_orders
reject_request_inv none actor now db db' u e = ground arith
reject_request_inv (some request) actor now db db' u e =
    elim (Result-cases
      (decide_request request reject actor.id now (some (codes "Order cancelled")) db.approvals)) [
        | inr (x, bad) ↦ absurd (ground arith)
        | inl ((a, approvals), done_it) ↦ ground arith
      ]

pub cancel_inv :
    (id : ℕ) (actor : StockActor) (now : ℕ) (db db' : PurchaseDb) (r : PurchaseOrderCreated)
    → cancel id actor now db ≡ ok (r, db')
    → (order : PurchaseOrder) × (locked_order id actor.company_id db.purchase_orders ≡ some order)
      × (is_cancellable order.status ≡ true)
      × (db'.purchase_orders ≡ set_status id cancelled db.purchase_orders)
unfolding cancel
cancel_inv id actor now db db' r e =
    elim (Option-cases (locked_order id actor.company_id db.purchase_orders)) [
      | inl unknown ↦ absurd (ground arith)
      | inr (order, there) ↦ elim (Bool-cases (is_cancellable order.status)) [
        | inr closed ↦ absurd (ground arith)
        | inl fitting ↦ elim (Result-cases (reject_request (pending_request order) actor now db)) [
          | inr (x, bad) ↦ absurd (ground arith)
          | inl ((u, db1), rejected_it) ↦
              let same =
                reject_request_inv (pending_request order) actor now db db1 u rejected_it in
              let ended : db'.purchase_orders ≡ set_status id cancelled db1.purchase_orders =
                ground arith in
              (order, there, fitting, ended ∙ ap (set_status id cancelled) same)
        ]
      ]
    ]
