-- ===== src/Purchasing/PurchaseOrder.antt =====
-- `decide` and `cancel` of packages/core/src/purchasing/purchase-order.service.ts, with the tables of
-- orders: the states of an order. (The audit records are left out; `now` is the clock.)
pub mod Laws
use markaz.Prelude.{
  ℕ, suc, Bool, true, false, ◌&&◌, Option, none, some, List, [], ◌∷◌, ◌==◌, if◌then◌else◌,
}
use markaz.Prelude.Text.{Text, codes}
use markaz.Decimals.{Decimal}
use markaz.Store.{
  order_error, order_not_found, not_pending_approval, not_cancellable, ok, err, ActionOn, ◌>>=◌,
  ◌>>◌, pure, gets, modify, require, or_throw, find,
}
use markaz.Approvals.{ApprovalDb, ApprovalDecision, approve, reject, decide as decide_request}
use markaz.Inventory.Stock.{StockDb, StockActor}

pub data OrderStatus : Type 0 where
  pending_approval approved rejected partially_received received cancelled : OrderStatus

-- What the services read and write of an order and of its lines.
pub record PurchaseOrder : Type 0 where
  pub id : ℕ
  pub company_id : ℕ
  pub number : Text
  pub supplier_id : ℕ
  pub status : OrderStatus
  pub approval_request_id : Option ℕ
  pub version : ℕ

pub record PurchaseOrderLine : Type 0 where
  pub id : ℕ
  pub purchase_order_id : ℕ
  pub item_id : ℕ
  pub quantity : Decimal
  pub unit_price : Decimal
  pub received_quantity : Decimal

pub record PurchaseDb : Type 0 where
  pub stock : StockDb
  pub approvals : ApprovalDb
  pub purchase_orders : List PurchaseOrder
  pub purchase_order_lines : List PurchaseOrderLine

pub record PurchaseOrderCreated : Type 0 where
  pub id : ℕ
  pub number : Text
  pub status : OrderStatus

-- A step of the stock services, on their part of the tables.
abbrev pub on_stock : {A : Type 0} → ActionOn StockDb A → ActionOn PurchaseDb A
on_stock act db = elim (act db.stock) [
  | ok (a, stock) ↦ ok (a, record db { stock = stock })
  | err e ↦ err e
]

-- A decision on an approval request, inside the transaction of its caller.
abbrev pub on_approvals : {A : Type 0} → ActionOn ApprovalDb A → ActionOn PurchaseDb A
on_approvals act db = elim (act db.approvals) [
  | ok (a, approvals) ↦ ok (a, record db { approvals = approvals })
  | err e ↦ err e
]

-- `purchaseOrder.update`.
abbrev pub set_status : ℕ → OrderStatus → List PurchaseOrder → List PurchaseOrder
set_status id status [] = []
set_status id status (o ∷ os) =
    (if o.id == id then record o { status = status; version = suc o.version } else o)
    ∷ set_status id status os

abbrev pub locked_order : ℕ → ℕ → List PurchaseOrder → Option PurchaseOrder
locked_order id company_id orders = find (λ o. (o.id == id) && (o.company_id == company_id)) orders

abbrev pub is_pending_approval : OrderStatus → Bool
is_pending_approval pending_approval = true
is_pending_approval _ = false

abbrev pub is_cancellable : OrderStatus → Bool
is_cancellable pending_approval = true
is_cancellable approved = true
is_cancellable _ = false

-- The request of an order that waits for approval.
abbrev pub pending_request : PurchaseOrder → Option ℕ
pending_request order = if is_pending_approval order.status then order.approval_request_id else none

abbrev pub decided_status : ApprovalDecision → OrderStatus
decided_status approve = approved
decided_status reject = rejected

unfoldable pub decide :
    ℕ → ApprovalDecision → StockActor → ℕ → Option Text → ActionOn PurchaseDb PurchaseOrderCreated
decide id decision actor now reason = do
  found ← gets λ db. locked_order id actor.company_id db.purchase_orders
  order ← or_throw found (order_error order_not_found)
  request_id ← or_throw (pending_request order) (order_error not_pending_approval)
  on_approvals (decide_request request_id decision actor.id now reason)
  modify λ db. record db {
    purchase_orders = set_status id (decided_status decision) db.purchase_orders;
  }
  pure (record { id = id; number = order.number; status = decided_status decision })

-- The request that goes with a cancelled order is rejected.
abbrev pub reject_request : Option ℕ → StockActor → ℕ → ActionOn PurchaseDb (Unit {0})
reject_request none actor now = pure tt
reject_request (some request_id) actor now =
    on_approvals (decide_request request_id reject actor.id now (some (codes "Order cancelled")))
    >> pure tt

unfoldable pub cancel : ℕ → StockActor → ℕ → ActionOn PurchaseDb PurchaseOrderCreated
cancel id actor now = do
  found ← gets λ db. locked_order id actor.company_id db.purchase_orders
  order ← or_throw found (order_error order_not_found)
  require (is_cancellable order.status) (order_error not_cancellable)
  reject_request (pending_request order) actor now
  modify λ db. record db { purchase_orders = set_status id cancelled db.purchase_orders }
  pure (record { id = id; number = order.number; status = cancelled })
