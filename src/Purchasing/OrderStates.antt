-- ===== src/Purchasing/OrderStates.antt =====
-- The states of an order over decisions, cancellations and receipts (packages/core/src/purchasing:
-- purchase-order.service.ts and purchase-receipt.service.ts).
use markaz.Prelude.{
  ℕ, ◌≡◌, ◌∙◌, sym, ap, inl, inr, Bool, true, false, ◌&&◌, Option, some, List, [], ◌∷◌, arith, All,
  ◌==◌, Bool-cases,
}
use markaz.Prelude.Text.{Text}
use markaz.Decimals.{Arithmetic}
use markaz.Store.{ok}
use markaz.Approvals.{ApprovalDecision}
use markaz.Inventory.Stock.{StockActor}
use markaz.Purchasing.PurchaseOrder.{
  OrderStatus, rejected, received, cancelled, PurchaseOrder, PurchaseDb, PurchaseOrderCreated,
  set_status, locked_order, is_pending_approval, is_cancellable, decide, cancel,
}
use markaz.Purchasing.PurchaseOrder.Laws.{decide_inv, cancel_inv}
use markaz.Purchasing.PurchaseReceipt.{
  ReceiveAgainstOrderInput, PurchaseReceiptResult, is_receivable, receive,
}
use markaz.Purchasing.PurchaseReceipt.Bound.{receive_inv}

-- A call that succeeded, of any actor on any order.
pub data Step (m : Arithmetic) : PurchaseDb → PurchaseDb → Type 0 where
  decides :
      {db db' : PurchaseDb} (id : ℕ) (decision : ApprovalDecision) (actor : StockActor) (now : ℕ)
      (reason : Option Text) (r : PurchaseOrderCreated)
      → decide id decision actor now reason db ≡ ok (r, db')
      → Step m db db'
  cancels :
      {db db' : PurchaseDb} (id : ℕ) (actor : StockActor) (now : ℕ) (r : PurchaseOrderCreated)
      → cancel id actor now db ≡ ok (r, db')
      → Step m db db'
  receives :
      {db db' : PurchaseDb} (id : ℕ) (input : ReceiveAgainstOrderInput) (actor : StockActor)
      (correlation_id : ℕ) (key : Text) (r : PurchaseReceiptResult)
      → receive m id input actor correlation_id key db ≡ ok (r, db')
      → Step m db db'

pub data Reach (m : Arithmetic) : PurchaseDb → PurchaseDb → Type 0 where
  here : {db : PurchaseDb} → Reach m db db
  next : {db db1 db' : PurchaseDb} → Step m db db1 → Reach m db1 db' → Reach m db db'

-- The order has the status.
abbrev pub HasStatus : ℕ → OrderStatus → List PurchaseOrder → Type 0
HasStatus id s orders = All (λ o. (o.id == id) ≡ true → o.status ≡ s) orders

-- Where an order ends.
abbrev pub is_final : OrderStatus → Bool
is_final rejected = true
is_final received = true
is_final cancelled = true
is_final _ = false

locked_status :
    (id k company_id : ℕ) (s : OrderStatus) (orders : List PurchaseOrder) (order : PurchaseOrder)
    → HasStatus id s orders
    → locked_order k company_id orders ≡ some order
    → (k == id) ≡ true
    → order.status ≡ s
locked_status id k company_id s [] order h e same = absurd (ground arith)
locked_status id k company_id s (o ∷ os) order (own, h) e same =
    elim (Bool-cases ((o.id == k) && (o.company_id == company_id))) [
      | inl hit ↦
          let first : o ≡ order = ground arith in
          let at : (o.id == id) ≡ true = ground arith in ap (λ x. x.status) (sym first) ∙ own at
      | inr elsewhere ↦ locked_status id k company_id s os order h (ground arith) same
    ]

set_status_other :
    (id k : ℕ) (s t : OrderStatus) (orders : List PurchaseOrder)
    → (k == id) ≡ false
    → HasStatus id s orders
    → HasStatus id s (set_status k t orders)
set_status_other id k s t [] apart h = tt
set_status_other id k s t (o ∷ os) apart (own, h) =
    let rest = set_status_other id k s t os apart h in
    elim (Bool-cases (o.id == k)) [
      | inl hit ↦ rw hit (λ e. absurd (ground arith), rest)
      | inr miss ↦ rw miss (own, rest)
    ]

-- A call on an order that is not final leaves a final one alone.
moved_on :
    (id k company_id : ℕ) (s t : OrderStatus) (orders : List PurchaseOrder) (order : PurchaseOrder)
    → is_final s ≡ true
    → HasStatus id s orders
    → locked_order k company_id orders ≡ some order
    → is_final order.status ≡ false
    → HasStatus id s (set_status k t orders)
moved_on id k company_id s t orders order final h found going = elim (Bool-cases (k == id)) [
  | inr apart ↦ set_status_other id k s t orders apart h
  | inl own ↦
      let same = locked_status id k company_id s orders order h found own in
      let stuck : is_final order.status ≡ true = ap is_final same ∙ final in absurd (ground arith)
]

pending_goes_on : (s : OrderStatus) → is_pending_approval s ≡ true → is_final s ≡ false
pending_goes_on s h = ground arith

cancellable_goes_on : (s : OrderStatus) → is_cancellable s ≡ true → is_final s ≡ false
cancellable_goes_on s h = ground arith

receivable_goes_on : (s : OrderStatus) → is_receivable s ≡ true → is_final s ≡ false
receivable_goes_on s h = ground arith

module _ (m : Arithmetic) (id : ℕ) (s : OrderStatus) (final : is_final s ≡ true) where
  Step-HasStatus :
      {db db' : PurchaseDb}
      → Step m db db'
      → HasStatus id s db.purchase_orders
      → HasStatus id s db'.purchase_orders
  Step-HasStatus {db} {db'} (decides k decision actor now reason r e) h =
      let (order, found, waits, same) = decide_inv k decision actor now reason db db' r e in
      rw same (
        moved_on id k actor.company_id s _ db.purchase_orders order final h found
          (pending_goes_on order.status waits))
  Step-HasStatus {db} {db'} (cancels k actor now r e) h =
      let (order, found, fitting, same) = cancel_inv k actor now db db' r e in
      rw same (
        moved_on id k actor.company_id s _ db.purchase_orders order final h found
          (cancellable_goes_on order.status fitting))
  Step-HasStatus {db} {db'} (receives k input actor correlation key r e) h =
      let (order, found, fitting, _, _, _, same) =
        receive_inv m k input actor correlation key db db' r e in
      rw same (
        moved_on id k actor.company_id s _ db.purchase_orders order final h found
          (receivable_goes_on order.status fitting))

  -- A rejected, a cancelled and a received order stay so: no sequence of decisions, cancellations and
  -- receipts, by whomever and on whichever orders, changes the status.
  pub order_final :
      {db db' : PurchaseDb}
      → Reach m db db'
      → HasStatus id s db.purchase_orders
      → HasStatus id s db'.purchase_orders
  order_final here h = h
  order_final (next step rest) h = order_final rest (Step-HasStatus step h)
