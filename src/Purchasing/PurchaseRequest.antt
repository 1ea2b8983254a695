-- ===== src/Purchasing/PurchaseRequest.antt =====
-- packages/core/src/purchasing/purchase-request.service.ts: a request to buy, its review and its
-- rejection. (A request becomes PROCESSED when the order service makes an order from it; the audit
-- records are left out.)
pub mod Laws
use markaz.Prelude.{
  ℕ, ◌+◌, Bool, true, false, not, ◌&&◌, ◌||◌, Option, none, some, List, [], ◌∷◌, ◌++◌, map, ◌==◌,
  if◌then◌else◌, length,
}
use markaz.Prelude.Text.{Text, codes, trim}
use markaz.Decimals.{Decimal}
use markaz.Store.{
  Db, Error, request_error, empty_request, item_not_found, warehouse_not_found, request_not_found,
  not_pending, Result, ok, err, Action, ActionOn, ◌>>=◌, ◌>>◌, pure, gets, modify, require,
  or_throw, new_id, find,
}
use markaz.Accounting.FiscalYear.{FiscalYear, fiscal_year_key_for}
use markaz.Reference.{allocate_document_number}

pub data PurchaseRequestStatus : Type 0 where
  waiting accepted processed turned_down : PurchaseRequestStatus

pub record PurchaseRequestLineInput : Type 0 where
  pub item_id : ℕ
  pub quantity : Decimal
  pub notes : Option Text

pub record CreatePurchaseRequestInput : Type 0 where
  pub warehouse_id : ℕ
  pub notes : Option Text
  pub lines : List PurchaseRequestLineInput

pub record PurchaseRequestActor : Type 0 where
  pub id : ℕ
  pub company_id : ℕ

pub record PurchaseRequestLine : Type 0 where
  pub id : ℕ
  pub item_id : ℕ
  pub quantity : Decimal
  pub notes : Option Text
  pub line_number : ℕ

pub record PurchaseRequest : Type 0 where
  pub id : ℕ
  pub company_id : ℕ
  pub number : Text
  pub status : PurchaseRequestStatus
  pub warehouse_id : ℕ
  pub notes : Option Text
  pub requested_by : ℕ
  pub correlation_id : ℕ
  pub accepted_by : Option ℕ
  pub accepted_at : Option ℕ
  pub rejection_reason : Option Text
  pub decided_by : Option ℕ
  pub decided_at : Option ℕ
  pub lines : List PurchaseRequestLine

-- What is read of items and warehouses.
pub record Stocked : Type 0 where
  pub id : ℕ
  pub company_id : ℕ
  pub is_active : Bool

pub record RequestDb : Type 0 where
  pub ledger : Db
  pub fiscal_years : List FiscalYear
  pub items : List Stocked
  pub warehouses : List Stocked
  pub purchase_requests : List PurchaseRequest

abbrev pub text_or_none : Text → Option Text
text_or_none [] = none
text_or_none (c ∷ t) = some (c ∷ t)

abbrev pub blank_to_null : Option Text → Option Text
blank_to_null none = none
blank_to_null (some t) = text_or_none (trim t)

abbrev pub is_active_in : ℕ → ℕ → Stocked → Bool
is_active_in company_id id s = (s.id == id) && ((s.company_id == company_id) && s.is_active)

abbrev pub is_some : Option Stocked → Bool
is_some none = false
is_some (some s) = true

-- `items.length !== itemIds.length`: an item that is named is missing.
abbrev pub all_items_found : ℕ → List Stocked → List PurchaseRequestLineInput → Bool
all_items_found company_id items [] = true
all_items_found company_id items (l ∷ ls) =
    is_some (find (is_active_in company_id l.item_id) items) && all_items_found company_id items ls

abbrev pub request_lines : ℕ → ℕ → List PurchaseRequestLineInput → List PurchaseRequestLine
request_lines id line_number [] = []
request_lines id line_number (l ∷ ls) =
    record {
      id = id;
      item_id = l.item_id;
      quantity = l.quantity;
      notes = blank_to_null l.notes;
      line_number = line_number;
    }
    ∷ request_lines (id + 1) (line_number + 1) ls

abbrev pub on_ledger : {A : Type 0} → Action A → ActionOn RequestDb A
on_ledger act db = elim (act db.ledger) [
  | ok (a, ledger) ↦ ok (a, record db { ledger = ledger })
  | err e ↦ err e
]

abbrev pub request_row :
    CreatePurchaseRequestInput → PurchaseRequestActor → ℕ → ℕ → Text → ℕ → PurchaseRequest
request_row input actor correlation_id id number first_id = record {
  id = id;
  company_id = actor.company_id;
  number = number;
  status = waiting;
  warehouse_id = input.warehouse_id;
  notes = blank_to_null input.notes;
  requested_by = actor.id;
  correlation_id = correlation_id;
  accepted_by = none;
  accepted_at = none;
  rejection_reason = none;
  decided_by = none;
  decided_at = none;
  lines = request_lines first_id 1 input.lines;
}

abbrev pub insert_request : PurchaseRequest → RequestDb → RequestDb
insert_request r db = record db { purchase_requests = r ∷ db.purchase_requests }

abbrev pub is_nonempty : List PurchaseRequestLineInput → Bool
is_nonempty [] = false
is_nonempty (l ∷ ls) = true

-- `now` is the date of `new Date()`.
unfoldable pub create :
    CreatePurchaseRequestInput → PurchaseRequestActor → ℕ → ℕ → ActionOn RequestDb PurchaseRequest
create input actor correlation_id now = do
  require (is_nonempty input.lines) (request_error empty_request)
  id ← on_ledger new_id
  db ← gets λ db. db
  require (all_items_found actor.company_id db.items input.lines) (request_error item_not_found)
  require (is_some (find (is_active_in actor.company_id input.warehouse_id) db.warehouses))
      (request_error warehouse_not_found)
  number ← on_ledger (
      allocate_document_number actor.company_id (codes "purchase_request") (codes "PRQ")
        (fiscal_year_key_for actor.company_id now db.fiscal_years))
  first_id ← gets λ db. db.ledger.next_id
  on_ledger (modify λ l. record l { next_id = l.next_id + length input.lines })
  modify (insert_request (request_row input actor correlation_id id number first_id))
  pure (request_row input actor correlation_id id number first_id)

-- The WHERE of the locking SELECT.
abbrev pub is_locked : ℕ → ℕ → PurchaseRequest → Bool
is_locked id company_id r = (r.id == id) && (r.company_id == company_id)

-- `update({ where: { id } })`.
abbrev pub update_request :
    ℕ → (PurchaseRequest → PurchaseRequest) → List PurchaseRequest → List PurchaseRequest
update_request id f [] = []
update_request id f (r ∷ rs) = (if r.id == id then f r else r) ∷ update_request id f rs

abbrev pub update_in : ℕ → (PurchaseRequest → PurchaseRequest) → RequestDb → RequestDb
update_in id f db = record db { purchase_requests = update_request id f db.purchase_requests }

abbrev pub is_waiting : PurchaseRequestStatus → Bool
is_waiting waiting = true
is_waiting accepted = false
is_waiting processed = false
is_waiting turned_down = false

abbrev pub is_undecided : PurchaseRequestStatus → Bool
is_undecided waiting = true
is_undecided accepted = true
is_undecided processed = false
is_undecided turned_down = false

abbrev pub as_accepted : PurchaseRequestActor → ℕ → PurchaseRequest → PurchaseRequest
as_accepted actor now r = record r {
  status = accepted;
  accepted_by = some actor.id;
  accepted_at = some now;
}

abbrev pub as_rejected : Text → PurchaseRequestActor → ℕ → PurchaseRequest → PurchaseRequest
as_rejected reason actor now r = record r {
  status = turned_down;
  rejection_reason = some (trim reason);
  decided_by = some actor.id;
  decided_at = some now;
}

unfoldable pub accept : ℕ → PurchaseRequestActor → ℕ → ActionOn RequestDb PurchaseRequest
accept id actor now = do
  db ← gets λ db. db
  current ←
      or_throw (find (is_locked id actor.company_id) db.purchase_requests)
        (request_error request_not_found)
  require (is_waiting current.status) (request_error not_pending)
  modify (update_in id (as_accepted actor now))
  pure (as_accepted actor now current)

unfoldable pub reject : ℕ → Text → PurchaseRequestActor → ℕ → ActionOn RequestDb PurchaseRequest
reject id reason actor now = do
  db ← gets λ db. db
  current ←
      or_throw (find (is_locked id actor.company_id) db.purchase_requests)
        (request_error request_not_found)
  require (is_undecided current.status) (request_error not_pending)
  modify (update_in id (as_rejected reason actor now))
  pure (as_rejected reason actor now current)
