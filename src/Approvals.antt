-- ===== src/Approvals.antt =====
-- packages/core/src/approvals (approval-policy.ts, approval.service.ts): a document over its policy's
-- threshold gets one approval request, which is decided once.
pub mod Laws
pub mod Repeat
use markaz.Prelude.{
  ℕ, ◌+◌, ◌≡◌, Bool, true, false, ◌&&◌, Option, none, some, List, [], ◌∷◌, ◌==◌, if◌then◌else◌,
}
use markaz.Prelude.Text.{Text, text_eq}
use markaz.Decimals.{Decimal, greater_than}
use markaz.Store.{
  Error, currency_mismatch, record_not_found, already_decided, Result, ok, err, ActionOn, ◌>>=◌,
  ◌>>◌, pure, gets, modify, require, or_throw, find,
}

pub record ApprovalPolicy : Type 0 where
  pub company_id : ℕ
  pub subject_type : Text
  pub threshold_amount : Decimal
  pub currency : Text

pub data ApprovalStatus : Type 0 where
  pending approved rejected : ApprovalStatus

pub data ApprovalDecision : Type 0 where
  approve reject : ApprovalDecision

pub record ApprovalRequest : Type 0 where
  pub id : ℕ
  pub company_id : ℕ
  pub subject_type : Text
  pub subject_id : ℕ
  pub amount : Decimal
  pub currency : Text
  pub status : ApprovalStatus
  pub requested_by : ℕ
  pub decided_by : Option ℕ
  pub decided_at : Option ℕ
  pub reason : Option Text
  pub correlation_id : ℕ

-- The two tables, and the counter that ids come from.
pub record ApprovalDb : Type 0 where
  pub policies : List ApprovalPolicy
  pub requests : List ApprovalRequest
  pub next_id : ℕ

pub record RequestApprovalInput : Type 0 where
  pub company_id : ℕ
  pub subject_type : Text
  pub subject_id : ℕ
  pub amount : Decimal
  pub currency : Text
  pub requested_by : ℕ
  pub correlation_id : ℕ

pub record ApprovalRequestResult : Type 0 where
  pub id : ℕ
  pub status : ApprovalStatus

abbrev pub get_policy : ℕ → Text → ApprovalDb → Option ApprovalPolicy
get_policy company_id subject_type db =
    find (λ p. (p.company_id == company_id) && text_eq p.subject_type subject_type) db.policies

-- `compareTo` refuses another currency.
abbrev pub requires_approval : Decimal → Text → Option ApprovalPolicy → Result Bool
requires_approval amount currency none = ok false
requires_approval amount currency (some p) =
    if text_eq currency p.currency
    then ok (greater_than amount p.threshold_amount)
    else err currency_mismatch

abbrev pub is_for : RequestApprovalInput → ApprovalRequest → Bool
is_for input r =
    (r.company_id == input.company_id)
    && (text_eq r.subject_type input.subject_type && (r.subject_id == input.subject_id))

abbrev pub find_for : RequestApprovalInput → ApprovalDb → Option ApprovalRequest
find_for input db = find (is_for input) db.requests

abbrev pub new_request : RequestApprovalInput → ℕ → ApprovalRequest
new_request input id = record {
  id = id;
  company_id = input.company_id;
  subject_type = input.subject_type;
  subject_id = input.subject_id;
  amount = input.amount;
  currency = input.currency;
  status = pending;
  requested_by = input.requested_by;
  decided_by = none;
  decided_at = none;
  reason = none;
  correlation_id = input.correlation_id;
}

abbrev pub result_of : ApprovalRequest → ApprovalRequestResult
result_of r = record { id = r.id; status = r.status }

-- The existing request, or a new one.
abbrev pub live_request : RequestApprovalInput → ActionOn ApprovalDb ApprovalRequestResult
live_request input db = elim (find_for input db) [
  | some existing ↦ ok (result_of existing, db)
  | none ↦ ok (
      (
        result_of (new_request input db.next_id),
        record db {
          requests = new_request input db.next_id ∷ db.requests;
          next_id = db.next_id + 1;
        },
      ))
]

unfoldable pub evaluate_and_request :
    RequestApprovalInput → ActionOn ApprovalDb (Option ApprovalRequestResult)
evaluate_and_request input db =
    elim (requires_approval input.amount input.currency
      (get_policy input.company_id input.subject_type db)) [
        | err e ↦ err e
        | ok needed ↦
            if needed
            then elim (live_request input db) [ ok (r, db') ↦ ok (some r, db') | err e ↦ err e ]
            else ok (none, db)
      ]

abbrev pub status_of : ApprovalDecision → ApprovalStatus
status_of approve = approved
status_of reject = rejected

abbrev pub is_pending : ApprovalStatus → Bool
is_pending pending = true
is_pending approved = false
is_pending rejected = false

-- `...(reason !== undefined ? { reason } : {})`.
abbrev pub reason_after : Option Text → Option Text → Option Text
reason_after (some new) old = some new
reason_after none old = old

abbrev pub decided : ApprovalDecision → ℕ → ℕ → Option Text → ApprovalRequest → ApprovalRequest
decided decision decided_by now reason r = record r {
  status = status_of decision;
  decided_by = some decided_by;
  decided_at = some now;
  reason = reason_after reason r.reason;
}

-- `update({ where: { id } })`.
abbrev pub update_request :
    ℕ → (ApprovalRequest → ApprovalRequest) → List ApprovalRequest → List ApprovalRequest
update_request id f [] = []
update_request id f (r ∷ rs) = (if r.id == id then f r else r) ∷ update_request id f rs

abbrev pub find_request : ℕ → List ApprovalRequest → Option ApprovalRequest
find_request id rs = find (λ r. r.id == id) rs

unfoldable pub decide :
    ℕ → ApprovalDecision → ℕ → ℕ → Option Text → ActionOn ApprovalDb ApprovalRequestResult
decide request_id decision decided_by now reason = do
  db ← gets λ db. db
  request ← or_throw (find_request request_id db.requests) record_not_found
  require (is_pending request.status) already_decided
  modify λ db. record db {
    requests = update_request request_id (decided decision decided_by now reason) db.requests;
  }
  pure (result_of (decided decision decided_by now reason request))
