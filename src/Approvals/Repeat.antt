-- ===== src/Approvals/Repeat.antt =====
-- A request or a decision made again, and when approval is asked for.
use markaz.Prelude.{
  ℕ, ◌+◌, ◌&&◌, ◌≡◌, refl, ap, ◌⊎◌, inl, inr, true, false, Option, none, some, List, [], ◌∷◌, arith,
  Bool-cases, Option-cases, ◌==◌,
}
use markaz.Prelude.Text.{Text, text_eq, text_eq_refl}
use markaz.Decimals.{greater_than}
use markaz.Store.{Result-cases, ok, err, already_decided, find}
use markaz.Approvals.{
  pending, ApprovalPolicy, ApprovalDecision, approve, reject, ApprovalRequest, ApprovalDb,
  RequestApprovalInput, ApprovalRequestResult, get_policy, requires_approval, find_for, new_request,
  result_of, evaluate_and_request, status_of, is_pending, decided, update_request, find_request,
  decide,
}
use markaz.Approvals.Laws.{decide_inv, some_injective}

find_updated :
    (id : ℕ) (d : ApprovalDecision) (by now : ℕ) (reason : Option Text) (rs : List ApprovalRequest)
    (old : ApprovalRequest)
    → find_request id rs ≡ some old
    → find_request id (update_request id (decided d by now reason) rs)
      ≡ some (decided d by now reason old)
find_updated id d by now reason [] old found = absurd (ground arith)
find_updated id d by now reason (r ∷ rs) old found = elim (Bool-cases (r.id == id)) [
  | inl hit ↦
      rw (hit, hit)
        (ap some (ap (decided d by now reason) (some_injective r r old (rw hit at found))))
  | inr miss ↦ rw (miss, miss) (find_updated id d by now reason rs old (rw miss at found))
]

not_pending : (d : ApprovalDecision) → is_pending (status_of d) ≡ false
not_pending approve = refl
not_pending reject = refl

-- A decision that succeeds found the request pending and gives it the status decided, and a second
-- decision on the same request, whatever it is, is refused as already decided.
pub decide_twice :
    (id : ℕ) (d d' : ApprovalDecision) (by by' now now' : ℕ) (reason reason' : Option Text)
    (db db' : ApprovalDb) (r : ApprovalRequestResult)
    → decide id d by now reason db ≡ ok (r, db')
    → (r.status ≡ status_of d) × (decide id d' by' now' reason' db' ≡ err already_decided)
unfolding decide
decide_twice id d d' by by' now now' reason reason' db db' r e =
    let (old, there, was, result, same) = decide_inv id d by now reason db db' r e in
    let after = find_updated id d by now reason db.requests old there in
    (ap (λ x. x.status) result, rw (same, after, not_pending d) refl)

-- Asking again for the same document gives the same answer and makes no second request, whatever was
-- there before.
pub evaluate_and_request_replay :
    (input : RequestApprovalInput) (db db' : ApprovalDb) (r : Option ApprovalRequestResult)
    → evaluate_and_request input db ≡ ok (r, db')
    → evaluate_and_request input db' ≡ ok (r, db')
unfolding evaluate_and_request
evaluate_and_request_replay input db db' r e =
    elim (Result-cases (
      requires_approval input.amount input.currency
        (get_policy input.company_id input.subject_type db))) [
          | inr (x, bad) ↦ absurd (ground arith)
          | inl (needed, fine) ↦ elim (Bool-cases needed) [
            | inr low ↦ ground arith
            | inl high ↦ elim (Option-cases (find_for input db)) [
              | inl absent ↦ ground (arith, text_eq_refl input.subject_type)
              | inr (old, found) ↦ ground arith
            ]
          ]
        ]

-- The request for a document of a company.
abbrev pub request_on : ℕ → Text → ℕ → List ApprovalRequest → Option ApprovalRequest
request_on company_id subject_type subject_id = find λ r.
    (r.company_id == company_id)
    && (text_eq r.subject_type subject_type && (r.subject_id == subject_id))

-- A pending request with what the input says of it, the first row of the new table.
pub record IsNewFor (input : RequestApprovalInput) (request : ApprovalRequest) (db db' : ApprovalDb)
    : Type 0 where
  pub absent : request_on input.company_id input.subject_type input.subject_id db.requests ≡ none
  pub waits : request.status ≡ pending
  pub amount : request.amount ≡ input.amount
  pub currency : request.currency ≡ input.currency
  pub requested_by : request.requested_by ≡ input.requested_by
  pub undecided : request.decided_by ≡ none
  pub added : db'.requests ≡ request ∷ db.requests

new_request_found :
    (input : RequestApprovalInput) (id : ℕ) (rs : List ApprovalRequest)
    → request_on input.company_id input.subject_type input.subject_id (new_request input id ∷ rs)
      ≡ some (new_request input id)
new_request_found input id rs = ground (arith, text_eq_refl input.subject_type)

-- Approval is asked for exactly when the company has a policy for the type of document, in the
-- document's currency, and the amount is over its threshold; else nothing is written. Where it is asked
-- for, the answer is that of a request for the document that is then in the table: the one that was there,
-- with nothing written, or else one new pending request with the document's amount, currency and
-- requester. Asking again gives the same answer and writes nothing.
pub evaluate_and_request_iff :
    (input : RequestApprovalInput) (db db' : ApprovalDb) (r : Option ApprovalRequestResult)
    → evaluate_and_request input db ≡ ok (r, db')
    → (((r ≡ none)
          × (db' ≡ db)
          × ((get_policy input.company_id input.subject_type db ≡ none)
              ⊎ ((p : ApprovalPolicy) × (get_policy input.company_id input.subject_type db ≡ some p)
                  × (text_eq input.currency p.currency ≡ true)
                  × (greater_than input.amount p.threshold_amount ≡ false))))
        ⊎ ((x : ApprovalRequestResult) × (p : ApprovalPolicy) × (request : ApprovalRequest) × (r
              ≡ some x)
            × (get_policy input.company_id input.subject_type db ≡ some p)
            × (text_eq input.currency p.currency ≡ true)
            × (greater_than input.amount p.threshold_amount ≡ true)
            × (request_on input.company_id input.subject_type input.subject_id db'.requests
                ≡ some request)
            × (x.id ≡ request.id)
            × (x.status ≡ request.status)
            × ((db' ≡ db) ⊎ IsNewFor input request db db')))
      × (evaluate_and_request input db' ≡ ok (r, db'))
unfolding evaluate_and_request
evaluate_and_request_iff input db db' r e = (
  elim (Option-cases (get_policy input.company_id input.subject_type db)) [
    | inl free ↦ inl (ground arith, ground arith, inl free)
    | inr (p, policy) ↦ elim (Bool-cases (text_eq input.currency p.currency)) [
      | inr other ↦ absurd (ground arith)
      | inl same ↦ elim (Bool-cases (greater_than input.amount p.threshold_amount)) [
        | inr low ↦ inl (ground arith, ground arith, inr (p, policy, same, low))
        | inl high ↦ elim (Option-cases (find_for input db)) [
          | inl absent ↦
              let new = new_request input db.next_id in
              let written : db'
                  ≡ record db { requests = new ∷ db.requests; next_id = db.next_id + 1 } =
                ground arith in
              inr (
                result_of new,
                p,
                new,
                ground arith,
                policy,
                same,
                high,
                rw written (new_request_found input db.next_id db.requests),
                refl,
                refl,
                inr (record {
                  absent = absent;
                  waits = refl;
                  amount = refl;
                  currency = refl;
                  requested_by = refl;
                  undecided = refl;
                  added = ap (λ d. d.requests) written;
                }),
              )
          | inr (old, found) ↦
              let kept : db' ≡ db = ground arith in
              inr (
                result_of old,
                p,
                old,
                ground arith,
                policy,
                same,
                high,
                rw kept found,
                refl,
                refl,
                inl kept,
              )
        ]
      ]
    ]
  ],
  evaluate_and_request_replay input db db' r e,
)
