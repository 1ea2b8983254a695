-- ===== src/Purchasing/PurchaseRequest/Laws.antt =====
-- The states of a purchase request.
use markaz.Prelude.{
  ℕ, map, ◌&&◌, Option, if◌then◌else◌, ◌≡◌, refl, inl, inr, some, List, [], ◌∷◌, arith, Bool-cases,
  Option-cases, ◌==◌,
}
use markaz.Prelude.Text.{Text}
use markaz.Store.{ok, err, request_error, not_pending, find}
use markaz.Purchasing.PurchaseRequest.{
  accepted, turned_down, PurchaseRequest, PurchaseRequestActor, RequestDb, is_locked,
  update_request, update_in, is_undecided, as_rejected, accept, reject,
}

-- The answer of a review, from the state that the request is in.
find_updated :
    (id company : ℕ) (f : PurchaseRequest → PurchaseRequest) (rs : List PurchaseRequest)
    (r : PurchaseRequest)
    → ((x : PurchaseRequest) → ((f x).id ≡ x.id) × ((f x).company_id ≡ x.company_id))
    → find (is_locked id company) rs ≡ some r
    → find (is_locked id company) (update_request id f rs) ≡ some (f r)
find_updated id company f [] r keeps found = absurd (ground arith)
find_updated id company f (x ∷ rs) r keeps found =
    let (same_id, same_company) = keeps x in
    elim (Bool-cases (x.id == id)) [
      | inl own ↦ elim (Bool-cases (x.company_id == company)) [
        | inl mine ↦ ground arith
        | inr other ↦ rw own (ground (arith, find_updated id company f rs r keeps (ground arith)))
      ]
      | inr miss ↦ rw miss (ground (arith, find_updated id company f rs r keeps (ground arith)))
    ]

-- An accepted request: its status, who accepted it and when; the rest of it stays.
abbrev pub once_accepted : ℕ → ℕ → PurchaseRequest → PurchaseRequest
once_accepted actor_id now r = record r {
  status = accepted;
  accepted_by = some actor_id;
  accepted_at = some now;
}

abbrev pub accepted_in : ℕ → ℕ → ℕ → List PurchaseRequest → List PurchaseRequest
accepted_in id actor_id now = map λ r. if r.id == id then once_accepted actor_id now r else r

-- The request with the id, of the company.
abbrev pub request_of : ℕ → ℕ → List PurchaseRequest → Option PurchaseRequest
request_of id company_id = find λ r. (r.id == id) && (r.company_id == company_id)

-- A rejection is final: after it the request can be neither accepted nor rejected again.
pub reject_final :
    (id : ℕ) (reason reason' : Text) (actor : PurchaseRequestActor) (now now' : ℕ)
    (db db' : RequestDb) (r : PurchaseRequest)
    → reject id reason actor now db ≡ ok (r, db')
    → (r.status ≡ turned_down)
      × (accept id actor now' db' ≡ err (request_error not_pending))
      × (reject id reason' actor now' db' ≡ err (request_error not_pending))
unfolding accept reject
reject_final id reason reason' actor now now' db db' r e =
    elim (Option-cases (find (is_locked id actor.company_id) db.purchase_requests)) [
      | inl absent ↦ absurd (ground arith)
      | inr (old, found) ↦ elim (Bool-cases (is_undecided old.status)) [
        | inr decided ↦ absurd (ground arith)
        | inl undecided ↦
            let after =
              find_updated id actor.company_id (as_rejected reason actor now) db.purchase_requests
                old (λ x. (refl, refl)) found in
            let result : r ≡ as_rejected reason actor now old = ground arith in
            let same : db' ≡ update_in id (as_rejected reason actor now) db = ground arith in
            (rw result refl, rw (same, after) refl, rw (same, after) refl)
      ]
    ]
