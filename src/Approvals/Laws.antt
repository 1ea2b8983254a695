-- ===== src/Approvals/Laws.antt =====
-- What a document under approval can rely on.
use markaz.Prelude.{
  ℕ, ◌+◌, ◌<◌, ◌≡◌, ◌≢◌, refl, ◌∙◌, sym, ap, ◌⊎◌, inl, inr, true, false, Option, none, some, List,
  [], ◌∷◌, arith, All, Bool-cases, Option-cases, ◌==◌,
}
use markaz.Prelude.Text.{Text}
use markaz.Store.{Result-cases, ok}
use markaz.Approvals.{
  ApprovalStatus, pending, approved, rejected, ApprovalDecision, ApprovalRequest, ApprovalDb,
  RequestApprovalInput, ApprovalRequestResult, get_policy, requires_approval, find_for, new_request,
  result_of, evaluate_and_request, is_pending, decided, update_request, find_request, decide,
}

-- A call that succeeded.
pub data Step (db : ApprovalDb) : ApprovalDb → Type 0 where
  evaluates :
      (input : RequestApprovalInput) (r : Option ApprovalRequestResult) {db' : ApprovalDb}
      → evaluate_and_request input db ≡ ok (r, db')
      → Step db db'
  decides :
      (id : ℕ) (decision : ApprovalDecision) (by now : ℕ) (reason : Option Text)
      (r : ApprovalRequestResult) {db' : ApprovalDb}
      → decide id decision by now reason db ≡ ok (r, db')
      → Step db db'

pub data Reach (db : ApprovalDb) : ApprovalDb → Type 0 where
  here : Reach db db
  next : {mid db' : ApprovalDb} → Reach db mid → Step mid db' → Reach db db'

-- Ids are handed out upwards.
abbrev pub IsFresh : ApprovalDb → Type 0
IsFresh db = All (λ r. r.id < db.next_id) db.requests

below_suc :
    (n : ℕ) (rs : List ApprovalRequest) → All (λ r. r.id < n) rs → All (λ r. r.id < n + 1) rs
below_suc n [] h = tt
below_suc n (r ∷ rs) h = (omega (arith, h.0), below_suc n rs h.1)

below_update :
    (n id : ℕ) (d : ApprovalDecision) (by now : ℕ) (reason : Option Text)
    (rs : List ApprovalRequest)
    → All (λ r. r.id < n) rs
    → All (λ r. r.id < n) (update_request id (decided d by now reason) rs)
below_update n id d by now reason [] h = tt
below_update n id d by now reason (r ∷ rs) h = elim (Bool-cases (r.id == id)) [
  | inl hit ↦ rw hit (h.0, below_update n id d by now reason rs h.1)
  | inr miss ↦ rw miss (h.0, below_update n id d by now reason rs h.1)
]

find_below :
    (n id : ℕ) (rs : List ApprovalRequest) (r : ApprovalRequest)
    → All (λ x. x.id < n) rs
    → find_request id rs ≡ some r
    → id < n
find_below n id [] r h found = absurd (ground arith)
find_below n id (x ∷ rs) r h found = elim (Bool-cases (x.id == id)) [
  | inl hit ↦ ground (arith, h.0)
  | inr miss ↦ find_below n id rs r h.1 (ground arith)
]

find_other :
    (id other : ℕ) (d : ApprovalDecision) (by now : ℕ) (reason : Option Text)
    (rs : List ApprovalRequest)
    → id ≢ other
    → find_request id (update_request other (decided d by now reason) rs) ≡ find_request id rs
find_other id other d by now reason [] ne = refl
find_other id other d by now reason (r ∷ rs) ne = elim (Bool-cases (r.id == other)) [
  | inl hit ↦
      let miss : (r.id == id) ≡ false = ground arith in
      rw (hit, miss) (find_other id other d by now reason rs ne)
  | inr keep ↦ elim (Bool-cases (r.id == id)) [
    | inl own ↦ rw (keep, own) refl
    | inr miss ↦ rw (keep, miss) (find_other id other d by now reason rs ne)
  ]
]

-- What an evaluation does when it succeeds.
evaluate_cases :
    (input : RequestApprovalInput) (db db' : ApprovalDb) (r : Option ApprovalRequestResult)
    → evaluate_and_request input db ≡ ok (r, db')
    → (db' ≡ db)
      ⊎ (db' ≡ record db {
        requests = new_request input db.next_id ∷ db.requests;
        next_id = db.next_id + 1;
      })
unfolding evaluate_and_request
evaluate_cases input db db' r e =
    elim (Result-cases (
      requires_approval input.amount input.currency
        (get_policy input.company_id input.subject_type db))) [
          | inr (x, bad) ↦ absurd (ground arith)
          | inl (needed, fine) ↦ elim (Bool-cases needed) [
            | inr low ↦ inl (ground arith)
            | inl high ↦ elim (Option-cases (find_for input db)) [
              | inl absent ↦ inr (ground arith)
              | inr (old, found) ↦ inl (ground arith)
            ]
          ]
        ]

-- What a decision does when it succeeds: its request was pending.
pub decide_inv :
    (id : ℕ) (d : ApprovalDecision) (by now : ℕ) (reason : Option Text) (db db' : ApprovalDb)
    (r : ApprovalRequestResult)
    → decide id d by now reason db ≡ ok (r, db')
    → (old : ApprovalRequest) × (find_request id db.requests ≡ some old)
      × (old.status ≡ pending)
      × (r ≡ result_of (decided d by now reason old))
      × (db' ≡ record db { requests = update_request id (decided d by now reason) db.requests })
unfolding decide
decide_inv id d by now reason db db' r e = elim (Option-cases (find_request id db.requests)) [
  | inl absent ↦ absurd (ground arith)
  | inr (old, found) ↦ elim (Bool-cases (is_pending old.status)) [
    | inr not_pending ↦ absurd (ground arith)
    | inl is ↦ (old, found, was_pending old.status is, ground arith, ground arith)
  ]
]
  where
    was_pending : (s : ApprovalStatus) → is_pending s ≡ true → s ≡ pending
    was_pending pending h = refl
    was_pending approved h = absurd (ground arith)
    was_pending rejected h = absurd (ground arith)

Step-IsFresh : {db db' : ApprovalDb} → IsFresh db → Step db db' → IsFresh db'
Step-IsFresh {db} {db'} h (evaluates input r e) = elim (evaluate_cases input db db' r e) [
  | inl same ↦ rw same h
  | inr added ↦ rw added (omega arith, below_suc db.next_id db.requests h)
]
Step-IsFresh {db} {db'} h (decides id d by now reason r e) =
    let (_, _, _, _, same) = decide_inv id d by now reason db db' r e in
    rw same (below_update db.next_id id d by now reason db.requests h)

Reach-IsFresh : {db db' : ApprovalDb} → IsFresh db → Reach db db' → IsFresh db'
Reach-IsFresh h here = h
Reach-IsFresh h (next r s) = Step-IsFresh (Reach-IsFresh h r) s

pub some_injective : {A : Type 0} (fallback x y : A) → some x ≡ some y → x ≡ y
some_injective {A} fallback x y e = ap get e
  where
    get : Option A → A
    get none = fallback
    get (some z) = z

-- One step keeps a request that is not pending.
Step-keeps :
    {db db' : ApprovalDb} (id : ℕ) (r : ApprovalRequest)
    → IsFresh db
    → Step db db'
    → find_request id db.requests ≡ some r
    → is_pending r.status ≡ false
    → find_request id db'.requests ≡ some r
Step-keeps {db} {db'} id r h (evaluates input x e) found done =
    elim (evaluate_cases input db db' x e) [
      | inl same ↦ rw same found
      | inr added ↦
          let below : id < db.next_id = find_below db.next_id id db.requests r h found in
          let miss : (db.next_id == id) ≡ false = ground arith in rw (added, miss) found
    ]
Step-keeps {db} {db'} id r h (decides other d by now reason x e) found done =
    let (old, there, was, _, same) = decide_inv other d by now reason db db' x e in
    elim (Bool-cases (id == other)) [
      | inl own ↦
          let one : id ≡ other = ground arith in
          let twin : some r ≡ some old =
            sym found ∙ ap (λ k. find_request k db.requests) one ∙ there in
          let equal : r ≡ old = some_injective r r old twin in
          absurd (still_pending r old equal was done)
      | inr apart ↦ rw same (find_other id other d by now reason db.requests (ground arith) ∙ found)
    ]
  where
    still_pending :
        (r old : ApprovalRequest) → r ≡ old → old.status ≡ pending → is_pending r.status ≡ false → ⊥
    still_pending r old equal was done = ground (arith, ap (λ x. x.status) equal)

-- A decision is final: once a request is approved or rejected, no later sequence of evaluations and
-- decisions changes it.
pub decision_final :
    {db db' : ApprovalDb} (id : ℕ) (r : ApprovalRequest)
    → IsFresh db
    → Reach db db'
    → find_request id db.requests ≡ some r
    → is_pending r.status ≡ false
    → find_request id db'.requests ≡ some r
decision_final id r h here found done = found
decision_final id r h (next before s) found done =
    Step-keeps id r (Reach-IsFresh h before) s (decision_final id r h before found done) done
