-- ===== src/Payments/Payment/Allocated.antt =====
-- What is allocated to an invoice when an allocation is added.
use markaz.Prelude.{
  ℕ, ◌+◌, ◌<◌, ◌≤◌, ◌≡◌, refl, inl, inr, true, false, ◌&&◌, some, List, [], ◌∷◌, ◌++◌, map, arith,
  All, Bool-cases, Option-cases, ◌==◌, if◌then◌else◌, leb,
}
use markaz.Prelude.Int.{ℤ, pos, ◌+ℤ◌, ◌≤ℤ◌, int_laws}
use markaz.Decimals.{Decimal, Arithmetic, greater_than}
use markaz.Store.{ok, find}
use markaz.Payments.Outstanding.{
  InvoiceSide, sales_side, supplier_side, Payment, PaymentAllocation, OutstandingInvoice, settles,
  is_paid_by, allocated_to, contains,
}
use markaz.Payments.Payment.{allocation_rows}
use markaz.Payments.Command.{PaymentAllocationInput, has_duplicate, check_allocations}

pub allocated_to_append :
    (side : InvoiceSide) (id as_of : ℕ) (ps : List Payment) (xs ys : List PaymentAllocation)
    → allocated_to side id as_of ps (xs ++ ys)
      ≡ allocated_to side id as_of ps xs +ℤ allocated_to side id as_of ps ys
allocated_to_append side id as_of ps [] ys = omega int_laws
allocated_to_append side id as_of ps (x ∷ xs) ys =
    let rest = allocated_to_append side id as_of ps xs ys in
    elim (Bool-cases (settles side id x && is_paid_by as_of ps x.payment_id)) [
      | inl hit ↦ rw (hit, rest) (omega int_laws)
      | inr miss ↦ rw (miss, rest) refl
    ]

-- Older allocations count as they did.
pub allocated_to_older :
    (side : InvoiceSide) (id as_of n : ℕ) (row : Payment) (ps : List Payment)
    (xs : List PaymentAllocation)
    → n ≤ row.id
    → All (λ a. a.payment_id < n) xs
    → allocated_to side id as_of (row ∷ ps) xs ≡ allocated_to side id as_of ps xs
allocated_to_older side id as_of n row ps [] le h = refl
allocated_to_older side id as_of n row ps (x ∷ xs) le h =
    let apart : (row.id == x.payment_id) ≡ false = ground (arith, h.0) in
    ground (arith, allocated_to_older side id as_of n row ps xs le h.1)

fits_le : (a o owed : ℤ) → greater_than a o ≡ false → o ≡ owed → a +ℤ pos 0 ≤ℤ owed
fits_le a o owed e same = let le : a ≤ℤ o = ground arith in omega int_laws

module _ (m : Arithmetic) where
  -- What a payment sets against one invoice, as stored.
  abbrev pub set_against : ℕ → List PaymentAllocationInput → Decimal
  set_against id [] = pos 0
  set_against id (a ∷ more) =
      if a.invoice_id == id then m.column4 a.amount +ℤ set_against id more else set_against id more

  pub allocated_to_new :
      (side : InvoiceSide) (id as_of company k : ℕ) (row : Payment) (ps : List Payment)
      (xs : List PaymentAllocationInput)
      → row.payment_date ≤ as_of
      → allocated_to side id as_of (row ∷ ps) (allocation_rows m side company row.id k xs)
        ≡ set_against id xs
  allocated_to_new side id as_of company k row ps [] le = refl
  allocated_to_new sales_side id as_of company k row ps (x ∷ xs) le =
      let rest = allocated_to_new sales_side id as_of company (k + 1) row ps xs le in
      let own : (row.id == row.id) ≡ true = ground arith in
      let paid : leb row.payment_date as_of ≡ true = ground arith in ground arith
  allocated_to_new supplier_side id as_of company k row ps (x ∷ xs) le =
      let rest = allocated_to_new supplier_side id as_of company (k + 1) row ps xs le in
      let own : (row.id == row.id) ≡ true = ground arith in
      let paid : leb row.payment_date as_of ≡ true = ground arith in ground arith

  -- The amounts are of the column's scale.
  abbrev pub IsExact : PaymentAllocationInput → Type 0
  IsExact a = m.column4 a.amount ≡ a.amount

  set_against_absent :
      (id : ℕ) (xs : List PaymentAllocationInput)
      → contains (map (λ a. a.invoice_id) xs) id ≡ false
      → set_against id xs ≡ pos 0
  set_against_absent id [] h = refl
  set_against_absent id (x ∷ xs) h = elim (Bool-cases (x.invoice_id == id)) [
    | inl hit ↦ absurd (ground arith)
    | inr miss ↦ rw miss (set_against_absent id xs (rw miss at h))
  ]

  -- What passed the checks is set against an invoice once, and is no more than it owes.
  pub set_against_le :
      (rows : List OutstandingInvoice) (id : ℕ) (owed : Decimal) (xs : List PaymentAllocationInput)
      (acc total : Decimal)
      → ((o : OutstandingInvoice) → find (λ o. o.id == id) rows ≡ some o → o.outstanding ≡ owed)
      → pos 0 ≤ℤ owed
      → check_allocations rows xs acc ≡ ok total
      → has_duplicate (map (λ a. a.invoice_id) xs) ≡ false
      → All IsExact xs
      → set_against id xs ≤ℤ owed
  set_against_le rows id owed [] acc total row h e once exact = h
  set_against_le rows id owed (x ∷ xs) acc total row h e once exact =
      elim (Option-cases (find (λ o. o.id == x.invoice_id) rows)) [
        | inl absent ↦ absurd (ground arith)
        | inr (o, found) ↦ elim (Bool-cases (greater_than x.amount o.outstanding)) [
          | inl over ↦ absurd (ground arith)
          | inr fits ↦ elim (Bool-cases (contains (map (λ a. a.invoice_id) xs) x.invoice_id)) [
            | inl again ↦ absurd (ground arith)
            | inr first ↦ elim (Bool-cases (x.invoice_id == id)) [
              | inr miss ↦ rw miss (
                  set_against_le rows id owed xs (acc +ℤ x.amount) total row h (ground arith)
                    (ground arith) exact.1)
              | inl hit ↦
                  let one : x.invoice_id ≡ id = ground arith in
                  let only = set_against_absent id xs (rw one at first) in
                  let same = row o (rw one at found) in
                  rw (hit, only, exact.0) (fits_le x.amount o.outstanding owed fits same)
            ]
          ]
        ]
      ]
