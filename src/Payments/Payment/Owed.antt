-- ===== src/Payments/Payment/Owed.antt =====
-- What is owed on an invoice, before and after a payment.
use markaz.Prelude.{
  ℕ, ◌<◌, ◌≤◌, ◌≡◌, ◌∙◌, sym, ap, inl, inr, false, Option, some, List, [], ◌∷◌, ◌++◌, map, arith,
  All, Bool-cases, Option-cases, ◌==◌,
}
use markaz.Prelude.Int.{ℤ, pos, ◌+ℤ◌, ◌-ℤ◌, ◌≤ℤ◌, int_laws}
use markaz.Prelude.Text.{Text}
use markaz.Prelude.Sums.{sum_by}
use markaz.Decimals.{Decimal, Arithmetic, greater_than}
use markaz.Store.{Db, ok, find}
use markaz.Payments.Outstanding.{
  InvoiceSide, sales_side, supplier_side, Invoice, Payment, PaymentDb, OutstandingInvoice,
  far_future, outstanding_on, invoices_of, outstanding_row, outstanding_rows, is_wanted,
  load_outstanding,
}
use markaz.Payments.Payment.{allocation_rows, create}
use markaz.Payments.Command.{
  PaymentAllocationInput, CreatePaymentInput, PaymentActor, PaymentResult, side_of,
  check_allocations,
}
use markaz.Payments.Payment.Laws.{open_invoices, create_inv}
use markaz.Payments.Payment.Allocated.{
  allocated_to_append, allocated_to_older, set_against, allocated_to_new, IsExact, set_against_le,
}

-- The id of an invoice is its own.
abbrev pub HasOwnId : Invoice → List Invoice → Type 0
HasOwnId i = All (λ j. j.id ≡ i.id → j ≡ i)

found_row :
    (side : InvoiceSide) (company as_of : ℕ) (ids : Option (List ℕ)) (party : Option ℕ)
    (db : PaymentDb) (i : Invoice) (is : List Invoice) (o : OutstandingInvoice)
    → HasOwnId i is
    → find (λ o. o.id == i.id) (outstanding_rows side company ids party as_of db is) ≡ some o
    → o.outstanding ≡ outstanding_on side as_of db i
found_row side company as_of ids party db i [] o own found = absurd (ground arith)
found_row side company as_of ids party db i (j ∷ is) o own found =
    elim (Bool-cases (is_wanted company ids party as_of j)) [
      | inr unwanted ↦ found_row side company as_of ids party db i is o own.1 (rw unwanted at found)
      | inl wanted ↦ elim (Bool-cases (j.id == i.id)) [
        | inl hit ↦
            let same : j ≡ i = own.0 (ground arith) in
            let row : o ≡ outstanding_row side as_of db j = ground arith in
            ap (λ (x : OutstandingInvoice). x.outstanding) row
            ∙ ap (outstanding_on side as_of db) same
        | inr miss ↦ found_row side company as_of ids party db i is o own.1 (ground arith)
      ]
    ]

abbrev with_payment :
    Arithmetic
    → InvoiceSide
    → ℕ
    → Payment
    → ℕ
    → List PaymentAllocationInput
    → Db
    → PaymentDb
    → PaymentDb
with_payment m side company row first xs l db = record db {
  ledger = l;
  payments = row ∷ db.payments;
  payment_allocations = allocation_rows m side company row.id first xs ++ db.payment_allocations;
}

-- What is set against an invoice comes off what it owes.
owed_after :
    (m : Arithmetic) (side : InvoiceSide) (company : ℕ) (row : Payment) (first : ℕ)
    (xs : List PaymentAllocationInput) (l : Db) (db : PaymentDb) (i : Invoice)
    → All (λ a. a.payment_id < db.ledger.next_id) db.payment_allocations
    → db.ledger.next_id ≤ row.id
    → row.payment_date ≤ far_future
    → outstanding_on side far_future (with_payment m side company row first xs l db) i
      ≡ outstanding_on side far_future db i -ℤ set_against m i.id xs
owed_after m sales_side company row first xs l db i fresh le dated =
    let all =
      allocated_to_append sales_side i.id far_future (row ∷ db.payments)
        (allocation_rows m sales_side company row.id first xs) db.payment_allocations in
    let new =
      allocated_to_new m sales_side i.id far_future company first row db.payments xs dated in
    let old =
      allocated_to_older sales_side i.id far_future db.ledger.next_id row db.payments
        db.payment_allocations le fresh in
    omega int_laws
owed_after m supplier_side company row first xs l db i fresh le dated =
    let all =
      allocated_to_append supplier_side i.id far_future (row ∷ db.payments)
        (allocation_rows m supplier_side company row.id first xs) db.payment_allocations in
    let new =
      allocated_to_new m supplier_side i.id far_future company first row db.payments xs dated in
    let old =
      allocated_to_older supplier_side i.id far_future db.ledger.next_id row db.payments
        db.payment_allocations le fresh in
    omega int_laws

take_off : (a b c : ℤ) → a ≡ b -ℤ c → c ≤ℤ b → pos 0 ≤ℤ a
take_off a b c e le = omega int_laws

-- A payment takes from what an invoice of its side owes exactly what it sets against it, and never more
-- than was owed: no invoice is overpaid. This holds for tables whose invoice ids are unique and whose
-- allocations belong to older payments, for a payment dated before the year 10000 and amounts of the
-- column's scale.
pub create_never_overpays :
    (m : Arithmetic) (input : CreatePaymentInput) (actor : PaymentActor) (correlation_id : ℕ)
    (key : Text) (db db' : PaymentDb) (r : PaymentResult) (i : Invoice)
    → All (λ a. a.payment_id < db.ledger.next_id) db.payment_allocations
    → HasOwnId i (invoices_of (side_of input.direction) db)
    → All (IsExact m) input.allocations
    → input.payment_date ≤ far_future
    → pos 0 ≤ℤ outstanding_on (side_of input.direction) far_future db i
    → create m input actor correlation_id key db ≡ ok (r, db')
    → (outstanding_on (side_of input.direction) far_future db' i
        ≡ outstanding_on (side_of input.direction) far_future db i
          -ℤ set_against m i.id input.allocations)
      × (pos 0 ≤ℤ outstanding_on (side_of input.direction) far_future db' i)
unfolding load_outstanding
create_never_overpays m input actor correlation_id key db db' r i fresh own exact dated owed e =
    let side = side_of input.direction in
    let (row, allocated, first, l, c) = create_inv m input actor correlation_id key db db' r e in
    let less : outstanding_on side far_future db' i
        ≡ outstanding_on side far_future db i -ℤ set_against m i.id input.allocations =
      ap (λ d. outstanding_on side far_future d i) c.same
      ∙ owed_after m side actor.company_id row first input.allocations l db i fresh
          (omega (arith, c.fresh)) (omega (arith, c.dated)) in
    let within =
      set_against_le m (open_invoices input actor db) i.id (outstanding_on side far_future db i)
        input.allocations (pos 0) allocated
        (λ o found.
          found_row side actor.company_id far_future
            (some (map (λ a. a.invoice_id) input.allocations)) (some input.party_id) db i
            (invoices_of side db) o own found)
        owed c.checks.each c.checks.distinct exact in
    (
      less,
      take_off (outstanding_on side far_future db' i) (outstanding_on side far_future db i)
          (set_against m i.id input.allocations) less within,
    )

check_allocations_total :
    (rows : List OutstandingInvoice) (xs : List PaymentAllocationInput) (acc total : Decimal)
    → check_allocations rows xs acc ≡ ok total
    → total ≡ acc +ℤ sum_by (λ a. a.amount) xs
check_allocations_total rows [] acc total e =
    let same : acc ≡ total = ground arith in sym same ∙ omega int_laws
check_allocations_total rows (x ∷ xs) acc total e =
    elim (Option-cases (find (λ o. o.id == x.invoice_id) rows)) [
      | inl absent ↦ absurd (ground arith)
      | inr (o, found) ↦ elim (Bool-cases (greater_than x.amount o.outstanding)) [
        | inl over ↦ absurd (ground arith)
        | inr fits ↦
            check_allocations_total rows xs (acc +ℤ x.amount) total (ground arith) ∙ omega int_laws
      ]
    ]

start_at_zero : (total sum : ℤ) → total ≡ pos 0 +ℤ sum → total ≡ sum
start_at_zero total sum e = e ∙ omega int_laws

at_most : (total amount : ℤ) → greater_than total amount ≡ false → total ≤ℤ amount
at_most total amount e = ground arith

-- A payment that is accepted adds one payment of its date to the table, allocates no more than its
-- amount, and reports as unallocated what is left of the amount.
pub create_unallocated :
    (m : Arithmetic) (input : CreatePaymentInput) (actor : PaymentActor) (correlation_id : ℕ)
    (key : Text) (db db' : PaymentDb) (r : PaymentResult)
    → create m input actor correlation_id key db ≡ ok (r, db')
    → (row : Payment) × (db'.payments ≡ row ∷ db.payments)
      × (row.payment_date ≡ input.payment_date)
      × (sum_by (λ a. a.amount) input.allocations ≤ℤ input.amount)
      × (r.unallocated ≡ m.round4 (input.amount -ℤ sum_by (λ a. a.amount) input.allocations))
create_unallocated m input actor correlation_id key db db' r e =
    let (row, allocated, first, l, c) = create_inv m input actor correlation_id key db db' r e in
    let total : allocated ≡ sum_by (λ a. a.amount) input.allocations =
      start_at_zero allocated (sum_by (λ a. a.amount) input.allocations) (
        check_allocations_total (open_invoices input actor db) input.allocations (pos 0) allocated
          c.checks.each) in
    (
      row,
      ap (λ (d : PaymentDb). d.payments) c.same,
      c.dated,
      rw total at (at_most allocated input.amount c.checks.within),
      rw total at c.rest,
    )
