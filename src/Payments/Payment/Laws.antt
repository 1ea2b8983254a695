-- ===== src/Payments/Payment/Laws.antt =====
-- What a payment does to what is owed.
use markaz.Prelude.{
  ℕ, suc, ◌≡◌, ◌∙◌, ap, inl, inr, false, ◌&&◌, some, List, ◌∷◌, ◌++◌, not, map, arith, Bool-cases,
  Option-cases, ◌==◌,
}
use markaz.Prelude.Int.{pos, ◌-ℤ◌}
use markaz.Prelude.Text.{Text}
use markaz.Decimals.{Decimal, Arithmetic, greater_than}
use markaz.Store.{Db, Account, Result-cases, ok, Action, find}
use markaz.Accounting.Engine.Constraints.{commit}
use markaz.Accounting.Engine.Post.{find_open_fiscal_period, post_entry_within}
use markaz.Accounting.FiscalYear.{company_currency, fiscal_year_key_for}
use markaz.Inventory.AccountMapping.{resolve}
use markaz.Payments.Outstanding.{
  Payment, PaymentDb, OutstandingInvoice, far_future, load_outstanding,
}
use markaz.Payments.Payment.{
  allocation_rows, create_payment, are_positive, has_number, checked, posted_and_numbered, create,
}
use markaz.Payments.Command.{
  CreatePaymentInput, PaymentActor, PaymentResult, side_of, on_ledger, has_duplicate,
  check_allocations, is_asset, control_key, journal_lines, posting_command, payment_number,
}

abbrev pub ids_of : CreatePaymentInput → List ℕ
ids_of input = map (λ a. a.invoice_id) input.allocations

-- The open invoices that a payment may be set against.
abbrev pub open_invoices : CreatePaymentInput → PaymentActor → PaymentDb → List OutstandingInvoice
open_invoices input actor db =
    load_outstanding actor.company_id (side_of input.direction) (some (ids_of input))
      (some input.party_id) far_future db

pub record IsChecked (input : CreatePaymentInput) (actor : PaymentActor) (db : PaymentDb)
    (allocated : Decimal) : Type 0 where
  pub distinct : has_duplicate (ids_of input) ≡ false
  pub each :
      check_allocations (open_invoices input actor db) input.allocations (pos 0) ≡ ok allocated
  pub within : greater_than allocated input.amount ≡ false

module _ (m : Arithmetic) (input : CreatePaymentInput) (actor : PaymentActor) where
  checked_inv :
      (db db' : PaymentDb) (cash : Account) (allocated : Decimal)
      → checked m input actor db ≡ ok ((cash, allocated), db')
      → IsChecked input actor db allocated × (db' ≡ db)
  unfolding checked
  checked_inv db db' cash allocated e =
      elim (Option-cases (
        find (λ p. (p.id == input.party_id) && ((p.company_id == actor.company_id) && p.is_active))
          db.parties)) [
            | inl absent ↦ absurd (ground arith)
            | inr (party, known) ↦
                elim (Option-cases (
                  find (λ a. (a.id == input.cash_account_id) && (a.company_id == actor.company_id))
                    db.ledger.accounts)) [
                      | inl absent ↦ absurd (ground arith)
                      | inr (account, found) ↦
                          elim (Bool-cases (account.is_postable && is_asset account.type)) [
                            | inr bad ↦ absurd (ground arith)
                            | inl good ↦ elim (Bool-cases (has_duplicate (ids_of input))) [
                              | inl twice ↦ absurd (ground arith)
                              | inr once ↦
                                  elim (Result-cases (
                                    check_allocations (open_invoices input actor db)
                                      input.allocations (pos 0))) [
                                        | inr (x, refused) ↦ absurd (ground arith)
                                        | inl (total, passed) ↦
                                            elim (Bool-cases (greater_than total input.amount)) [
                                              | inl more ↦ absurd (ground arith)
                                              | inr fits ↦ (
                                                record {
                                                  distinct = once;
                                                  each = ground arith;
                                                  within = ground arith;
                                                },
                                                ground arith,
                                              )
                                            ]
                                      ]
                            ]
                          ]
                    ]
          ]

  on_ledger_inv :
      {A : Type 0} (act : Action A) (db db' : PaymentDb) (a : A)
      → on_ledger act db ≡ ok (a, db')
      → (l : Db) × (act db.ledger ≡ ok (a, l)) × (db' ≡ record db { ledger = l })
  on_ledger_inv act db db' a e = elim (Result-cases (act db.ledger)) [
    | inl ((b, l), done) ↦ (l, ground arith, ground arith)
    | inr (x, failed) ↦ absurd (ground arith)
  ]

  -- What the ledger's part leaves alone: all tables but the ledger's.
  posted_and_numbered_inv :
      (correlation_id : ℕ) (key : Text) (cash : Account) (db db' : PaymentDb) (row : Payment)
      → posted_and_numbered m input actor correlation_id key cash db ≡ ok (row, db')
      → (l : Db) × (db' ≡ record db { ledger = l })
        × (row.id ≡ db.ledger.next_id)
        × (row.payment_date ≡ input.payment_date)
  unfolding posted_and_numbered
  posted_and_numbered_inv correlation_id key cash db db' row e =
      elim (Option-cases (find_open_fiscal_period actor.company_id input.payment_date db.ledger)) [
        | inl closed ↦ absurd (ground arith)
        | inr (period, current) ↦
            elim (Option-cases (company_currency actor.company_id db.companies)) [
              | inl unknown ↦ absurd (ground arith)
              | inr (currency, known) ↦
                  elim (Option-cases
                    (resolve actor.company_id (control_key input.direction) db.account_mappings)) [
                      | inl unmapped ↦ absurd (ground arith)
                      | inr (control, mapped) ↦
                          let id = db.ledger.next_id in
                          let command =
                            posting_command input actor correlation_id key period.id currency
                              (journal_lines input.direction cash.id control
                                (m.round4 input.amount))
                              id in
                          let year =
                            fiscal_year_key_for actor.company_id input.payment_date
                              db.fiscal_years in
                          elim (Result-cases
                            (post_entry_within m command (record db.ledger { next_id = suc id }))) [
                              | inr (x, failed) ↦ absurd (ground arith)
                              | inl ((posting, l), posted) ↦
                                  elim (Result-cases
                                    (payment_number input.direction actor.company_id year l)) [
                                      | inr (x, failed) ↦ absurd (ground arith)
                                      | inl ((number, l'), numbered) ↦
                                          (l', ground arith, ground arith, ground arith)
                                    ]
                            ]
                    ]
            ]
      ]

  -- The tables with the payment, its allocations and a new ledger.
  abbrev pub after : PaymentDb → Payment → ℕ → Db → PaymentDb
  after db row first l = record db {
    ledger = l;
    payments = row ∷ db.payments;
    payment_allocations =
        allocation_rows m (side_of input.direction) actor.company_id row.id first input.allocations
        ++ db.payment_allocations;
  }

  create_payment_inv :
      (row : Payment) (db db' : PaymentDb) (l : Db) (u : Unit {0})
      → create_payment m input actor row db ≡ ok (u, db')
      → record db' { ledger = l } ≡ after db row db.ledger.next_id l
  create_payment_inv row db db' l u e =
      let rows =
        allocation_rows m (side_of input.direction) actor.company_id row.id db.ledger.next_id
          input.allocations in
      elim (Bool-cases (are_positive row rows && not (has_number row db.payments))) [
        | inr refused ↦ absurd (ground arith)
        | inl passed ↦ ground arith
      ]

  pub record IsCreated (db db' : PaymentDb) (r : PaymentResult) (row : Payment)
      (allocated : Decimal) (first : ℕ) (l : Db) : Type 0 where
    pub checks : IsChecked input actor db allocated
    pub same : db' ≡ after db row first l
    pub fresh : row.id ≡ db.ledger.next_id
    pub dated : row.payment_date ≡ input.payment_date
    pub rest : r.unallocated ≡ m.round4 (input.amount -ℤ allocated)

  pub create_inv :
      (correlation_id : ℕ) (key : Text) (db db' : PaymentDb) (r : PaymentResult)
      → create m input actor correlation_id key db ≡ ok (r, db')
      → (row : Payment) × (allocated : Decimal) × (first : ℕ) × (l : Db) × IsCreated db db' r row
          allocated first l
  unfolding create
  create_inv correlation_id key db db' r e = elim (Result-cases (checked m input actor db)) [
    | inr (x, failed) ↦ absurd (ground arith)
    | inl (((cash, allocated), db1), passed) ↦
        elim (Result-cases (posted_and_numbered m input actor correlation_id key cash db1)) [
          | inr (x, failed) ↦ absurd (ground arith)
          | inl ((row, db2), posted) ↦ elim (Result-cases (create_payment m input actor row db2)) [
            | inr (x, failed) ↦ absurd (ground arith)
            | inl ((u, db3), written) ↦ elim (Result-cases (commit db3.ledger)) [
              | inr (x, failed) ↦ absurd (ground arith)
              | inl ((v, l), settled) ↦
                  let (checks, first_same) = checked_inv db db1 cash allocated passed in
                  let (l2, second_same, fresh, dated) =
                    posted_and_numbered_inv correlation_id key cash db1 db2 row posted in
                  let first = db2.ledger.next_id in
                  let ended : db' ≡ record db3 { ledger = l } = ground arith in
                  let made : record db3 { ledger = l } ≡ after db2 row first l =
                    create_payment_inv row db2 db3 l u written in
                  let back : db2 ≡ record db { ledger = l2 } =
                    second_same ∙ ap (λ (d : PaymentDb). record d { ledger = l2 }) first_same in
                  (
                    row,
                    allocated,
                    first,
                    l,
                    record {
                      checks = checks;
                      same = ended ∙ made ∙ ap (λ d. after d row first l) back;
                      fresh = fresh ∙ ap (λ d. d.ledger.next_id) first_same;
                      dated = dated;
                      rest = ground arith;
                    },
                  )
            ]
          ]
        ]
  ]
