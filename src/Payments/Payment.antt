-- ===== src/Payments/Payment.antt =====
-- `create` of packages/core/src/payments/payment.service.ts: a customer's receipt or a payment to a
-- supplier, set against invoices. (The audit record, written after the transaction, is left out.)
pub mod Laws
pub mod Owed
pub mod Allocated
use markaz.Prelude.{
  ℕ, ◌+◌, Bool, true, false, not, ◌&&◌, ◌||◌, Option, none, some, List, [], ◌∷◌, ◌++◌, map, ◌==◌,
  if◌then◌else◌, length,
}
use markaz.Prelude.Int.{ℤ, pos, ◌+ℤ◌, ◌-ℤ◌}
use markaz.Prelude.Text.{Text, codes, trim, text_eq}
use markaz.Decimals.{Decimal, Arithmetic, greater_than}
use markaz.Store.{
  Db, Account, AccountType, asset_account, liability_account, equity_account, revenue_account,
  expense_account, FiscalPeriod, Error, payment_error, record_not_found, unmapped_account,
  party_not_found, cash_account_not_found, cash_account_invalid, duplicate_allocation,
  invoice_not_found, over_allocated, allocation_exceeds_payment, no_open_period, Result, ok, err,
  Action, ActionOn, ◌>>=◌, ◌>>◌, pure, gets, modify, require, or_throw, new_id, find,
  constraint_violation,
}
use markaz.Accounting.FiscalYear.{fiscal_year_key_for, company_currency}
use markaz.Accounting.Engine.Command.{
  JournalLineInput, PostingCommand, PostingResult, debit_input, credit_input,
}
use markaz.Accounting.Engine.Constraints.{commit}
use markaz.Accounting.Engine.Post.{find_open_fiscal_period, post_entry_within}
use markaz.Reference.{allocate_document_number}
use markaz.Inventory.AccountMapping.{
  AccountMappingKey, accounts_receivable, accounts_payable, resolve,
}
use markaz.Payments.Outstanding.{
  InvoiceSide, sales_side, supplier_side, PaymentDirection, receipt, payment, PaymentMethod,
  Payment, PaymentAllocation, Party, PaymentDb, OutstandingInvoice, far_future, contains,
  load_outstanding,
}
use markaz.Payments.Command.{
  PaymentAllocationInput, CreatePaymentInput, PaymentActor, PaymentResult, side_of, blank_to_null,
  on_ledger, lift_result, has_duplicate, check_allocations, is_asset, control_key, journal_lines,
  posting_command, payment_number,
}

-- payments_amount_check and payment_allocations_amount_check.
abbrev pub all_positive : List PaymentAllocation → Bool
all_positive [] = true
all_positive (a ∷ more) = greater_than a.amount (pos 0) && all_positive more

abbrev pub are_positive : Payment → List PaymentAllocation → Bool
are_positive row allocations = greater_than row.amount (pos 0) && all_positive allocations

-- The unique key of a company's payments.
abbrev pub has_number : Payment → List Payment → Bool
has_number row [] = false
has_number row (p ∷ more) =
    ((p.company_id == row.company_id) && text_eq p.number row.number) || has_number row more

module _ (m : Arithmetic) where
  open m use {round4, column4}

  -- The rows of `allocations.create`, with ids from `id` on.
  abbrev pub allocation_rows :
      InvoiceSide → ℕ → ℕ → ℕ → List PaymentAllocationInput → List PaymentAllocation
  allocation_rows side company_id payment_id id [] = []
  allocation_rows sales_side company_id payment_id id (a ∷ more) =
      record {
        id = id;
        company_id = company_id;
        payment_id = payment_id;
        amount = column4 a.amount;
        sales_invoice_id = some a.invoice_id;
        supplier_invoice_id = none;
      }
      ∷ allocation_rows sales_side company_id payment_id (id + 1) more
  allocation_rows supplier_side company_id payment_id id (a ∷ more) =
      record {
        id = id;
        company_id = company_id;
        payment_id = payment_id;
        amount = column4 a.amount;
        sales_invoice_id = none;
        supplier_invoice_id = some a.invoice_id;
      }
      ∷ allocation_rows supplier_side company_id payment_id (id + 1) more

  abbrev pub payment_row : CreatePaymentInput → PaymentActor → ℕ → Text → ℕ → Text → ℕ → ℕ → Payment
  payment_row input actor correlation_id currency cash_id number id journal_entry_id = record {
    id = id;
    company_id = actor.company_id;
    direction = input.direction;
    number = number;
    party_id = input.party_id;
    payment_date = input.payment_date;
    amount = column4 input.amount;
    currency = currency;
    cash_account_id = cash_id;
    method = input.method;
    reference = blank_to_null input.reference;
    notes = blank_to_null input.notes;
    journal_entry_id = journal_entry_id;
    actor_id = actor.id;
    correlation_id = correlation_id;
  }

  abbrev pub insert_payment : Payment → List PaymentAllocation → PaymentDb → PaymentDb
  insert_payment row allocations db = record db {
    payments = row ∷ db.payments;
    payment_allocations = allocations ++ db.payment_allocations;
  }

  -- `tx.payment.create`, with the ids of the allocations and the constraints of the two tables.
  abbrev pub create_payment :
      CreatePaymentInput → PaymentActor → Payment → ActionOn PaymentDb (Unit {0})
  create_payment input actor row = do
    first ← gets λ db. db.ledger.next_id
    on_ledger (modify λ db. record db { next_id = db.next_id + length input.allocations })
    let rows =
        allocation_rows (side_of input.direction) actor.company_id row.id first input.allocations
    db ← gets λ db. db
    require (are_positive row rows && not (has_number row db.payments)) constraint_violation
    modify (insert_payment row rows)

  -- The checks before anything is written: the cash account and what is allocated.
  unfoldable pub checked :
      CreatePaymentInput → PaymentActor → ActionOn PaymentDb (Account × Decimal)
  checked input actor = do
    db ← gets λ db. db
    party ←
        or_throw
          (find
            (λ p. (p.id == input.party_id) && ((p.company_id == actor.company_id) && p.is_active))
            db.parties)
          (payment_error party_not_found)
    cash ←
        or_throw
          (find (λ a. (a.id == input.cash_account_id) && (a.company_id == actor.company_id))
            db.ledger.accounts)
          (payment_error cash_account_not_found)
    require (cash.is_postable && is_asset cash.type) (payment_error cash_account_invalid)
    let ids = map (λ a. a.invoice_id) input.allocations
    require (not (has_duplicate ids)) (payment_error duplicate_allocation)
    allocated ← lift_result (
        check_allocations
          (load_outstanding actor.company_id (side_of input.direction) (some ids)
            (some input.party_id) far_future db)
          input.allocations (pos 0))
    require (not (greater_than allocated input.amount)) (payment_error allocation_exceeds_payment)
    pure (cash, allocated)

  -- The ledger's part: the period, the currency, the control account, the entry, the number.
  unfoldable pub posted_and_numbered :
      CreatePaymentInput → PaymentActor → ℕ → Text → Account → ActionOn PaymentDb Payment
  posted_and_numbered input actor correlation_id idempotency_key cash = do
    db ← gets λ db. db
    period ←
        or_throw (find_open_fiscal_period actor.company_id input.payment_date db.ledger)
          (payment_error no_open_period)
    currency ← or_throw (company_currency actor.company_id db.companies) record_not_found
    control_id ←
        or_throw (resolve actor.company_id (control_key input.direction) db.account_mappings)
          unmapped_account
    id ← on_ledger new_id
    posting ← on_ledger (
        post_entry_within m (
          posting_command input actor correlation_id idempotency_key period.id currency
            (journal_lines input.direction cash.id control_id (round4 input.amount)) id))
    number ← on_ledger (
        payment_number input.direction actor.company_id
          (fiscal_year_key_for actor.company_id input.payment_date db.fiscal_years))
    pure
        (payment_row input actor correlation_id currency cash.id number id posting.journal_entry_id)

  -- The one transaction.
  unfoldable pub create :
      CreatePaymentInput → PaymentActor → ℕ → Text → ActionOn PaymentDb PaymentResult
  unfolding checked posted_and_numbered
  create input actor correlation_id idempotency_key = do
    (cash, allocated) ← checked input actor
    row ← posted_and_numbered input actor correlation_id idempotency_key cash
    create_payment input actor row
    on_ledger commit
    pure (record {
      id = row.id;
      number = row.number;
      journal_entry_id = row.journal_entry_id;
      unallocated = round4 (input.amount -ℤ allocated);
    })
