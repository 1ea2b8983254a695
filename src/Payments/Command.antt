-- ===== src/Payments/Command.antt =====
-- What a call of `create` of packages/core/src/payments/payment.service.ts gives and gets, the checks of its
-- allocations, and what it books.
use markaz.Prelude.{ℕ, Bool, true, false, Option, none, some, List, [], ◌∷◌, ◌==◌, if◌then◌else◌}
use markaz.Prelude.Int.{◌+ℤ◌}
use markaz.Prelude.Text.{Text, codes, trim}
use markaz.Decimals.{Decimal, greater_than}
use markaz.Store.{
  AccountType, asset_account, payment_error, invoice_not_found, over_allocated, Result, ok, err,
  Action, ActionOn, find,
}
use markaz.Accounting.Engine.Command.{JournalLineInput, PostingCommand, debit_input, credit_input}
use markaz.Reference.{allocate_document_number}
use markaz.Inventory.AccountMapping.{AccountMappingKey, accounts_receivable, accounts_payable}
use markaz.Payments.Outstanding.{
  InvoiceSide, sales_side, supplier_side, PaymentDirection, receipt, payment, PaymentMethod,
  PaymentDb, OutstandingInvoice, contains,
}

pub record PaymentAllocationInput : Type 0 where
  pub invoice_id : ℕ
  pub amount : Decimal

pub record CreatePaymentInput : Type 0 where
  pub direction : PaymentDirection
  pub party_id : ℕ
  pub payment_date : ℕ
  pub amount : Decimal
  pub cash_account_id : ℕ
  pub method : PaymentMethod
  pub reference : Option Text
  pub notes : Option Text
  pub allocations : List PaymentAllocationInput

pub record PaymentActor : Type 0 where
  pub id : ℕ
  pub company_id : ℕ

pub record PaymentResult : Type 0 where
  pub id : ℕ
  pub number : Text
  pub journal_entry_id : ℕ
  pub unallocated : Decimal

abbrev pub side_of : PaymentDirection → InvoiceSide
side_of receipt = sales_side
side_of payment = supplier_side

abbrev pub text_or_none : Text → Option Text
text_or_none [] = none
text_or_none (c ∷ t) = some (c ∷ t)

abbrev pub blank_to_null : Option Text → Option Text
blank_to_null none = none
blank_to_null (some t) = text_or_none (trim t)

-- A step of the engine, on its part of the tables.
abbrev pub on_ledger : {A : Type 0} → Action A → ActionOn PaymentDb A
on_ledger act db = elim (act db.ledger) [
  | ok (a, ledger) ↦ ok (a, record db { ledger = ledger })
  | err e ↦ err e
]

abbrev pub lift_result : {A : Type 0} → Result A → ActionOn PaymentDb A
lift_result (ok a) db = ok (a, db)
lift_result (err e) db = err e

-- `new Set(ids).size !== ids.length`.
abbrev pub has_duplicate : List ℕ → Bool
has_duplicate [] = false
has_duplicate (id ∷ ids) = if contains ids id then true else has_duplicate ids

-- The loop over the allocations: each invoice is the party's and owes at least what is set against it.
abbrev pub check_allocations :
    List OutstandingInvoice → List PaymentAllocationInput → Decimal → Result Decimal
check_allocations rows [] allocated = ok allocated
check_allocations rows (a ∷ more) allocated = elim (find (λ o. o.id == a.invoice_id) rows) [
  | none ↦ err (payment_error invoice_not_found)
  | some invoice ↦
      let rest = check_allocations rows more (allocated +ℤ a.amount) in
      if greater_than a.amount invoice.outstanding then err (payment_error over_allocated) else rest
]

abbrev pub is_asset : AccountType → Bool
is_asset asset_account = true
is_asset _ = false

abbrev pub control_key : PaymentDirection → AccountMappingKey
control_key receipt = accounts_receivable
control_key payment = accounts_payable

-- RECEIPT: Dr cash, Cr receivable; PAYMENT: Dr payable, Cr cash.
abbrev pub journal_lines : PaymentDirection → ℕ → ℕ → Decimal → List JournalLineInput
journal_lines receipt cash_id control_id amount =
    debit_input cash_id amount (codes "Customer receipt")
    ∷ credit_input control_id amount (codes "Customer receipt")
    ∷ []
journal_lines payment cash_id control_id amount =
    debit_input control_id amount (codes "Supplier payment")
    ∷ credit_input cash_id amount (codes "Supplier payment")
    ∷ []

abbrev pub source_type : PaymentDirection → Text
source_type receipt = codes "customer_receipt"
source_type payment = codes "supplier_payment"

abbrev pub posting_command :
    CreatePaymentInput
    → PaymentActor
    → ℕ
    → Text
    → ℕ
    → Text
    → List JournalLineInput
    → ℕ
    → PostingCommand
posting_command input actor correlation_id key period_id currency lines payment_id = record {
  company_id = actor.company_id;
  fiscal_period_id = period_id;
  entry_date = input.payment_date;
  posting_date = input.payment_date;
  currency = currency;
  exchange_rate = none;
  lines = lines;
  source_module = codes "payments";
  source_document_type = source_type input.direction;
  source_document_id = payment_id;
  actor_id = actor.id;
  correlation_id = correlation_id;
  idempotency_key = key;
}

abbrev pub payment_number : PaymentDirection → ℕ → Text → Action Text
payment_number receipt company_id fiscal_year =
    allocate_document_number company_id (codes "payment_receipt_no") (codes "RCT") fiscal_year
payment_number payment company_id fiscal_year =
    allocate_document_number company_id (codes "payment_out_no") (codes "PAY") fiscal_year
