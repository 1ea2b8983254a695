-- ===== src/Payments/Outstanding.antt =====
-- packages/core/src/payments/outstanding.ts, with the tables that payments read and write: what is still
-- owed on an invoice. The order of the rows is left out; both callers look invoices up or add them up.
use markaz.Prelude.{
  ℕ, Bool, true, false, ◌&&◌, Option, none, some, List, [], ◌∷◌, leb, ◌==◌, if◌then◌else◌,
}
use markaz.Prelude.Int.{pos, ◌+ℤ◌, ◌-ℤ◌}
use markaz.Prelude.Text.{Text}
use markaz.Decimals.{Decimal}
use markaz.Store.{Db, find}
use markaz.Accounting.FiscalYear.{FiscalYear, Company}
use markaz.Inventory.AccountMapping.{AccountMapping}

pub data InvoiceSide : Type 0 where
  sales_side supplier_side : InvoiceSide

pub data DocumentType : Type 0 where
  invoice_document credit_note debit_note : DocumentType

-- A row of sales_invoices or of supplier_invoices; the party is the customer or the supplier.
pub record Invoice : Type 0 where
  pub id : ℕ
  pub company_id : ℕ
  pub number : Text
  pub document_type : DocumentType
  pub original_invoice_id : Option ℕ
  pub party_id : ℕ
  pub invoice_date : ℕ
  pub due_date : Option ℕ
  pub currency : Text
  pub total_gross : Decimal

pub data PaymentDirection : Type 0 where
  receipt payment : PaymentDirection

pub data PaymentMethod : Type 0 where
  cash bank_transfer cheque card other : PaymentMethod

pub record Payment : Type 0 where
  pub id : ℕ
  pub company_id : ℕ
  pub direction : PaymentDirection
  pub number : Text
  pub party_id : ℕ
  pub payment_date : ℕ
  pub amount : Decimal
  pub currency : Text
  pub cash_account_id : ℕ
  pub method : PaymentMethod
  pub reference : Option Text
  pub notes : Option Text
  pub journal_entry_id : ℕ
  pub actor_id : ℕ
  pub correlation_id : ℕ

pub record PaymentAllocation : Type 0 where
  pub id : ℕ
  pub company_id : ℕ
  pub payment_id : ℕ
  pub amount : Decimal
  pub sales_invoice_id : Option ℕ
  pub supplier_invoice_id : Option ℕ

pub record Party : Type 0 where
  pub id : ℕ
  pub company_id : ℕ
  pub is_active : Bool

-- The tables of the ledger and those of payments.
pub record PaymentDb : Type 0 where
  pub ledger : Db
  pub companies : List Company
  pub fiscal_years : List FiscalYear
  pub parties : List Party
  pub account_mappings : List AccountMapping
  pub sales_invoices : List Invoice
  pub supplier_invoices : List Invoice
  pub payments : List Payment
  pub payment_allocations : List PaymentAllocation

pub record OutstandingInvoice : Type 0 where
  pub id : ℕ
  pub number : Text
  pub party_id : ℕ
  pub invoice_date : ℕ
  pub due_date : Option ℕ
  pub currency : Text
  pub gross : Decimal
  pub outstanding : Decimal

-- 31 December 9999.
abbrev pub far_future : ℕ
far_future = 2932896

abbrev pub is_id : ℕ → Option ℕ → Bool
is_id id none = false
is_id id (some k) = k == id

abbrev pub settles : InvoiceSide → ℕ → PaymentAllocation → Bool
settles sales_side id a = is_id id a.sales_invoice_id
settles supplier_side id a = is_id id a.supplier_invoice_id

-- The join with `payments`, and its date.
abbrev pub is_paid_by : ℕ → List Payment → ℕ → Bool
is_paid_by as_of payments payment_id = elim (find (λ p. p.id == payment_id) payments) [
  | some p ↦ leb p.payment_date as_of
  | none ↦ false
]

abbrev pub allocated_to : InvoiceSide → ℕ → ℕ → List Payment → List PaymentAllocation → Decimal
allocated_to side id as_of payments [] = pos 0
allocated_to side id as_of payments (a ∷ more) =
    if settles side id a && is_paid_by as_of payments a.payment_id
    then a.amount +ℤ allocated_to side id as_of payments more
    else allocated_to side id as_of payments more

abbrev pub is_invoice : DocumentType → Bool
is_invoice invoice_document = true
is_invoice credit_note = false
is_invoice debit_note = false

abbrev pub is_credit_note : DocumentType → Bool
is_credit_note invoice_document = false
is_credit_note credit_note = true
is_credit_note debit_note = false

abbrev pub is_debit_note : DocumentType → Bool
is_debit_note invoice_document = false
is_debit_note credit_note = false
is_debit_note debit_note = true

-- The notes raised against an invoice, of the types that `p` accepts.
abbrev pub notes_against : (DocumentType → Bool) → ℕ → ℕ → List Invoice → Decimal
notes_against p id as_of [] = pos 0
notes_against p id as_of (n ∷ ns) =
    if is_id id n.original_invoice_id && (p n.document_type && leb n.invoice_date as_of)
    then n.total_gross +ℤ notes_against p id as_of ns
    else notes_against p id as_of ns

abbrev pub outstanding_on : InvoiceSide → ℕ → PaymentDb → Invoice → Decimal
outstanding_on sales_side as_of db i =
    i.total_gross
    -ℤ allocated_to sales_side i.id as_of db.payments db.payment_allocations
    -ℤ notes_against is_credit_note i.id as_of db.sales_invoices
    +ℤ notes_against is_debit_note i.id as_of db.sales_invoices
outstanding_on supplier_side as_of db i =
    i.total_gross
    -ℤ allocated_to supplier_side i.id as_of db.payments db.payment_allocations
    -ℤ notes_against (λ t. true) i.id as_of db.supplier_invoices

abbrev pub invoices_of : InvoiceSide → PaymentDb → List Invoice
invoices_of sales_side db = db.sales_invoices
invoices_of supplier_side db = db.supplier_invoices

abbrev pub contains : List ℕ → ℕ → Bool
contains [] id = false
contains (k ∷ ks) id = if k == id then true else contains ks id

-- `options`: the ids, the party.
abbrev pub is_wanted_id : Option (List ℕ) → ℕ → Bool
is_wanted_id none id = true
is_wanted_id (some ids) id = contains ids id

abbrev pub is_wanted_party : Option ℕ → ℕ → Bool
is_wanted_party none party_id = true
is_wanted_party (some p) party_id = party_id == p

-- The WHERE of the queries.
abbrev pub is_wanted : ℕ → Option (List ℕ) → Option ℕ → ℕ → Invoice → Bool
is_wanted company_id ids party_id as_of i =
    (i.company_id == company_id)
    && (is_invoice i.document_type
        && (leb i.invoice_date as_of
            && (is_wanted_id ids i.id && is_wanted_party party_id i.party_id)))

abbrev pub outstanding_row : InvoiceSide → ℕ → PaymentDb → Invoice → OutstandingInvoice
outstanding_row side as_of db i = record {
  id = i.id;
  number = i.number;
  party_id = i.party_id;
  invoice_date = i.invoice_date;
  due_date = i.due_date;
  currency = i.currency;
  gross = i.total_gross;
  outstanding = outstanding_on side as_of db i;
}

abbrev pub outstanding_rows :
    InvoiceSide
    → ℕ
    → Option (List ℕ)
    → Option ℕ
    → ℕ
    → PaymentDb
    → List Invoice
    → List OutstandingInvoice
outstanding_rows side company_id ids party_id as_of db [] = []
outstanding_rows side company_id ids party_id as_of db (i ∷ is) =
    if is_wanted company_id ids party_id as_of i
    then outstanding_row side as_of db i ∷ outstanding_rows side company_id ids party_id as_of db is
    else outstanding_rows side company_id ids party_id as_of db is

unfoldable pub load_outstanding :
    ℕ → InvoiceSide → Option (List ℕ) → Option ℕ → ℕ → PaymentDb → List OutstandingInvoice
load_outstanding company_id side ids party_id as_of db =
    outstanding_rows side company_id ids party_id as_of db (invoices_of side db)
