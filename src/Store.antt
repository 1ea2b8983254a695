-- ===== src/Store.antt =====
-- The database that the services share, as far as this library reads and writes it: the tables of
-- packages/db/prisma/schema.prisma as lists of rows, newest first, and what a service does inside one
-- `prisma.$transaction`: it reads and changes the tables, and a thrown error leaves none of its changes.
-- Ids are numbers that a counter hands out; dates are days.
use markaz.Prelude.{
  ℕ, suc, ◌≡◌, refl, ◌⊎◌, inl, inr, Bool, true, false, Option, none, some, List, [], ◌∷◌,
  if◌then◌else◌,
}
use markaz.Prelude.Text.{Text}
use markaz.Decimals.{Decimal}

pub data PeriodStatus : Type 0 where
  period_open period_closed period_locked : PeriodStatus

-- A fiscal period with the name of its fiscal year.
pub record FiscalPeriod : Type 0 where
  pub id : ℕ
  pub company_id : ℕ
  pub fiscal_year_name : Text
  pub start_date : ℕ
  pub end_date : ℕ
  pub status : PeriodStatus

pub data AccountType : Type 0 where
  asset_account liability_account equity_account revenue_account expense_account : AccountType

pub record Account : Type 0 where
  pub id : ℕ
  pub company_id : ℕ
  pub code : Text
  pub parent_id : Option ℕ
  pub type : AccountType
  pub is_postable : Bool
  pub is_active : Bool

pub record DocumentNumberSeries : Type 0 where
  pub id : ℕ
  pub company_id : ℕ
  pub document_type : Text
  pub fiscal_year : Text
  pub prefix : Text
  pub padding : ℕ
  pub last_number : ℕ

pub record JournalEntry : Type 0 where
  pub id : ℕ
  pub company_id : ℕ
  pub fiscal_period_id : ℕ
  pub number : Text
  pub entry_date : ℕ
  pub posting_date : ℕ
  pub currency : Text
  pub exchange_rate : Option Decimal
  pub source_module : Text
  pub source_document_type : Text
  pub source_document_id : ℕ
  pub actor_id : ℕ
  pub correlation_id : ℕ
  pub idempotency_key : Text
  pub reversal_of_entry_id : Option ℕ

pub record JournalEntryLine : Type 0 where
  pub id : ℕ
  pub journal_entry_id : ℕ
  pub account_id : ℕ
  pub debit : Decimal
  pub credit : Decimal
  pub base_debit : Decimal
  pub base_credit : Decimal
  pub description : Option Text
  pub line_number : ℕ

pub record Db : Type 0 where
  pub fiscal_periods : List FiscalPeriod
  pub accounts : List Account
  pub document_number_series : List DocumentNumberSeries
  pub journal_entries : List JournalEntry
  pub journal_entry_lines : List JournalEntryLine
  -- The entries whose lines the open transaction has written.
  pub pending : List ℕ
  -- The next id that `newId()` returns.
  pub next_id : ℕ

-- The codes of PaymentError.
pub data PaymentErrorCode : Type 0 where
  party_not_found cash_account_not_found cash_account_invalid duplicate_allocation invoice_not_found
        over_allocated allocation_exceeds_payment no_open_period :
      PaymentErrorCode

-- The codes of PurchaseRequestError.
pub data RequestErrorCode : Type 0 where
  empty_request item_not_found warehouse_not_found request_not_found not_pending : RequestErrorCode

-- The codes of SalesError that reading the lines of a document throws.
pub data SalesErrorCode : Type 0 where
  empty_document sales_item_not_found tax_code_not_found description_required : SalesErrorCode

-- The codes of AccountMappingError.
pub data MappingErrorCode : Type 0 where
  mapped_account_not_found mapped_account_not_postable mapped_account_not_group
        mapped_account_wrong_type :
      MappingErrorCode

-- The codes of StockIssueError, GoodsReceiptError and StockCountError.
pub data StockErrorCode : Type 0 where
  stock_warehouse_not_found stock_item_not_found stock_no_open_period empty_stock_document
        stock_insufficient unit_cost_required count_not_found count_already_posted :
      StockErrorCode

-- The codes of PurchaseReceiptError, and of PurchaseOrderError that its state machine throws.
pub data OrderErrorCode : Type 0 where
  empty_order_receipt order_not_found order_not_receivable line_not_on_order over_receipt
        not_pending_approval not_cancellable :
      OrderErrorCode

-- The errors that the services throw.
pub data Error : Type 0 where
  invalid_posting_command account_not_postable fiscal_period_not_found : Error
  -- A CHECK, a unique constraint or a trigger of the database.
  constraint_violation : Error
  -- `findUniqueOrThrow` on a row that is not there.
  record_not_found : Error
  currency_mismatch already_decided unmapped_account : Error
  -- A RangeError of an amount that must be positive, or not negative.
  range_error : Error
  mapping_error : MappingErrorCode → Error
  stock_error : StockErrorCode → Error
  order_error : OrderErrorCode → Error
  payment_error : PaymentErrorCode → Error
  request_error : RequestErrorCode → Error
  -- With the number of the line.
  sales_error : SalesErrorCode → Option ℕ → Error

pub data Result {ℓ} (A : Type ℓ) : Type ℓ where
  ok : A → Result A
  err : Error → Result A

pub Result-cases {ℓ} :
    {A : Type ℓ} (r : Result A) → ((a : A) × (r ≡ ok a)) ⊎ ((e : Error) × (r ≡ err e))
Result-cases (ok a) = inl (a, refl)
Result-cases (err e) = inr (e, refl)

-- A step on the tables `S` of a component.
abbrev pub ActionOn : Type 0 → Type 0 → Type 0
ActionOn S A = S → Result (A × S)

abbrev pub Action : Type 0 → Type 0
Action = ActionOn Db

infixl 5 ◌>>=◌ ◌>>◌
abbrev pub ◌>>=◌ : {S A B : Type 0} → ActionOn S A → (A → ActionOn S B) → ActionOn S B
◌>>=◌ m f db = elim (m db) [ ok (a, db') ↦ f a db' | err e ↦ err e ]

abbrev pub ◌>>◌ : {S A B : Type 0} → ActionOn S A → ActionOn S B → ActionOn S B
m >> k = m >>= λ _. k

abbrev pub pure : {S A : Type 0} → A → ActionOn S A
pure a db = ok (a, db)

abbrev pub throw : {S A : Type 0} → Error → ActionOn S A
throw e db = err e

abbrev pub gets : {S A : Type 0} → (S → A) → ActionOn S A
gets f db = ok (f db, db)

abbrev pub modify : {S : Type 0} → (S → S) → ActionOn S (Unit {0})
modify f db = ok (tt, f db)

-- `if (!test) throw e`.
abbrev pub require : {S : Type 0} → Bool → Error → ActionOn S (Unit {0})
require true e db = ok (tt, db)
require false e db = err e

-- `row ?? throw e`.
abbrev pub or_throw : {S A : Type 0} → Option A → Error → ActionOn S A
or_throw none e = throw e
or_throw (some a) e = pure a

abbrev pub new_id : Action ℕ
new_id db = ok (db.next_id, record db { next_id = suc db.next_id })

-- The first row that passes a test.
abbrev pub find {ℓ} : {A : Type ℓ} → (A → Bool) → List A → Option A
find p [] = none
find p (x ∷ xs) = if p x then some x else find p xs
