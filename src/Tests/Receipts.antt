-- ===== src/Tests/Receipts.antt =====
-- A customer pays an invoice; approvals, ageing and document numbers.
use markaz.Prelude.{ℕ, ◌+◌, ◌≡◌, ◌≢◌, refl, ◌⊎◌, true, false, Option, none, some, [], ◌∷◌, arith}
use markaz.Prelude.Int.{pos, ◌+ℤ◌, ◌-ℤ◌, ◌≤ℤ◌}
use markaz.Prelude.Sums.{sum_by}
use markaz.Prelude.Text.{codes, text_eq, pad_start, show}
use markaz.Decimals.{Decimal, greater_than}
use markaz.Store.{Db, period_open, asset_account, Result, ok, err}
use markaz.Accounting.Numbering.{next as next_number, series_row, create_series, format_number}
use markaz.Accounting.Numbering.Laws.{last_allocated, SeriesBelow}
use markaz.Accounting.Engine.Command.{validate_shape}
use markaz.Accounting.Engine.Constraints.{commit, transaction, insert_entry, insert_lines}
use markaz.Accounting.Engine.Post.{posting_period, post_new_entry, post_entry_in, post_entry_within}
use markaz.Reference.{allocate_document_number}
use markaz.Reference.Laws.{allocate_document_number_lem}
use markaz.Inventory.AccountMapping.{accounts_receivable, key_index}
use markaz.Payments.Outstanding.{
  sales_side, Invoice, invoice_document, Payment, receipt, cash as by_cash, PaymentDb,
  outstanding_on, far_future, load_outstanding, OutstandingInvoice,
}
use markaz.Payments.Payment.{checked, posted_and_numbered, create}
use markaz.Payments.Command.{CreatePaymentInput, PaymentActor, PaymentResult}
use markaz.Payments.Payment.Owed.{create_never_overpays, create_unallocated}
use markaz.Payments.Payment.Allocated.{set_against}
use markaz.Payments.Aging.{report_rows, report_total, total_of}
use markaz.Payments.Aging.Laws.{report_total_lem}
use markaz.Approvals.{
  ApprovalPolicy, ApprovalRequest, pending, approved, approve, ApprovalDb, RequestApprovalInput,
  ApprovalRequestResult, get_policy, evaluate_and_request, find_request, decide,
}
use markaz.Approvals.Laws.{here, next, evaluates, decides, decision_final}
use markaz.Approvals.Repeat.{request_on, IsNewFor, evaluate_and_request_iff}
use markaz.Tests.FourPlaces.{four_places}

abbrev ledger : Db
ledger = record {
  fiscal_periods =
      record {
        id = 1;
        company_id = 7;
        fiscal_year_name = codes "2026";
        start_date = 1;
        end_date = 365;
        status = period_open;
      }
      ∷ [];
  accounts =
      record {
        id = 10;
        company_id = 7;
        code = codes "1000";
        parent_id = none;
        type = asset_account;
        is_postable = true;
        is_active = true;
      }
      ∷ record {
        id = 20;
        company_id = 7;
        code = codes "1200";
        parent_id = none;
        type = asset_account;
        is_postable = true;
        is_active = true;
      }
      ∷ [];
  document_number_series = [];
  journal_entries = [];
  journal_entry_lines = [];
  pending = [];
  next_id = 100;
}

abbrev bill : Invoice
bill = record {
  id = 50;
  company_id = 7;
  number = codes "INV-1";
  document_type = invoice_document;
  original_invoice_id = none;
  party_id = 3;
  invoice_date = 20;
  due_date = none;
  currency = codes "SAR";
  total_gross = pos 1150000;
}

abbrev db : PaymentDb
db = record {
  ledger = ledger;
  companies = record { id = 7; default_currency = codes "SAR" } ∷ [];
  fiscal_years =
      record { id = 2; company_id = 7; name = codes "2026"; start_date = 1; end_date = 365 } ∷ [];
  parties = record { id = 3; company_id = 7; is_active = true } ∷ [];
  account_mappings = record { company_id = 7; key = accounts_receivable; account_id = 20 } ∷ [];
  sales_invoices = bill ∷ [];
  supplier_invoices = [];
  payments = [];
  payment_allocations = [];
}

abbrev input : CreatePaymentInput
input = record {
  direction = receipt;
  party_id = 3;
  payment_date = 40;
  amount = pos 600000;
  cash_account_id = 10;
  method = by_cash;
  reference = none;
  notes = none;
  allocations = record { invoice_id = 50; amount = pos 500000 } ∷ [];
}

abbrev actor : PaymentActor
actor = record { id = 4; company_id = 7 }

abbrev tables : Result (PaymentResult × PaymentDb) → PaymentDb → PaymentDb
tables (ok (r, db')) other = db'
tables (err e) other = other

abbrev result : Result (PaymentResult × PaymentDb) → PaymentResult
result (ok (r, db')) = r
result (err e) = record { id = 0; number = []; journal_entry_id = 0; unallocated = pos 0 }

unfoldable paid : Result (PaymentResult × PaymentDb)
paid = create four_places input actor 9 (codes "k1") db

paid_is_ok : paid ≡ ok (result paid, tables paid db)
unfolding paid create checked posted_and_numbered load_outstanding commit transaction insert_entry
    insert_lines posting_period post_new_entry post_entry_in post_entry_within next_number
    series_row create_series validate_shape allocate_document_number key_index ◌+ℤ◌ ◌-ℤ◌
paid_is_ok = refl

-- The same request again, with the same key: the entry is replayed, and a second payment is made.
repeated :
    let again = create four_places input actor 9 (codes "k1") (tables paid db) in
    ((result again).journal_entry_id ≡ (result paid).journal_entry_id)
    × ((result again).id ≢ (result paid).id)
unfolding paid create checked posted_and_numbered load_outstanding commit transaction insert_entry
    insert_lines posting_period post_new_entry post_entry_in post_entry_within next_number
    series_row create_series validate_shape allocate_document_number key_index ◌+ℤ◌ ◌-ℤ◌ pad_start
    show
repeated = (refl, λ e. absurd (omega (arith, e)))

create_never_overpays_example :
    (outstanding_on sales_side far_future (tables paid db) bill
      ≡ outstanding_on sales_side far_future db bill
        -ℤ set_against four_places 50 input.allocations)
    × (pos 0 ≤ℤ outstanding_on sales_side far_future (tables paid db) bill)
unfolding ◌+ℤ◌ ◌-ℤ◌ paid
create_never_overpays_example =
    create_never_overpays four_places input actor 9 (codes "k1") db (tables paid db) (result paid)
      bill tt ((λ e. refl), tt) (refl, tt) (omega arith) (omega arith) paid_is_ok

create_unallocated_example :
    (row : Payment) × ((tables paid db).payments ≡ row ∷ [])
    × (row.payment_date ≡ 40)
    × (sum_by (λ a. a.amount) input.allocations ≤ℤ pos 600000)
    × ((result paid).unallocated ≡ pos 600000 -ℤ sum_by (λ a. a.amount) input.allocations)
unfolding paid
create_unallocated_example =
    create_unallocated four_places input actor 9 (codes "k1") db (tables paid db) (result paid)
      paid_is_ok

allocate_document_number_lem_example :
    (db' : Db) × (allocate_document_number 7
        (codes "payment_receipt_no")
        (codes "RCT")
        (codes "2026")
        ledger
      ≡ ok ((format_number (codes "RCT-2026-") 6 (0 + 1), db')))
    × (last_allocated 7 (codes "payment_receipt_no") (codes "2026") db' ≡ 0 + 1)
    × SeriesBelow db'.next_id db'.document_number_series
allocate_document_number_lem_example =
    allocate_document_number_lem 7 (codes "payment_receipt_no") (codes "RCT") (codes "2026") ledger
      tt (λ row found. absurd (ground arith))

abbrev owed_row : OutstandingInvoice
owed_row = record {
  id = 50;
  number = codes "INV-1";
  party_id = 3;
  invoice_date = 20;
  due_date = some 50;
  currency = codes "SAR";
  gross = pos 1150000;
  outstanding = pos 650000;
}

report_total_lem_example :
    (report_total 100 (owed_row ∷ []) ((3, pos 100000) ∷ [])
      ≡ sum_by (λ i. i.outstanding) (owed_row ∷ [])
        -ℤ sum_by (λ (u : ℕ × Decimal). u.1) ((3, pos 100000) ∷ []))
    × (report_total 100 (owed_row ∷ []) ((3, pos 100000) ∷ [])
        ≡ sum_by (λ row. total_of row.1) (report_rows 100 (owed_row ∷ []) ((3, pos 100000) ∷ [])))
report_total_lem_example = report_total_lem 100 (owed_row ∷ []) ((3, pos 100000) ∷ []) (tt, tt)

abbrev policy : ApprovalPolicy
policy = record {
  company_id = 7;
  subject_type = codes "purchase_order";
  threshold_amount = pos 5000;
  currency = codes "SAR";
}

abbrev document : RequestApprovalInput
document = record {
  company_id = 7;
  subject_type = codes "purchase_order";
  subject_id = 61;
  amount = pos 9000;
  currency = codes "SAR";
  requested_by = 4;
  correlation_id = 9;
}

abbrev request : ApprovalRequest
request = record {
  id = 8;
  company_id = 7;
  subject_type = codes "purchase_order";
  subject_id = 60;
  amount = pos 7000;
  currency = codes "SAR";
  status = approved;
  requested_by = 4;
  decided_by = some 5;
  decided_at = some 30;
  reason = none;
  correlation_id = 9;
}

abbrev approvals : ApprovalDb
approvals = record { policies = policy ∷ []; requests = request ∷ []; next_id = 11 }

abbrev answer : Option ApprovalRequestResult
answer = some (record { id = 11; status = pending })

abbrev asked : ApprovalDb
asked = record approvals {
  requests =
      record request {
        id = 11;
        subject_id = 61;
        amount = pos 9000;
        status = pending;
        decided_by = none;
        decided_at = none;
      }
      ∷ request
      ∷ [];
  next_id = 12;
}

asked_is_ok : evaluate_and_request document approvals ≡ ok (answer, asked)
unfolding evaluate_and_request
asked_is_ok = refl

abbrev signed : ApprovalDb
signed = record asked {
  requests =
      record request {
        id = 11;
        subject_id = 61;
        amount = pos 9000;
        status = approved;
        decided_by = some 6;
        decided_at = some 33;
      }
      ∷ request
      ∷ [];
}

signed_is_ok :
    decide 11 approve 6 33 none asked ≡ ok (record { id = 11; status = approved }, signed)
unfolding decide
signed_is_ok = refl

decision_final_example : find_request 8 signed.requests ≡ some request
decision_final_example =
    decision_final 8 request (omega arith, tt)
      (next (next here (evaluates document answer asked_is_ok))
        (decides 11 approve 6 33 none (record { id = 11; status = approved }) signed_is_ok))
      refl refl

evaluate_and_request_iff_example :
    (((answer ≡ none)
        × (asked ≡ approvals)
        × ((get_policy 7 (codes "purchase_order") approvals ≡ none)
            ⊎ ((p : ApprovalPolicy) × (get_policy 7 (codes "purchase_order") approvals ≡ some p)
                × (text_eq (codes "SAR") p.currency ≡ true)
                × (greater_than (pos 9000) p.threshold_amount ≡ false))))
      ⊎ ((x : ApprovalRequestResult) × (p : ApprovalPolicy) × (request : ApprovalRequest) × (answer
            ≡ some x)
          × (get_policy 7 (codes "purchase_order") approvals ≡ some p)
          × (text_eq (codes "SAR") p.currency ≡ true)
          × (greater_than (pos 9000) p.threshold_amount ≡ true)
          × (request_on 7 (codes "purchase_order") document.subject_id asked.requests
              ≡ some request)
          × (x.id ≡ request.id)
          × (x.status ≡ request.status)
          × ((asked ≡ approvals) ⊎ IsNewFor document request approvals asked)))
    × (evaluate_and_request document asked ≡ ok (answer, asked))
evaluate_and_request_iff_example =
    evaluate_and_request_iff document approvals asked answer asked_is_ok
