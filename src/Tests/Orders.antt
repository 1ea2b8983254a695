-- ===== src/Tests/Orders.antt =====
-- Lines of a sales document, and a purchase request under review.
use markaz.Prelude.{◌≤◌, ◌≡◌, refl, true, none, some, [], ◌∷◌}
use markaz.Prelude.Int.{pos}
use markaz.Prelude.Text.{codes}
use markaz.Store.{Db, ok}
use markaz.Sales.Lines.{
  SalesLineInput, ResolvedSalesLine, Item, TaxCode, resolved, resolve_line, resolve_from,
  resolve_sales_lines,
}
use markaz.Sales.Lines.Laws.{ArePriced, resolve_sales_lines_lem}
use markaz.Purchasing.PurchaseRequest.{
  waiting, PurchaseRequest, PurchaseRequestActor, RequestDb, update_in, as_rejected, reject,
}
use markaz.Tests.FourPlaces.{four_places}

abbrev paper : Item
paper = record { id = 1; company_id = 7; name = codes "Paper"; is_active = true }

abbrev vat : TaxCode
vat = record { id = 2; company_id = 7; rate = pos 150000; is_active = true }

abbrev asked : SalesLineInput
asked = record {
  item_id = some 1;
  description = none;
  quantity = pos 20000;
  unit_price = pos 100000;
  tax_code_id = 2;
}

abbrev given : ResolvedSalesLine
given = resolved four_places 7 (paper ∷ []) (vat ∷ []) asked 1 (some paper) vat (codes "Paper")

asked_is_ok :
    resolve_sales_lines four_places 7 (paper ∷ []) (vat ∷ []) (asked ∷ []) ≡ ok (given ∷ [])
unfolding resolve_sales_lines resolve_from resolve_line
asked_is_ok = refl

resolve_sales_lines_lem_example :
    (1 ≤ 1) × ArePriced four_places 7 (paper ∷ []) (vat ∷ []) 1 (asked ∷ []) (given ∷ [])
resolve_sales_lines_lem_example =
    resolve_sales_lines_lem four_places 7 (paper ∷ []) (vat ∷ []) (asked ∷ []) (given ∷ [])
      asked_is_ok

abbrev request : PurchaseRequest
request = record {
  id = 30;
  company_id = 7;
  number = codes "PRQ-2026-000001";
  status = waiting;
  warehouse_id = 4;
  notes = none;
  requested_by = 5;
  correlation_id = 9;
  accepted_by = none;
  accepted_at = none;
  rejection_reason = none;
  decided_by = none;
  decided_at = none;
  lines = [];
}

abbrev ledger : Db
ledger = record {
  fiscal_periods = [];
  accounts = [];
  document_number_series = [];
  journal_entries = [];
  journal_entry_lines = [];
  pending = [];
  next_id = 100;
}

abbrev db : RequestDb
db = record {
  ledger = ledger;
  fiscal_years = [];
  items = [];
  warehouses = [];
  purchase_requests = request ∷ [];
}

abbrev reviewer : PurchaseRequestActor
reviewer = record { id = 6; company_id = 7 }

abbrev rejected : PurchaseRequest
rejected = as_rejected (codes "no budget") reviewer 41 request

rejected_is_ok :
    reject 30 (codes "no budget") reviewer 41 db
    ≡ ok (rejected, update_in 30 (as_rejected (codes "no budget") reviewer 41) db)
unfolding reject
rejected_is_ok = refl
