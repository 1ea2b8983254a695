-- ===== src/Tests/Stock.antt =====
-- Goods come in and go out; the account mapping.
use markaz.Prelude.{if◌then◌else◌, ℕ, ◌≡◌, refl, true, none, some, List, [], ◌∷◌, All}
use markaz.Prelude.Int.{pos, ◌+ℤ◌, ◌-ℤ◌}
use markaz.Prelude.Text.{codes, pad_start, show}
use markaz.Store.{
  Db, Account, JournalEntry, period_open, AccountType, asset_account, liability_account,
  expense_account, Result, ok, err, Error,
}
use markaz.Accounting.Numbering.{next as next_number, series_row, create_series}
use markaz.Accounting.Engine.Command.{validate_shape}
use markaz.Accounting.Engine.Constraints.{commit, insert_entry, insert_lines}
use markaz.Accounting.Engine.Post.{posting_period, post_new_entry, post_entry_in, post_entry_within}
use markaz.Inventory.AccountMapping.{
  AccountMappingKey, AccountMapping, inventory, grni, project_issue_expense, key_index, set,
  resolve,
}
use markaz.Inventory.AccountMapping.Laws.{IsFitting, set_lem, same_slot}
use markaz.Inventory.WeightedAverage.{average_unit_cost, apply_receipt, apply_issue}
use markaz.Inventory.Stock.{StockDb, StockActor, StockDocumentResult}
use markaz.Inventory.StockRow.{lock_stock_row, save_stock_row}
use markaz.Inventory.StockRow.Moves.{IsStockTable}
use markaz.Inventory.StockDocument.Laws.{IsOrderly}
use markaz.Inventory.StockIssue.{
  CreateStockIssueInput, issue_context, issue_line, issue_lines, write_issue,
  create as create_issue,
}
use markaz.Inventory.StockIssue.Value.{create_never_twice}
use markaz.Inventory.StockIssue.Refines.{Answers, issue_spec, levels_of, issue_lines_refine}
use markaz.Inventory.GoodsReceipt.{
  CreateGoodsReceiptInput, receipt_context, receive_line, receive_lines, write_receipt, create_in,
  create as create_receipt,
}
use markaz.Inventory.Perpetual.{
  Step, issues, receives, here, next, IsReconciled, Reach-IsReconciled,
}
use markaz.Tests.FourPlaces.{four_places, four_places-IsArithmetic}

abbrev account : ℕ → AccountType → Account
account id type = record {
  id = id;
  company_id = 7;
  code = codes "1";
  parent_id = none;
  type = type;
  is_postable = true;
  is_active = true;
}

abbrev accounts : List Account
accounts = account 10 asset_account ∷ account 20 liability_account ∷ account 30 expense_account ∷ []

abbrev ledger : Db
ledger = record {
  fiscal_periods =
      record {
        id = 1;
        company_id = 7;
        fiscal_year_name = codes "2026";
        start_date = 1;
        end_date = 365;
        status = period_open;
      }
      ∷ [];
  accounts = accounts;
  document_number_series = [];
  journal_entries = [];
  journal_entry_lines = [];
  pending = [];
  next_id = 100;
}

abbrev mapped : AccountMappingKey → ℕ → AccountMapping
mapped key id = record { company_id = 7; key = key; account_id = id }

abbrev mappings : List AccountMapping
mappings = mapped inventory 10 ∷ mapped grni 20 ∷ mapped project_issue_expense 30 ∷ []

abbrev pub db : StockDb
db = record {
  ledger = ledger;
  companies = record { id = 7; default_currency = codes "SAR" } ∷ [];
  account_mappings = mappings;
  warehouses = record { id = 5; company_id = 7; is_active = true } ∷ [];
  items =
      record { id = 61; company_id = 7; is_active = true }
      ∷ record { id = 62; company_id = 7; is_active = true }
      ∷ [];
  item_warehouse_stock = [];
  stock_issues = [];
  stock_issue_lines = [];
  goods_receipts = [];
  goods_receipt_lines = [];
  stock_counts = [];
  stock_count_lines = [];
  stock_movements = [];
  cost_layers = [];
}

abbrev pub actor : StockActor
actor = record { id = 4; company_id = 7 }

-- 10 of item 61 at 2.00 and 3 of item 62 at 1.00.
abbrev delivery : CreateGoodsReceiptInput
delivery = record {
  warehouse_id = 5;
  party_id = none;
  purchase_order_id = none;
  document_date = 40;
  reference = none;
  lines =
      record {
        item_id = 61;
        quantity = pos 100000;
        unit_cost = pos 20000;
        purchase_order_line_id = none;
      }
      ∷ record {
        item_id = 62;
        quantity = pos 30000;
        unit_cost = pos 10000;
        purchase_order_line_id = none;
      }
      ∷ [];
}

-- 4 of item 61, twice, and all of item 62.
abbrev request : CreateStockIssueInput
request = record {
  warehouse_id = 5;
  cost_center_ref = codes "Site";
  document_date = 41;
  lines =
      record { item_id = 61; quantity = pos 40000 }
      ∷ record { item_id = 62; quantity = pos 30000 }
      ∷ record { item_id = 61; quantity = pos 40000 }
      ∷ [];
}

abbrev tables : Result (StockDocumentResult × StockDb) → StockDb → StockDb
tables (ok (r, db')) other = db'
tables (err e) other = other

abbrev result : Result (StockDocumentResult × StockDb) → StockDocumentResult
result (ok (r, db')) = r
result (err e) = record { id = 0; number = []; journal_entry_id = 0 }

unfoldable received : Result (StockDocumentResult × StockDb)
received = create_receipt four_places delivery actor 9 (codes "k1") db

unfoldable issued : Result (StockDocumentResult × StockDb)
issued = create_issue four_places request actor 9 (codes "k2") (tables received db)

received_is_ok : received ≡ ok (result received, tables received db)
unfolding received create_receipt create_in receipt_context receive_lines receive_line write_receipt
    lock_stock_row save_stock_row apply_receipt commit insert_entry insert_lines posting_period
    post_new_entry post_entry_in post_entry_within next_number series_row create_series
    validate_shape key_index ◌+ℤ◌ ◌-ℤ◌
received_is_ok = refl

issued_is_ok : issued ≡ ok (result issued, tables issued (tables received db))
unfolding issued received create_receipt create_in receipt_context receive_lines receive_line
    write_receipt create_issue issue_context issue_lines issue_line write_issue apply_issue
    average_unit_cost lock_stock_row save_stock_row apply_receipt commit insert_entry insert_lines
    posting_period post_new_entry post_entry_in post_entry_within next_number series_row
    create_series validate_shape key_index ◌+ℤ◌ ◌-ℤ◌
issued_is_ok = refl

received-Step : Step four_places 10 db (tables received db)
unfolding received key_index
received-Step =
    receives delivery actor 9 (codes "k1") 20 (result received) (refl, (refl, tt))
      (record { new_key = refl; held = refl; apart = refl }) refl received_is_ok

received_table : IsStockTable four_places (tables received db)
received_table =
    (Reach-IsReconciled four_places four_places-IsArithmetic 10 (next received-Step here) tt refl).0

second-IsOrderly : IsOrderly 7 (codes "k2") 10 30 (tables received db)
unfolding received create_receipt create_in receipt_context receive_lines receive_line write_receipt
    lock_stock_row save_stock_row apply_receipt commit insert_entry insert_lines posting_period
    post_new_entry post_entry_in post_entry_within next_number series_row create_series
    validate_shape key_index ◌+ℤ◌ ◌-ℤ◌
second-IsOrderly = record { new_key = refl; held = refl; apart = refl }

issued-Step : Step four_places 10 (tables received db) (tables issued (tables received db))
unfolding issued received create_receipt create_in receipt_context receive_lines receive_line
    write_receipt lock_stock_row save_stock_row apply_receipt commit insert_entry insert_lines
    posting_period post_new_entry post_entry_in post_entry_within next_number series_row
    create_series validate_shape key_index ◌+ℤ◌ ◌-ℤ◌
issued-Step =
    issues request actor 9 (codes "k2") 30 (result issued) (refl, (refl, (refl, tt)))
      second-IsOrderly refl issued_is_ok

Reach-IsReconciled_example :
    IsStockTable four_places (tables issued (tables received db))
    × IsReconciled 10 (tables issued (tables received db))
Reach-IsReconciled_example =
    Reach-IsReconciled four_places four_places-IsArithmetic 10
      (next received-Step (next issued-Step here)) tt refl

set_lem_example :
    All (IsFitting accounts) (mapped inventory 10 ∷ mapped grni 20 ∷ [])
    × ((company : ℕ) (key : AccountMappingKey)
        → resolve company key (mapped inventory 10 ∷ mapped grni 20 ∷ []) ≡ (
            if same_slot 7 grni company key
            then some 20
            else resolve company key (mapped inventory 10 ∷ [])))
unfolding set key_index
set_lem_example =
    set_lem 7 grni 20 accounts (mapped inventory 10 ∷ [])
      (mapped inventory 10 ∷ mapped grni 20 ∷ []) ((account 10 asset_account, refl, refl), tt) refl

issue_lines_refine_example :
    Answers
      (issue_spec four_places 5 request.lines (pos 0) (levels_of (tables received db)))
      (issue_lines four_places 7 5 request.lines (pos 0) (tables received db))
issue_lines_refine_example =
    issue_lines_refine four_places four_places-IsArithmetic 7 5 request.lines (pos 0)
      (tables received db) received_table (refl, (refl, (refl, tt)))

issued_table : IsStockTable four_places (tables issued (tables received db))
issued_table =
    (Reach-IsReconciled four_places four_places-IsArithmetic 10
      (next received-Step (next issued-Step here)) tt refl).0

abbrev first_of : List JournalEntry → JournalEntry → JournalEntry
first_of [] e = e
first_of (x ∷ xs) e = x

abbrev no_entry : JournalEntry
no_entry = record {
  id = 0;
  company_id = 0;
  fiscal_period_id = 0;
  number = [];
  entry_date = 0;
  posting_date = 0;
  currency = [];
  exchange_rate = none;
  source_module = [];
  source_document_type = [];
  source_document_id = 0;
  actor_id = 0;
  correlation_id = 0;
  idempotency_key = [];
  reversal_of_entry_id = none;
}

-- The newest entry: that of the issue.
abbrev issued_entry : JournalEntry
issued_entry = first_of (tables issued (tables received db)).ledger.journal_entries no_entry

create_never_twice_example :
    (x : Error) × (create_issue four_places request actor 9
        (codes "k2")
        (tables issued (tables received db))
      ≡ err x)
unfolding issued received create_receipt create_in receipt_context receive_lines receive_line
    write_receipt create_issue issue_context issue_lines issue_line write_issue apply_issue
    average_unit_cost lock_stock_row save_stock_row apply_receipt commit insert_entry insert_lines
    posting_period post_new_entry post_entry_in post_entry_within next_number series_row
    create_series validate_shape key_index pad_start show ◌+ℤ◌ ◌-ℤ◌
create_never_twice_example =
    create_never_twice four_places request actor 9 (codes "k2") four_places-IsArithmetic
      issued_entry (tables issued (tables received db)) issued_table (refl, (refl, (refl, tt))) refl
      refl
