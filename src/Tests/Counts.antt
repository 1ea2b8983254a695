-- ===== src/Tests/Counts.antt =====
-- A stock count: recorded, then posted after goods came in.
use markaz.Prelude.{ℕ, ◌≡◌, refl, true, none, List, [], ◌∷◌}
use markaz.Prelude.Int.{pos, negsuc, ◌+ℤ◌, ◌-ℤ◌}
use markaz.Prelude.Text.{codes}
use markaz.Store.{
  Account, period_open, AccountType, asset_account, revenue_account, expense_account, Result, ok,
  err,
}
use markaz.Accounting.Numbering.{next as next_number, series_row, create_series}
use markaz.Accounting.Engine.Command.{validate_shape}
use markaz.Accounting.Engine.Constraints.{commit, insert_entry, insert_lines}
use markaz.Accounting.Engine.Post.{posting_period, post_new_entry, post_entry_in, post_entry_within}
use markaz.Inventory.AccountMapping.{
  AccountMappingKey, AccountMapping, inventory, count_loss, count_gain, key_index,
}
use markaz.Inventory.WeightedAverage.{average_unit_cost, apply_count_adjustment}
use markaz.Inventory.Stock.{StockDb, StockActor, ItemWarehouseStock, StockCount, StockCountLine}
use markaz.Inventory.StockRow.{lock_stock_row, save_stock_row}
use markaz.Inventory.StockCount.{
  RecordStockCountInput, StockCountRecordResult, on_hand, record_count,
}
use markaz.Inventory.StockCount.Post.{
  StockCountPostResult, Variances, MovedLine, unposted_count, adjust_line, adjust_lines, book_entry,
  book_variances, book_if_varied, entry_lines, count_command, post_count,
}
use markaz.Inventory.StockCount.Entry.{post_count_valid}
use markaz.Tests.FourPlaces.{four_places, four_places-IsArithmetic}

abbrev account : ℕ → AccountType → Account
account id type = record {
  id = id;
  company_id = 7;
  code = codes "1";
  parent_id = none;
  type = type;
  is_postable = true;
  is_active = true;
}

abbrev mapped : AccountMappingKey → ℕ → AccountMapping
mapped key id = record { company_id = 7; key = key; account_id = id }

-- Three of the item on hand, worth 10.00 together.
abbrev row : ItemWarehouseStock
row = record {
  id = 90;
  company_id = 7;
  item_id = 61;
  warehouse_id = 5;
  quantity = pos 30000;
  value = pos 100000;
  version = 1;
}

abbrev db : StockDb
db = record {
  ledger = record {
    fiscal_periods =
        record {
          id = 1;
          company_id = 7;
          fiscal_year_name = codes "2026";
          start_date = 1;
          end_date = 365;
          status = period_open;
        }
        ∷ [];
    accounts =
        account 10 asset_account ∷ account 40 expense_account ∷ account 50 revenue_account ∷ [];
    document_number_series = [];
    journal_entries = [];
    journal_entry_lines = [];
    pending = [];
    next_id = 100;
  };
  companies = record { id = 7; default_currency = codes "SAR" } ∷ [];
  account_mappings = mapped inventory 10 ∷ mapped count_loss 40 ∷ mapped count_gain 50 ∷ [];
  warehouses = record { id = 5; company_id = 7; is_active = true } ∷ [];
  items = record { id = 61; company_id = 7; is_active = true } ∷ [];
  item_warehouse_stock = row ∷ [];
  stock_issues = [];
  stock_issue_lines = [];
  goods_receipts = [];
  goods_receipt_lines = [];
  stock_counts = [];
  stock_count_lines = [];
  stock_movements = [];
  cost_layers = [];
}

abbrev actor : StockActor
actor = record { id = 4; company_id = 7 }

-- Nothing is left of the item.
abbrev input : RecordStockCountInput
input = record {
  warehouse_id = 5;
  document_date = 40;
  lines = record { item_id = 61; counted_quantity = pos 0; unit_cost_if_no_stock = none } ∷ [];
}

abbrev tables : {A : Type 0} → Result (A × StockDb) → StockDb → StockDb
tables (ok (r, db')) other = db'
tables (err e) other = other

abbrev post_result : Result (StockCountPostResult × StockDb) → StockCountPostResult
post_result (ok (r, db')) = r
post_result (err e) = record { id = 0; journal_entry_id = none }

abbrev record_result : Result (StockCountRecordResult × StockDb) → StockCountRecordResult
record_result (ok (r, db')) = r
record_result (err e) = record { id = 0; number = [] }

unfoldable recorded : Result (StockCountRecordResult × StockDb)
recorded = record_count four_places input actor 9 db

abbrev id : ℕ
id = (record_result recorded).id

unfoldable posted : Result (StockCountPostResult × StockDb)
posted = post_count four_places id actor 9 (codes "k1") 41 (tables recorded db)

recorded_is_ok : recorded ≡ ok (record_result recorded, tables recorded db)
unfolding recorded record_count next_number series_row create_series average_unit_cost commit ◌+ℤ◌
    ◌-ℤ◌
recorded_is_ok = refl

-- The count takes 9.9999 of the 10.00: the rest stays as the value of an item of which there is none.
nothing_worth_something :
    on_hand 61 5 (tables posted (tables recorded db)).item_warehouse_stock
    ≡ record { quantity = pos 0; value = pos 1 }
unfolding posted recorded record_count post_count unposted_count adjust_lines adjust_line
    book_if_varied book_variances book_entry lock_stock_row save_stock_row apply_count_adjustment
    average_unit_cost commit insert_entry insert_lines posting_period post_new_entry post_entry_in
    post_entry_within next_number series_row create_series validate_shape key_index ◌+ℤ◌ ◌-ℤ◌
nothing_worth_something = refl

abbrev line : StockCountLine
line = record {
  id = 91;
  stock_count_id = 92;
  item_id = 61;
  system_quantity = pos 30000;
  counted_quantity = pos 0;
  unit_cost = pos 33333;
  journal_entry_id = none;
  line_number = 1;
}

abbrev count : StockCount
count = record {
  id = 92;
  company_id = 7;
  number = codes "1";
  warehouse_id = 5;
  document_date = 40;
  posted_at = none;
  actor_id = 4;
  correlation_id = 9;
}

abbrev lost : Variances
lost = record { shortage = pos 99999; surplus = pos 0 }

abbrev moved : List MovedLine
moved =
    record {
      item_id = 61;
      variance = negsuc 29999;
      unit_cost = pos 33333;
      variance_value = negsuc 99998;
    }
    ∷ []

unfoldable adjusted : Result ((Variances × List MovedLine) × StockDb)
adjusted =
    adjust_lines four_places 7 5 (line ∷ []) (record { shortage = pos 0; surplus = pos 0 }) db

post_count_valid_example :
    validate_shape (
      count_command count actor 9
        (codes "k1")
        1
        (codes "SAR")
        (entry_lines four_places 40 50 10 lost))
    ≡ ok tt
unfolding adjusted adjust_lines adjust_line lock_stock_row save_stock_row apply_count_adjustment
    ◌+ℤ◌ ◌-ℤ◌
post_count_valid_example =
    post_count_valid four_places four_places-IsArithmetic 7 5 (line ∷ []) lost moved db
      (tables adjusted db) 40 50 10 count actor 9 (codes "k1") 1 (codes "SAR") refl refl
