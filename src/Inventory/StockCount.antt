-- ===== src/Inventory/StockCount.antt =====
-- `record` of packages/core/src/inventory/stock-count.service.ts: what is counted in a warehouse. (The
-- audit records are left out.)
pub mod Post
pub mod Laws
pub mod Entry
pub mod Keeps
pub mod Signs
use markaz.Prelude.{
  ℕ, suc, ◌+◌, Bool, true, false, not, ◌&&◌, ◌||◌, Option, none, some, List, [], ◌∷◌, ◌++◌, map,
  ◌==◌, if◌then◌else◌, length,
}
use markaz.Prelude.Int.{pos, ◌+ℤ◌, ◌-ℤ◌, leb_ℤ, eq_ℤ}
use markaz.Prelude.Text.{Text, codes, text_eq}
use markaz.Decimals.{Decimal, Arithmetic, greater_than, less_than, negated, max_ℤ}
use markaz.Store.{
  FiscalPeriod, record_not_found, unmapped_account, constraint_violation, range_error, stock_error,
  stock_warehouse_not_found, stock_item_not_found, stock_no_open_period, empty_stock_document,
  unit_cost_required, count_not_found, count_already_posted, Result, ok, err, ActionOn, ◌>>=◌, ◌>>◌,
  pure, throw, gets, modify, require, or_throw, new_id, find,
}
use markaz.Accounting.FiscalYear.{company_currency}
use markaz.Accounting.Numbering.{next}
use markaz.Accounting.Engine.Command.{
  JournalLineInput, PostingCommand, PostingResult, debit_input, credit_input,
}
use markaz.Accounting.Engine.Constraints.{commit}
use markaz.Accounting.Engine.Post.{find_open_fiscal_period, post_entry_within}
use markaz.Inventory.AccountMapping.{inventory, count_loss, count_gain, resolve}
use markaz.Inventory.WeightedAverage.{
  StockState, Outcome, done, failed, CountAdjustmentResult, average_unit_cost,
  apply_count_adjustment,
}
use markaz.Inventory.Stock.{
  count_adjustment_movement, ItemWarehouseStock, StockCount, StockCountLine, StockMovement, StockDb,
  StockActor, on_ledger, take_ids, is_there, has_warehouse, has_items, movement_check, passes,
}
use markaz.Inventory.StockRow.{is_at, state_of, lock_stock_row, save_stock_row}
use markaz.Inventory.StockIssue.{is_empty}

pub record StockCountLineInput : Type 0 where
  pub item_id : ℕ
  pub counted_quantity : Decimal
  pub unit_cost_if_no_stock : Option Decimal

pub record RecordStockCountInput : Type 0 where
  pub warehouse_id : ℕ
  pub document_date : ℕ
  pub lines : List StockCountLineInput

pub record StockCountRecordResult : Type 0 where
  pub id : ℕ
  pub number : Text

-- What `record` notes of a line.
pub record CountedLine : Type 0 where
  pub item_id : ℕ
  pub system_quantity : Decimal
  pub counted_quantity : Decimal
  pub unit_cost : Decimal

abbrev pub on_hand : ℕ → ℕ → List ItemWarehouseStock → StockState
on_hand item_id warehouse_id rows = elim (find (is_at item_id warehouse_id) rows) [
  | some row ↦ state_of row
  | none ↦ record { quantity = pos 0; value = pos 0 }
]

abbrev pub count_check : StockCountLine → Bool
count_check l =
    leb_ℤ (pos 0) l.system_quantity
    && (leb_ℤ (pos 0) l.counted_quantity && leb_ℤ (pos 0) l.unit_cost)

-- The average cost, or the cost that the caller gives where nothing is on hand.
abbrev pub cost_of : Arithmetic → StockState → Option Decimal → Option Decimal
cost_of m state given =
    if greater_than state.quantity (pos 0) then some (average_unit_cost m state) else given

module _ (m : Arithmetic) where
  open m use {round4, column4}

  -- The loop over the lines of `record`.
  abbrev pub read_lines :
      ℕ → List ItemWarehouseStock → List StockCountLineInput → Result (List CountedLine)
  read_lines warehouse_id rows [] = ok []
  read_lines warehouse_id rows (line ∷ lines) =
      let state = on_hand line.item_id warehouse_id rows in
      let rest = read_lines warehouse_id rows lines in
      elim (cost_of m state line.unit_cost_if_no_stock) [
        | none ↦ err (stock_error unit_cost_required)
        | some unit_cost ↦ elim rest [
          | ok records ↦ ok (
              record {
                item_id = line.item_id;
                system_quantity = state.quantity;
                counted_quantity = line.counted_quantity;
                unit_cost = unit_cost;
              }
              ∷ records)
          | err e ↦ err e
        ]
      ]

  -- `lines.create`, with ids from `id` on.
  abbrev pub count_rows : ℕ → ℕ → ℕ → List CountedLine → List StockCountLine
  count_rows count_id id line_number [] = []
  count_rows count_id id line_number (l ∷ ls) =
      record {
        id = id;
        stock_count_id = count_id;
        item_id = l.item_id;
        system_quantity = column4 l.system_quantity;
        counted_quantity = column4 l.counted_quantity;
        unit_cost = column4 l.unit_cost;
        journal_entry_id = none;
        line_number = line_number;
      }
      ∷ count_rows count_id (suc id) (suc line_number) ls

  abbrev pub result_or_throw : {A : Type 0} → Result A → ActionOn StockDb A
  result_or_throw (ok a) = pure a
  result_or_throw (err e) = throw e

  unfoldable pub record_count :
      RecordStockCountInput → StockActor → ℕ → ActionOn StockDb StockCountRecordResult
  record_count input actor correlation_id = do
    require (not (is_empty input.lines)) (stock_error empty_stock_document)
    db ← gets λ db. db
    require (has_warehouse actor.company_id input.warehouse_id db)
        (stock_error stock_warehouse_not_found)
    require (has_items actor.company_id (map (λ l. l.item_id) input.lines) db)
        (stock_error stock_item_not_found)
    period ←
        or_throw (find_open_fiscal_period actor.company_id input.document_date db.ledger)
          (stock_error stock_no_open_period)
    records ← result_or_throw (read_lines input.warehouse_id db.item_warehouse_stock input.lines)
    number ← on_ledger (next (codes "stock_count") actor.company_id period.fiscal_year_name)
    id ← on_ledger new_id
    first ← take_ids (length records)
    let rows = count_rows id first 1 records
    require
        (not (
          is_there (
            find (λ c. (c.company_id == actor.company_id) && text_eq c.number number)
              db.stock_counts)))
        constraint_violation
    require (passes count_check rows) constraint_violation
    modify λ db. record db {
      stock_counts =
          record {
            id = id;
            company_id = actor.company_id;
            number = number;
            warehouse_id = input.warehouse_id;
            document_date = input.document_date;
            posted_at = none;
            actor_id = actor.id;
            correlation_id = correlation_id;
          }
          ∷ db.stock_counts;
      stock_count_lines = rows ++ db.stock_count_lines;
    }
    on_ledger commit
    pure (record { id = id; number = number })
