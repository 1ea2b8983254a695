-- ===== src/Inventory/StockRow.antt =====
-- packages/core/src/inventory/stock-row.repo.ts: the row of an item in a warehouse, made where it is
-- missing, read, and written back.
pub mod Laws
pub mod Moves
pub mod Levels
use markaz.Prelude.{
  ℕ, suc, Bool, true, false, ◌&&◌, Option, none, some, List, [], ◌∷◌, ◌==◌, if◌then◌else◌,
}
use markaz.Prelude.Int.{pos, leb_ℤ}
use markaz.Decimals.{Arithmetic}
use markaz.Store.{
  ActionOn, ◌>>=◌, ◌>>◌, pure, gets, modify, require, or_throw, new_id, find, constraint_violation,
  record_not_found,
}
use markaz.Inventory.WeightedAverage.{StockState}
use markaz.Inventory.Stock.{ItemWarehouseStock, StockDb, on_ledger, is_there}

pub record LockedStockRow : Type 0 where
  pub id : ℕ
  pub state : StockState

-- The unique key of the table.
abbrev pub is_at : ℕ → ℕ → ItemWarehouseStock → Bool
is_at item_id warehouse_id row = (row.item_id == item_id) && (row.warehouse_id == warehouse_id)

abbrev pub empty_row : ℕ → ℕ → ℕ → ℕ → ItemWarehouseStock
empty_row id company_id item_id warehouse_id = record {
  id = id;
  company_id = company_id;
  item_id = item_id;
  warehouse_id = warehouse_id;
  quantity = pos 0;
  value = pos 0;
  version = 1;
}

-- INSERT … ON CONFLICT DO NOTHING.
abbrev pub insert_if_absent : ItemWarehouseStock → List ItemWarehouseStock → List ItemWarehouseStock
insert_if_absent row rows =
    if is_there (find (is_at row.item_id row.warehouse_id) rows) then rows else row ∷ rows

abbrev pub state_of : ItemWarehouseStock → StockState
state_of row = record { quantity = row.quantity; value = row.value }

unfoldable pub lock_stock_row : ℕ → ℕ → ℕ → ActionOn StockDb LockedStockRow
lock_stock_row company_id item_id warehouse_id = do
  id ← on_ledger new_id
  modify λ db. record db {
    item_warehouse_stock =
        insert_if_absent (empty_row id company_id item_id warehouse_id) db.item_warehouse_stock;
  }
  row ← gets λ db. find (is_at item_id warehouse_id) db.item_warehouse_stock
  found ← or_throw row record_not_found
  pure (record { id = found.id; state = state_of found })

module _ (m : Arithmetic) where
  open m use {column4}

  abbrev pub saved_row : StockState → ItemWarehouseStock → ItemWarehouseStock
  saved_row state row = record row {
    quantity = column4 state.quantity;
    value = column4 state.value;
    version = suc row.version;
  }

  abbrev pub save_row : ℕ → StockState → List ItemWarehouseStock → List ItemWarehouseStock
  save_row id state [] = []
  save_row id state (row ∷ rows) =
      if row.id == id then saved_row state row ∷ rows else row ∷ save_row id state rows

  -- The update, with item_warehouse_stock_quantity_check and item_warehouse_stock_value_check.
  unfoldable pub save_stock_row : ℕ → StockState → ActionOn StockDb (Unit {0})
  save_stock_row id state = do
    row ← gets λ db. find (λ r. r.id == id) db.item_warehouse_stock
    require (is_there row) record_not_found
    require (leb_ℤ (pos 0) (column4 state.quantity) && leb_ℤ (pos 0) (column4 state.value))
        constraint_violation
    modify λ db. record db { item_warehouse_stock = save_row id state db.item_warehouse_stock }
