-- ===== src/Inventory/StockRow/Moves.antt =====
-- A stock row that is locked, changed and saved, and a sequence of such moves.
use markaz.Prelude.{ℕ, suc, ◌≡◌, refl, ◌∙◌, ap, List}
use markaz.Prelude.Int.{ℤ, pos, ◌+ℤ◌, ◌-ℤ◌, int_laws}
use markaz.Decimals.{Arithmetic, IsArithmetic}
use markaz.Store.{ok}
use markaz.Inventory.WeightedAverage.{StockState}
use markaz.Inventory.Stock.{ItemWarehouseStock, StockDb}
use markaz.Inventory.StockRow.{LockedStockRow, is_at, lock_stock_row, save_row, save_stock_row}
use markaz.Inventory.StockRow.Laws.{
  stock_value, IsStored, IsTable, find-IsStored, save_row_lem, lock_stock_row_inv,
  save_stock_row_inv,
}

-- The tables with other stock rows and another next id.
abbrev pub moved_db : StockDb → List ItemWarehouseStock → ℕ → StockDb
moved_db db rows n = record db {
  ledger = record db.ledger { next_id = n };
  item_warehouse_stock = rows;
}

abbrev pub IsStockTable : Arithmetic → StockDb → Type 0
IsStockTable m db = IsTable m db.ledger.next_id db.item_warehouse_stock

module _ (m : Arithmetic) where
  -- Only stock rows and ids have changed, and the value of the stock by `delta`.
  pub record IsMoved (db db' : StockDb) (delta : ℤ) (rows : List ItemWarehouseStock) (n : ℕ)
      : Type 0 where
    pub same : db' ≡ moved_db db rows n
    pub table : IsTable m n rows
    pub value : stock_value rows ≡ stock_value db.item_warehouse_stock +ℤ delta

  abbrev pub Moves : StockDb → StockDb → ℤ → Type 0
  Moves db db' delta = (rows : List ItemWarehouseStock) × (n : ℕ) × IsMoved db db' delta rows n

  pub Moves-IsStockTable : (db db' : StockDb) (d : ℤ) → Moves db db' d → IsStockTable m db'
  Moves-IsStockTable db db' d (rows, n, h) = rw h.same h.table

  pub Moves-stay : (db : StockDb) → IsStockTable m db → Moves db db (pos 0)
  Moves-stay db h = (
    db.item_warehouse_stock,
    db.ledger.next_id,
    record { same = refl; table = h; value = omega int_laws },
  )

  pub Moves-then :
      (db db1 db2 : StockDb) (d e : ℤ) → Moves db db1 d → Moves db1 db2 e → Moves db db2 (d +ℤ e)
  Moves-then db db1 db2 d e (rows, n, h) (rows', n', k) = (
    rows',
    n',
    record {
      same = k.same ∙ ap (λ x. moved_db x rows' n') h.same;
      table = k.table;
      value =
          let first : stock_value db1.item_warehouse_stock ≡ stock_value rows =
            ap (λ x. stock_value x.item_warehouse_stock) h.same in
          let second = k.value in let third = h.value in omega int_laws;
    },
  )

  -- The lock and the save of one row.
  pub lock-save :
      IsArithmetic m
      → (company_id item_id warehouse_id : ℕ) (db db1 db2 : StockDb) (r : LockedStockRow)
        (s : StockState) (u : Unit {0})
      → IsStockTable m db
      → lock_stock_row company_id item_id warehouse_id db ≡ ok (r, db1)
      → (IsStored m r.state → IsStored m s)
      → save_stock_row m r.id s db1 ≡ ok (u, db2)
      → IsStored m r.state × Moves db db2 (s.value -ℤ r.state.value)
  lock-save laws company_id item_id warehouse_id db db1 db2 r s u h locked stored saved =
      let (row, rows, lock) =
        lock_stock_row_inv m laws company_id item_id warehouse_id db db1 r h locked in
      let n = suc db.ledger.next_id in
      let p = is_at item_id warehouse_id in
      let old : IsStored m r.state =
        rw lock.result (find-IsStored m n p row rows lock.table lock.found) in
      let (table, value) = save_row_lem m n p row s rows lock.table lock.found (stored old) in
      let (written, _) = save_stock_row_inv m r.id s db1 db2 u saved in
      let id_same : r.id ≡ row.id = ap (λ x. x.id) lock.result in
      let value_same : r.state.value ≡ row.value = ap (λ x. x.state.value) lock.result in
      (
        old,
        (
          save_row m row.id s rows,
          n,
          record {
            same =
                written
                ∙ ap
                    (λ (x : StockDb). record x {
                      item_warehouse_stock = save_row m r.id s x.item_warehouse_stock;
                    })
                    lock.same
                ∙ ap (λ k. moved_db db (save_row m k s rows) n) id_same;
            table = table;
            value = let kept = lock.value in omega int_laws;
          },
        ),
      )
