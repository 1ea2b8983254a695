-- ===== src/Inventory/StockRow/Levels.antt =====
-- The table of stock rows as a map from items and warehouses to what is there: a row that is missing
-- and an empty one read the same.
use markaz.Prelude.{
  ℕ, suc, ◌≡◌, refl, ◌∙◌, sym, ap, inl, inr, true, false, none, some, List, [], ◌∷◌, arith, ◌==◌,
  Bool-cases, if◌then◌else◌,
}
use markaz.Decimals.{Arithmetic, IsArithmetic}
use markaz.Store.{ok, find}
use markaz.Inventory.WeightedAverage.{StockState}
use markaz.Inventory.Stock.{ItemWarehouseStock, StockDb}
use markaz.Inventory.StockRow.{
  LockedStockRow, is_at, state_of, lock_stock_row, save_row, save_stock_row,
}
use markaz.Inventory.StockRow.Laws.{
  nothing_there, level_of, same_place, IsStored, IsTable, find_apart, find-IsStored,
  lock_stock_row_inv, save_stock_row_inv,
}
use markaz.Inventory.StockRow.Moves.{IsStockTable}

-- A row of one place is at another place where the two are the same.
is_at_same :
    (item_id warehouse_id i w : ℕ) (r : ItemWarehouseStock)
    → is_at item_id warehouse_id r ≡ true
    → is_at i w r ≡ same_place item_id warehouse_id i w
is_at_same item_id warehouse_id i w r here =
    let item : r.item_id ≡ item_id = ground arith in
    let warehouse : r.warehouse_id ≡ warehouse_id = ground arith in rw (item, warehouse) refl

is_at_other :
    (item_id warehouse_id i w : ℕ) (r : ItemWarehouseStock)
    → is_at item_id warehouse_id r ≡ false
    → is_at i w r ≡ true
    → same_place item_id warehouse_id i w ≡ false
is_at_other item_id warehouse_id i w r elsewhere here =
    elim (Bool-cases (same_place item_id warehouse_id i w)) [
      | inr other ↦ other
      | inl own ↦ ground arith
    ]

level_hit :
    (i w : ℕ) (r : ItemWarehouseStock) (rs : List ItemWarehouseStock)
    → is_at i w r ≡ true
    → level_of i w (r ∷ rs) ≡ state_of r
level_hit i w r rs h = rw (level_of, h) refl

level_miss :
    (i w : ℕ) (r : ItemWarehouseStock) (rs : List ItemWarehouseStock)
    → is_at i w r ≡ false
    → level_of i w (r ∷ rs) ≡ level_of i w rs
level_miss i w r rs h = rw (level_of, h) refl

module _ (m : Arithmetic) where
  level_of-save_row :
      (n item_id warehouse_id i w : ℕ) (row : ItemWarehouseStock) (s : StockState)
      (rows : List ItemWarehouseStock)
      → IsTable m n rows
      → find (is_at item_id warehouse_id) rows ≡ some row
      → IsStored m s
      → level_of i w (save_row m row.id s rows)
        ≡ (if same_place item_id warehouse_id i w then s else level_of i w rows)
  level_of-save_row n item_id warehouse_id i w row s [] h e stored = absurd (ground arith)
  level_of-save_row n item_id warehouse_id i w row s (r ∷ rs) (small, fresh, old, rest) e stored =
      elim (Bool-cases (is_at item_id warehouse_id r)) [
        | inl here ↦
            let same : r ≡ row = ground arith in
            let own : (r.id == r.id) ≡ true = ground arith in
            rw (sym same, own, stored.quantity_scaled, stored.value_scaled)
              (let place = is_at_same item_id warehouse_id i w r here in
                let saved : ItemWarehouseStock = record r {
                  quantity = s.quantity;
                  value = s.value;
                  version = suc r.version;
                } in
                elim (Bool-cases (same_place item_id warehouse_id i w)) [
                  | inl own_place ↦ rw own_place (level_hit i w saved rs (place ∙ own_place))
                  | inr other ↦ rw other (
                      level_miss i w saved rs (place ∙ other)
                      ∙ sym (level_miss i w r rs (place ∙ other)))
                ])
        | inr elsewhere ↦
            let found : find (is_at item_id warehouse_id) rs ≡ some row = ground arith in
            let apart : (row.id == r.id) ≡ false =
              find_apart m r.id (is_at item_id warehouse_id) row rs fresh found in
            let skip : (r.id == row.id) ≡ false = ground arith in
            let more = level_of-save_row n item_id warehouse_id i w row s rs rest found stored in
            let step : save_row m row.id s (r ∷ rs) ≡ r ∷ save_row m row.id s rs = rw skip refl in
            ap (level_of i w) step ∙ (elim (Bool-cases (is_at i w r)) [
              | inr off ↦
                  level_miss i w r (save_row m row.id s rs) off
                  ∙ more
                  ∙ ap (λ x. if same_place item_id warehouse_id i w then s else x)
                      (sym (level_miss i w r rs off))
              | inl at ↦
                  rw (is_at_other item_id warehouse_id i w r elsewhere at)
                    (level_hit i w r (save_row m row.id s rs) at ∙ sym (level_hit i w r rs at))
            ])
      ]

  -- What a lock reads is the level of its place.
  pub lock_level :
      IsArithmetic m
      → (company_id item_id warehouse_id : ℕ) (db db1 : StockDb) (r : LockedStockRow)
      → IsStockTable m db
      → lock_stock_row company_id item_id warehouse_id db ≡ ok (r, db1)
      → (r.state ≡ level_of item_id warehouse_id db.item_warehouse_stock) × IsStored m r.state
  lock_level laws company_id item_id warehouse_id db db1 r h locked =
      let n = suc db.ledger.next_id in
      let (row, rows, lock) =
        lock_stock_row_inv m laws company_id item_id warehouse_id db db1 r h locked in
      let read : r.state ≡ level_of item_id warehouse_id rows =
        ap (λ x. x.state) lock.result
        ∙ ap (λ o. elim o as (λ x. StockState) [ some x ↦ state_of x | none ↦ nothing_there ])
            (sym lock.found) in
      (
        read ∙ lock.levels item_id warehouse_id,
        rw lock.result
            (find-IsStored m n (is_at item_id warehouse_id) row rows lock.table lock.found),
      )

  -- A save changes the level of the place that was locked and of no other.
  pub lock-save_level :
      IsArithmetic m
      → (company_id item_id warehouse_id : ℕ) (db db1 db2 : StockDb) (r : LockedStockRow)
        (s : StockState) (u : Unit {0})
      → IsStockTable m db
      → lock_stock_row company_id item_id warehouse_id db ≡ ok (r, db1)
      → IsStored m s
      → save_stock_row m r.id s db1 ≡ ok (u, db2)
      → (i w : ℕ)
      → level_of i w db2.item_warehouse_stock
        ≡ (if same_place item_id warehouse_id i w then s else level_of i w db.item_warehouse_stock)
  lock-save_level laws company_id item_id warehouse_id db db1 db2 r s u h locked stored saved i w =
      let n = suc db.ledger.next_id in
      let (row, rows, lock) =
        lock_stock_row_inv m laws company_id item_id warehouse_id db db1 r h locked in
      let (written, _) = save_stock_row_inv m r.id s db1 db2 u saved in
      let id_same : r.id ≡ row.id = ap (λ x. x.id) lock.result in
      let table : db2.item_warehouse_stock ≡ save_row m row.id s rows =
        ap (λ x. x.item_warehouse_stock) written
        ∙ ap (λ x. save_row m r.id s x.item_warehouse_stock) lock.same
        ∙ ap (λ k. save_row m k s rows) id_same in
      ap (level_of i w) table
      ∙ level_of-save_row n item_id warehouse_id i w row s rows lock.table lock.found stored
      ∙ ap (λ x. if same_place item_id warehouse_id i w then s else x) (lock.levels i w)
