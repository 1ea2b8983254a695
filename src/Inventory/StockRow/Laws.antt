-- ===== src/Inventory/StockRow/Laws.antt =====
-- What a change of one stock row does to the table of them.
use markaz.Prelude.{
  ℕ, suc, ◌<◌, ◌≤◌, ◌≡◌, refl, ◌∙◌, sym, ap, inl, inr, Bool, true, false, ◌&&◌, none, some, List,
  [], ◌∷◌, arith, All, ◌==◌, Bool-cases, Option-cases,
}
use markaz.Prelude.Int.{pos, leb_ℤ, ◌+ℤ◌, int_laws}
use markaz.Prelude.Sums.{sum_by}
use markaz.Decimals.{Decimal, Arithmetic, IsArithmetic, IsScaled, column4_zero}
use markaz.Store.{ok, find}
use markaz.Inventory.WeightedAverage.{StockState}
use markaz.Inventory.WeightedAverage.Laws.{IsStock}
use markaz.Inventory.Stock.{ItemWarehouseStock, StockDb, is_there}
use markaz.Inventory.StockRow.{
  LockedStockRow, is_at, empty_row, insert_if_absent, state_of, lock_stock_row, save_row,
  save_stock_row,
}

-- The value of all stock.
abbrev pub stock_value : List ItemWarehouseStock → Decimal
stock_value rows = sum_by (λ row. row.value) rows

abbrev pub nothing_there : StockState
nothing_there = record { quantity = pos 0; value = pos 0 }

abbrev pub level_of : ℕ → ℕ → List ItemWarehouseStock → StockState
level_of item_id warehouse_id rows = elim (find (is_at item_id warehouse_id) rows) [
  | some row ↦ state_of row
  | none ↦ nothing_there
]

abbrev pub same_place : ℕ → ℕ → ℕ → ℕ → Bool
same_place item_id warehouse_id i w = (item_id == i) && (warehouse_id == w)

level_of-insert :
    (id company_id item_id warehouse_id i w : ℕ) (rows : List ItemWarehouseStock)
    → level_of i w (insert_if_absent (empty_row id company_id item_id warehouse_id) rows)
      ≡ level_of i w rows
level_of-insert id company_id item_id warehouse_id i w rows =
    elim (Option-cases (find (is_at item_id warehouse_id) rows)) [
      | inr (row, there) ↦ rw there refl
      | inl absent ↦ elim (Bool-cases (same_place item_id warehouse_id i w)) [
        | inr other ↦ ground arith
        | inl own ↦
            let item : item_id ≡ i = ground arith in
            let warehouse : warehouse_id ≡ w = ground arith in
            rw (sym item, sym warehouse) (ground arith)
      ]
    ]

insert_new :
    (row : ItemWarehouseStock) (rows : List ItemWarehouseStock)
    → find (is_at row.item_id row.warehouse_id) rows ≡ none
    → insert_if_absent row rows ≡ row ∷ rows
insert_new row rows absent = rw absent refl

module _ (m : Arithmetic) where
  -- A state that the columns store as it is.
  pub record IsStored (s : StockState) : Type 0 where
    pub in_order : IsStock s
    pub quantity_scaled : IsScaled m s.quantity
    pub value_scaled : IsScaled m s.value

  -- Every row is in order, and no two have one id; all ids were handed out before `n`.
  abbrev pub IsTable : ℕ → List ItemWarehouseStock → Type 0
  IsTable n [] = Unit
  IsTable n (row ∷ rows) =
      (row.id < n)
      × All (λ other. (other.id == row.id) ≡ false) rows
      × IsStored (state_of row)
      × IsTable n rows

  pub IsTable-mono :
      (n k : ℕ) (rows : List ItemWarehouseStock) → n ≤ k → IsTable n rows → IsTable k rows
  IsTable-mono n k [] le h = tt
  IsTable-mono n k (row ∷ rows) le (small, fresh, stored, rest) =
      (omega arith, fresh, stored, IsTable-mono n k rows le rest)

  fresh_above :
      (n : ℕ) (rows : List ItemWarehouseStock)
      → IsTable n rows
      → All (λ other. (other.id == n) ≡ false) rows
  fresh_above n [] h = tt
  fresh_above n (row ∷ rows) (small, fresh, stored, rest) = (ground arith, fresh_above n rows rest)

  pub find_apart :
      (k : ℕ) (p : ItemWarehouseStock → Bool) (row : ItemWarehouseStock)
      (rows : List ItemWarehouseStock)
      → All (λ other. (other.id == k) ≡ false) rows
      → find p rows ≡ some row
      → (row.id == k) ≡ false
  find_apart k p row [] h e = absurd (ground arith)
  find_apart k p row (r ∷ rs) (apart, h) e = elim (Bool-cases (p r)) [
    | inl here ↦ let same : r ≡ row = ground arith in rw (sym same) apart
    | inr elsewhere ↦ find_apart k p row rs h (ground arith)
  ]

  pub find-IsStored :
      (n : ℕ) (p : ItemWarehouseStock → Bool) (row : ItemWarehouseStock)
      (rows : List ItemWarehouseStock)
      → IsTable n rows
      → find p rows ≡ some row
      → IsStored (state_of row)
  find-IsStored n p row [] h e = absurd (ground arith)
  find-IsStored n p row (r ∷ rs) (small, fresh, stored, rest) e = elim (Bool-cases (p r)) [
    | inl here ↦ let same : r ≡ row = ground arith in rw (sym same) stored
    | inr elsewhere ↦ find-IsStored n p row rs rest (ground arith)
  ]

  save_row_fresh :
      (k id : ℕ) (s : StockState) (rows : List ItemWarehouseStock)
      → All (λ other. (other.id == k) ≡ false) rows
      → All (λ other. (other.id == k) ≡ false) (save_row m id s rows)
  save_row_fresh k id s [] h = tt
  save_row_fresh k id s (row ∷ rows) h = elim (Bool-cases (row.id == id)) [
    | inl here ↦ rw here h
    | inr elsewhere ↦ rw elsewhere (h.0, save_row_fresh k id s rows h.1)
  ]

  -- Writing a row back changes the value of the stock by what that row's changes.
  pub save_row_lem :
      (n : ℕ) (p : ItemWarehouseStock → Bool) (row : ItemWarehouseStock) (s : StockState)
      (rows : List ItemWarehouseStock)
      → IsTable n rows
      → find p rows ≡ some row
      → IsStored s
      → IsTable n (save_row m row.id s rows)
        × (stock_value (save_row m row.id s rows) +ℤ row.value ≡ stock_value rows +ℤ s.value)
  save_row_lem n p row s [] h e stored = absurd (ground arith)
  save_row_lem n p row s (r ∷ rs) (small, fresh, old, rest) e stored = elim (Bool-cases (p r)) [
    | inl here ↦
        let same : r ≡ row = ground arith in
        let own : (r.id == r.id) ≡ true = ground arith in
        rw (sym same, own, stored.quantity_scaled, stored.value_scaled)
          ((small, fresh, stored, rest), omega int_laws)
    | inr elsewhere ↦
        let found : find p rs ≡ some row = ground arith in
        let apart : (row.id == r.id) ≡ false = find_apart r.id p row rs fresh found in
        let skip : (r.id == row.id) ≡ false = ground arith in
        let (table, value) = save_row_lem n p row s rs rest found stored in
        rw skip ((small, save_row_fresh r.id row.id s rs fresh, old, table), omega int_laws)
  ]

  empty-IsStored : IsArithmetic m → IsStored (record { quantity = pos 0; value = pos 0 })
  empty-IsStored laws = record {
    in_order = record {
      quantity_nonneg = omega arith;
      value_nonneg = omega arith;
      empty_value = λ h. refl;
    };
    quantity_scaled = column4_zero m laws;
    value_scaled = column4_zero m laws;
  }

  -- The tables after the lock: at most a row is added, with nothing in it.
  pub record IsLocked (item_id warehouse_id : ℕ) (db db' : StockDb) (r : LockedStockRow)
      (row : ItemWarehouseStock) (rows : List ItemWarehouseStock) : Type 0 where
    pub same : db' ≡ record db {
      ledger = record db.ledger { next_id = suc db.ledger.next_id };
      item_warehouse_stock = rows;
    }
    pub table : IsTable (suc db.ledger.next_id) rows
    pub value : stock_value rows ≡ stock_value db.item_warehouse_stock
    pub found : find (is_at item_id warehouse_id) rows ≡ some row
    pub result : r ≡ record { id = row.id; state = state_of row }
    pub levels : (i w : ℕ) → level_of i w rows ≡ level_of i w db.item_warehouse_stock

  pub lock_stock_row_inv :
      IsArithmetic m
      → (company_id item_id warehouse_id : ℕ) (db db' : StockDb) (r : LockedStockRow)
      → IsTable db.ledger.next_id db.item_warehouse_stock
      → lock_stock_row company_id item_id warehouse_id db ≡ ok (r, db')
      → (row : ItemWarehouseStock) × (rows : List ItemWarehouseStock) × IsLocked item_id
          warehouse_id db db' r row rows
  unfolding lock_stock_row
  lock_stock_row_inv laws company_id item_id warehouse_id db db' r h e =
      let n = db.ledger.next_id in
      elim (Option-cases (find (is_at item_id warehouse_id) db.item_warehouse_stock)) [
        | inr (row, there) ↦ (
          row,
          db.item_warehouse_stock,
          record {
            same = ground arith;
            table = IsTable-mono n (suc n) db.item_warehouse_stock (omega arith) h;
            value = refl;
            found = there;
            result = ground arith;
            levels = λ i w. refl;
          },
        )
        | inl absent ↦
            let row = empty_row n company_id item_id warehouse_id in
            (
              row,
              row ∷ db.item_warehouse_stock,
              record {
                same = ground arith;
                table = (
                  omega arith,
                  fresh_above n db.item_warehouse_stock h,
                  empty-IsStored laws,
                  IsTable-mono n (suc n) db.item_warehouse_stock (omega arith) h,
                );
                value = omega int_laws;
                found = ground arith;
                result = ground arith;
                levels = λ i w.
                    ap (level_of i w) (sym (insert_new row db.item_warehouse_stock absent))
                    ∙ level_of-insert n company_id item_id warehouse_id i w db.item_warehouse_stock;
              },
            )
      ]

  pub save_stock_row_inv :
      (id : ℕ) (s : StockState) (db db' : StockDb) (u : Unit {0})
      → save_stock_row m id s db ≡ ok (u, db')
      → (db' ≡ record db { item_warehouse_stock = save_row m id s db.item_warehouse_stock })
        × (leb_ℤ (pos 0) (m.column4 s.quantity) && leb_ℤ (pos 0) (m.column4 s.value) ≡ true)
  unfolding save_stock_row
  save_stock_row_inv id s db db' u e =
      elim (Bool-cases (is_there (find (λ r. r.id == id) db.item_warehouse_stock))) [
        | inr absent ↦ absurd (ground arith)
        | inl there ↦
            elim (Bool-cases
              (leb_ℤ (pos 0) (m.column4 s.quantity) && leb_ℤ (pos 0) (m.column4 s.value))) [
                | inr negative ↦ absurd (ground arith)
                | inl checked ↦ (ground arith, checked)
              ]
      ]
