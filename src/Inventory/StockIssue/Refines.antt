-- ===== src/Inventory/StockIssue/Refines.antt =====
-- What a stock issue promises, said on a map from items and warehouses to levels, and that the code
-- on its table of rows keeps the promise.
use markaz.Prelude.{
  ℕ, ◌≡◌, refl, ◌∙◌, sym, ap, ap₂, subst, ◌≢◌, inl, inr, Bool, true, none, some, List, [], ◌∷◌,
  arith, All, ◌==◌, Bool-cases, Option-cases, if◌then◌else◌,
}
use mathlib.Core.Path.{fun_ext}
use markaz.Prelude.Int.{pos, ◌+ℤ◌, leb_ℤ, ◌≤ℤ◌}
use markaz.Decimals.{Decimal, Arithmetic, IsArithmetic, IsScaled, negated}
use markaz.Store.{Error, Result, Result-cases, ok, err, find}
use markaz.Inventory.WeightedAverage.{
  StockState, StockError, IssueResult, Outcome, done, failed, apply_issue,
}
use markaz.Inventory.WeightedAverage.Laws.{Outcome-cases}
use markaz.Inventory.Stock.{ItemWarehouseStock, StockDb, LineRecord, is_there}
use markaz.Inventory.StockRow.{LockedStockRow, is_at, lock_stock_row, save_stock_row}
use markaz.Inventory.StockRow.Laws.{level_of, same_place, IsStored, lock_stock_row_inv}
use markaz.Inventory.StockRow.Moves.{IsStockTable, Moves-IsStockTable}
use markaz.Inventory.StockRow.Levels.{lock_level, lock-save_level}
use markaz.Inventory.StockIssue.{StockIssueLineInput, issue_error, issue_line, issue_lines}
use markaz.Inventory.StockIssue.Laws.{apply_issue-IsStored, issue_line-Moves}

abbrev pub Levels : Type 0
Levels = ℕ → ℕ → StockState

abbrev pub put : ℕ → ℕ → StockState → Levels → Levels
put item_id warehouse_id s levels i w =
    if same_place item_id warehouse_id i w then s else levels i w

abbrev pub levels_of : StockDb → Levels
levels_of db i w = level_of i w db.item_warehouse_stock

module _ (m : Arithmetic) (warehouse_id : ℕ) where
  -- Line by line, each from what the lines before it leave; the first that cannot be issued ends it.
  unfoldable pub issue_spec :
      List StockIssueLineInput → Decimal → Levels → Outcome (Decimal × Levels)
  issue_spec [] total levels = done (total, levels)
  issue_spec (line ∷ lines) total levels =
      elim (apply_issue m (levels line.item_id warehouse_id) line.quantity) [
        | done x ↦
            issue_spec lines (total +ℤ x.value) (put line.item_id warehouse_id x.state levels)
        | failed e ↦ failed e
      ]

-- How a result of the code answers one of the specification.
abbrev pub Answers :
    Outcome (Decimal × Levels) → Result ((Decimal × List LineRecord) × StockDb) → Type 0
Answers (done (sum, levels)) r =
    (records : List LineRecord) × (db : StockDb) × (r ≡ ok ((sum, records), db))
    × (levels_of db ≡ levels)
Answers (failed e) r = r ≡ err (issue_error e)

leb_ℤ_intro : (a : Decimal) → pos 0 ≤ℤ a → leb_ℤ (pos 0) a ≡ true
leb_ℤ_intro a h = ground arith

module _ (m : Arithmetic) (laws : IsArithmetic m) (company_id warehouse_id : ℕ) where
  lock_never_fails :
      (item_id : ℕ) (db : StockDb) (e : Error)
      → lock_stock_row company_id item_id warehouse_id db ≢ err e
  unfolding lock_stock_row
  lock_never_fails item_id db e h =
      elim (Option-cases (find (is_at item_id warehouse_id) db.item_warehouse_stock)) [
        | inl absent ↦ ground arith
        | inr (row, there) ↦ ground arith
      ]

  found_by_id :
      (p : ItemWarehouseStock → Bool) (row : ItemWarehouseStock) (rows : List ItemWarehouseStock)
      → find p rows ≡ some row
      → is_there (find (λ r. r.id == row.id) rows) ≡ true
  found_by_id p row [] h = absurd (ground arith)
  found_by_id p row (r ∷ rs) h = elim (Bool-cases (r.id == row.id)) [
    | inl own ↦ rw own refl
    | inr other ↦ elim (Bool-cases (p r)) [
      | inl here ↦ let same : r ≡ row = ground arith in absurd (ground arith)
      | inr elsewhere ↦ rw other (found_by_id p row rs (ground arith))
    ]
  ]

  save_never_fails :
      (item_id : ℕ) (db db1 : StockDb) (r : LockedStockRow) (s : StockState) (e : Error)
      → IsStockTable m db
      → lock_stock_row company_id item_id warehouse_id db ≡ ok (r, db1)
      → IsStored m s
      → save_stock_row m r.id s db1 ≢ err e
  unfolding save_stock_row
  save_never_fails item_id db db1 r s e h locked stored saved =
      let (row, rows, lock) =
        lock_stock_row_inv m laws company_id item_id warehouse_id db db1 r h locked in
      let there : is_there (find (λ x. x.id == r.id) db1.item_warehouse_stock) ≡ true =
        rw (lock.result, lock.same)
          (found_by_id (is_at item_id warehouse_id) row rows lock.found) in
      let q : leb_ℤ (pos 0) (m.column4 s.quantity) ≡ true =
        rw stored.quantity_scaled (leb_ℤ_intro s.quantity stored.in_order.quantity_nonneg) in
      let v : leb_ℤ (pos 0) (m.column4 s.value) ≡ true =
        rw stored.value_scaled (leb_ℤ_intro s.value stored.in_order.value_nonneg) in
      ground arith

  -- One line, where it can be issued: the level of its place becomes what `apply_issue` says.
  issue_line_done :
      (line : StockIssueLineInput) (db : StockDb) (x : IssueResult)
      → IsStockTable m db
      → IsScaled m line.quantity
      → apply_issue m (levels_of db line.item_id warehouse_id) line.quantity ≡ done x
      → (l : LineRecord) × (db' : StockDb) × (issue_line m company_id warehouse_id line db
          ≡ ok (l, db'))
        × (l.value ≡ x.value)
        × (levels_of db' ≡ put line.item_id warehouse_id x.state (levels_of db))
  unfolding issue_line
  issue_line_done line db x h whole can =
      elim (Result-cases (lock_stock_row company_id line.item_id warehouse_id db)) [
        | inr (e, bad) ↦ absurd (lock_never_fails line.item_id db e bad)
        | inl ((r, db1), locked) ↦
            let (level, old) =
              lock_level m laws company_id line.item_id warehouse_id db db1 r h locked in
            let taken : apply_issue m r.state line.quantity ≡ done x = rw level can in
            let (stored, _, _) =
              apply_issue-IsStored m laws r.state line.quantity x whole taken old in
            elim (Result-cases (save_stock_row m r.id x.state db1)) [
              | inr (e, bad) ↦
                  absurd (save_never_fails line.item_id db db1 r x.state e h locked stored bad)
              | inl ((u, db2), saved) ↦ (
                record {
                  item_id = line.item_id;
                  quantity = line.quantity;
                  unit_cost = x.unit_cost;
                  value = x.value;
                  purchase_order_line_id = none;
                },
                db2,
                ground arith,
                refl,
                fun_ext λ i. fun_ext λ w.
                    lock-save_level m laws company_id line.item_id warehouse_id db db1 db2 r x.state
                      u h locked stored saved i w,
              )
            ]
      ]

  issue_line_failed :
      (line : StockIssueLineInput) (db : StockDb) (e : StockError)
      → IsStockTable m db
      → apply_issue m (levels_of db line.item_id warehouse_id) line.quantity ≡ failed e
      → issue_line m company_id warehouse_id line db ≡ err (issue_error e)
  unfolding issue_line
  issue_line_failed line db e h cannot =
      elim (Result-cases (lock_stock_row company_id line.item_id warehouse_id db)) [
        | inr (x, bad) ↦ absurd (lock_never_fails line.item_id db x bad)
        | inl ((r, db1), locked) ↦
            let (level, old) =
              lock_level m laws company_id line.item_id warehouse_id db db1 r h locked in
            let refused : apply_issue m r.state line.quantity ≡ failed e = rw level cannot in
            ground arith
      ]

  lines_answer :
      (line : StockIssueLineInput) (lines : List StockIssueLineInput) (total : Decimal)
      (db db1 : StockDb) (l : LineRecord) (o : Outcome (Decimal × Levels))
      → issue_line m company_id warehouse_id line db ≡ ok (l, db1)
      → Answers o (issue_lines m company_id warehouse_id lines (total +ℤ l.value) db1)
      → Answers o (issue_lines m company_id warehouse_id (line ∷ lines) total db)
  unfolding issue_lines
  lines_answer line lines total db db1 l (done (sum, levels)) first (records, db2, done_rest, map) =
      (l ∷ records, db2, ground arith, map)
  lines_answer line lines total db db1 l (failed e) first rest = ground arith

  lines_failed :
      (line : StockIssueLineInput) (lines : List StockIssueLineInput) (total : Decimal)
      (db : StockDb) (e : Error)
      → issue_line m company_id warehouse_id line db ≡ err e
      → issue_lines m company_id warehouse_id (line ∷ lines) total db ≡ err e
  unfolding issue_lines
  lines_failed line lines total db e bad = ground arith

  -- The loop over the lines of an issue does what the specification says: where every line can be issued
  -- in turn, it succeeds with the same total and leaves the same levels everywhere, and where one cannot,
  -- it throws that line's error. This holds for tables in order and quantities of the column's scale.
  pub issue_lines_refine :
      (lines : List StockIssueLineInput) (total : Decimal) (db : StockDb)
      → IsStockTable m db
      → All (λ line. IsScaled m line.quantity) lines
      → Answers
          (issue_spec m warehouse_id lines total (levels_of db))
          (issue_lines m company_id warehouse_id lines total db)
  unfolding issue_lines issue_spec
  issue_lines_refine [] total db h whole = ([], db, refl, refl)
  issue_lines_refine (line ∷ lines) total db h whole =
      elim (Outcome-cases (apply_issue m (levels_of db line.item_id warehouse_id) line.quantity)) [
        | inr (e, cannot) ↦
            let bad = issue_line_failed line db e h cannot in
            let spec : issue_spec m warehouse_id (line ∷ lines) total (levels_of db) ≡ failed e =
              rw (issue_spec, cannot) refl in
            subst (λ o. Answers o (issue_lines m company_id warehouse_id (line ∷ lines) total db))
              (sym spec) (lines_failed line lines total db (issue_error e) bad)
        | inl (x, can) ↦
            let (l, db1, first, value, levels) = issue_line_done line db x h whole.0 can in
            let (moved, _) =
              issue_line-Moves m laws company_id warehouse_id line db db1 l h whole.0 first in
            let table = Moves-IsStockTable m db db1 (negated l.value) moved in
            let rest = issue_lines_refine lines (total +ℤ l.value) db1 table whole.1 in
            let answer =
              lines_answer line lines total db db1 l
                (issue_spec m warehouse_id lines (total +ℤ l.value) (levels_of db1)) first rest in
            let step : issue_spec m warehouse_id (line ∷ lines) total (levels_of db)
                ≡ issue_spec m warehouse_id lines (total +ℤ x.value)
                    (put line.item_id warehouse_id x.state (levels_of db)) =
              rw (issue_spec, can) refl in
            let same =
              ap₂ (issue_spec m warehouse_id lines) (ap (λ v. total +ℤ v) value) levels
              ∙ sym step in
            subst (λ o. Answers o (issue_lines m company_id warehouse_id (line ∷ lines) total db))
              same answer
      ]
