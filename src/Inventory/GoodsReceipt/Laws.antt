-- ===== src/Inventory/GoodsReceipt/Laws.antt =====
-- What a goods receipt does to the stock.
use markaz.Prelude.{◌≡◌, sym, subst, inl, inr, List, [], ◌∷◌, arith, All, ℕ}
use markaz.Prelude.Int.{pos, ◌+ℤ◌, ◌-ℤ◌, int_laws}
use markaz.Decimals.{Decimal, Arithmetic, IsArithmetic, IsScaled}
use markaz.Store.{Result-cases, ok}
use markaz.Inventory.WeightedAverage.{StockState, done, apply_receipt}
use markaz.Inventory.WeightedAverage.Laws.{Outcome-cases, apply_receipt_lem}
use markaz.Inventory.Stock.{StockDb, LineRecord}
use markaz.Inventory.StockRow.{lock_stock_row, save_stock_row}
use markaz.Inventory.StockRow.Laws.{IsStored}
use markaz.Inventory.StockRow.Moves.{
  IsStockTable, Moves, Moves-stay, Moves-then, Moves-IsStockTable, lock-save,
}
use markaz.Inventory.GoodsReceipt.{GoodsReceiptLineInput, receive_line, receive_lines}

module _ (m : Arithmetic) (laws : IsArithmetic m) where
  apply_receipt-IsStored :
      (s : StockState) (quantity unit_cost : Decimal) (r : StockState)
      → IsScaled m quantity
      → apply_receipt m s quantity unit_cost ≡ done r
      → IsStored m s
      → IsStored m r × (r.value -ℤ s.value ≡ m.round4 (m.times quantity unit_cost))
  apply_receipt-IsStored s quantity unit_cost r whole e h =
      let (stock, q, v) = apply_receipt_lem m laws s h.in_order quantity unit_cost r e in
      let rounded = laws.column4_round4 (m.times quantity unit_cost) in
      (
        record {
          in_order = stock;
          quantity_scaled =
              subst (IsScaled m) (sym q)
                (laws.column4_sum s.quantity quantity h.quantity_scaled whole);
          value_scaled = subst (IsScaled m) (sym v) (
              laws.column4_sum s.value (m.round4 (m.times quantity unit_cost)) h.value_scaled
                rounded);
        },
        omega int_laws,
      )

  receive_line-Moves :
      (company_id warehouse_id : ℕ) (line : GoodsReceiptLineInput) (db db' : StockDb)
      (l : LineRecord)
      → IsStockTable m db
      → IsScaled m line.quantity
      → receive_line m company_id warehouse_id line db ≡ ok (l, db')
      → Moves m db db' l.value × IsScaled m l.value
  unfolding receive_line
  receive_line-Moves company_id warehouse_id line db db' l h whole e =
      elim (Result-cases (lock_stock_row company_id line.item_id warehouse_id db)) [
        | inr (x, failed_lock) ↦ absurd (ground arith)
        | inl ((stock, db1), locked) ↦
            elim (Outcome-cases (apply_receipt m stock.state line.quantity line.unit_cost)) [
              | inr (x, refused) ↦ absurd (ground arith)
              | inl (state, taken) ↦ elim (Result-cases (save_stock_row m stock.id state db1)) [
                | inr (x, failed_save) ↦ absurd (ground arith)
                | inl ((u, db2), saved) ↦
                    let keeps : IsStored m stock.state → IsStored m state = λ k.
                      (apply_receipt-IsStored stock.state line.quantity line.unit_cost state whole
                        taken k).0 in
                    let (old, moved) =
                      lock-save m laws company_id line.item_id warehouse_id db db1 db2 stock state u
                        h locked keeps saved in
                    let (_, delta) =
                      apply_receipt-IsStored stock.state line.quantity line.unit_cost state whole
                        taken old in
                    let value_same : l.value ≡ m.round4 (m.times line.quantity line.unit_cost) =
                      ground arith in
                    let ended : db' ≡ db2 = ground arith in
                    (
                      rw (ended, value_same, sym delta) moved,
                      rw value_same (laws.column4_round4 (m.times line.quantity line.unit_cost)),
                    )
              ]
            ]
      ]

  pub receive_lines-Moves :
      (company_id warehouse_id : ℕ) (lines : List GoodsReceiptLineInput) (total sum : Decimal)
      (records : List LineRecord) (db db' : StockDb)
      → IsStockTable m db
      → All (λ line. IsScaled m line.quantity) lines
      → IsScaled m total
      → receive_lines m company_id warehouse_id lines total db ≡ ok ((sum, records), db')
      → Moves m db db' (sum -ℤ total) × IsScaled m sum
  unfolding receive_lines
  receive_lines-Moves company_id warehouse_id [] total sum records db db' h whole scaled e =
      let same : sum ≡ total = ground arith in
      let ended : db' ≡ db = ground arith in
      let none_moved : pos 0 ≡ total -ℤ total = omega int_laws in
      rw (ended, same) (subst (Moves m db db) none_moved (Moves-stay m db h), scaled)
  receive_lines-Moves company_id warehouse_id (line ∷ lines) total sum records db db' h whole scaled
        e =
      elim (Result-cases (receive_line m company_id warehouse_id line db)) [
        | inr (x, refused) ↦ absurd (ground arith)
        | inl ((l, db1), first) ↦
            elim (Result-cases
              (receive_lines m company_id warehouse_id lines (total +ℤ l.value) db1)) [
                | inr (x, refused) ↦ absurd (ground arith)
                | inl (((sum', records'), db2), others) ↦
                    let (moved, own) =
                      receive_line-Moves company_id warehouse_id line db db1 l h whole.0 first in
                    let table = Moves-IsStockTable m db db1 l.value moved in
                    let (rest, end_scaled) =
                      receive_lines-Moves company_id warehouse_id lines (total +ℤ l.value) sum'
                        records' db1 db2 table whole.1 (laws.column4_sum total l.value scaled own)
                        others in
                    let ended : db' ≡ db2 = ground arith in
                    let same : sum ≡ sum' = ground arith in
                    let delta : l.value +ℤ (sum' -ℤ (total +ℤ l.value)) ≡ sum' -ℤ total =
                      omega int_laws in
                    rw (ended, same)
                      (
                        subst (Moves m db db2) delta (
                            Moves-then m db db1 db2 l.value (sum' -ℤ (total +ℤ l.value)) moved
                              rest),
                        end_scaled,
                      )
              ]
      ]
