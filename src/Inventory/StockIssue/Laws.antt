-- ===== src/Inventory/StockIssue/Laws.antt =====
-- What a stock issue does to the stock and to the ledger.
use markaz.Prelude.{ℕ, ◌≡◌, sym, ap, subst, inl, inr, List, [], ◌∷◌, arith, All, Bool-cases}
use markaz.Prelude.Int.{pos, ◌+ℤ◌, ◌-ℤ◌, int_laws, eq_ℤ, ltb_ℤ}
use markaz.Decimals.{Decimal, Arithmetic, IsArithmetic, IsScaled, negated}
use markaz.Store.{Result-cases, ok}
use markaz.Inventory.WeightedAverage.{
  StockState, average_unit_cost, IssueResult, done, apply_issue, issue, issued_value,
}
use markaz.Inventory.WeightedAverage.Laws.{Outcome-cases, apply_issue_lem}
use markaz.Inventory.Stock.{StockDb, LineRecord}
use markaz.Inventory.StockRow.{lock_stock_row, save_stock_row}
use markaz.Inventory.StockRow.Laws.{IsStored}
use markaz.Inventory.StockRow.Moves.{
  IsStockTable, Moves, Moves-stay, Moves-then, Moves-IsStockTable, lock-save,
}
use markaz.Inventory.StockIssue.{StockIssueLineInput, issue_line, issue_lines}

module _ (m : Arithmetic) (laws : IsArithmetic m) where
  issued_value-IsScaled :
      (s : StockState) (quantity : Decimal)
      → IsScaled m s.value
      → IsScaled m (issued_value m s quantity)
  issued_value-IsScaled s quantity h = elim (Bool-cases (eq_ℤ (s.quantity -ℤ quantity) (pos 0))) [
    | inl last ↦ rw last h
    | inr more ↦
        let share = m.round4 (m.times quantity (average_unit_cost m s)) in
        elim (Bool-cases (ltb_ℤ share s.value)) [
          | inl less ↦
              rw (more, less) (laws.column4_round4 (m.times quantity (average_unit_cost m s)))
          | inr not_less ↦ rw (more, not_less) h
        ]
  ]

  pub apply_issue-IsStored :
      (s : StockState) (quantity : Decimal) (r : IssueResult)
      → IsScaled m quantity
      → apply_issue m s quantity ≡ done r
      → IsStored m s
      → IsStored m r.state × IsScaled m r.value × (r.state.value -ℤ s.value ≡ negated r.value)
  unfolding apply_issue
  apply_issue-IsStored s quantity r whole e h =
      let (stock, q, v, _) = apply_issue_lem m laws s h.in_order quantity r e in
      let same : r ≡ issue m s quantity = ground arith in
      let scaled : IsScaled m r.value =
        rw (ap (λ x. x.value) same) (issued_value-IsScaled s quantity h.value_scaled) in
      let left : s.quantity -ℤ quantity ≡ r.state.quantity = omega int_laws in
      let worth : s.value -ℤ r.value ≡ r.state.value = omega int_laws in
      (
        record {
          in_order = stock;
          quantity_scaled =
              subst (IsScaled m) left
                (laws.column4_difference s.quantity quantity h.quantity_scaled whole);
          value_scaled =
              subst (IsScaled m) worth
                (laws.column4_difference s.value r.value h.value_scaled scaled);
        },
        scaled,
        omega int_laws,
      )

  pub issue_line-Moves :
      (company_id warehouse_id : ℕ) (line : StockIssueLineInput) (db db' : StockDb) (l : LineRecord)
      → IsStockTable m db
      → IsScaled m line.quantity
      → issue_line m company_id warehouse_id line db ≡ ok (l, db')
      → Moves m db db' (negated l.value) × IsScaled m l.value
  unfolding issue_line
  issue_line-Moves company_id warehouse_id line db db' l h whole e =
      elim (Result-cases (lock_stock_row company_id line.item_id warehouse_id db)) [
        | inr (x, failed_lock) ↦ absurd (ground arith)
        | inl ((stock, db1), locked) ↦
            elim (Outcome-cases (apply_issue m stock.state line.quantity)) [
              | inr (x, refused) ↦ absurd (ground arith)
              | inl (issued, taken) ↦
                  elim (Result-cases (save_stock_row m stock.id issued.state db1)) [
                    | inr (x, failed_save) ↦ absurd (ground arith)
                    | inl ((u, db2), saved) ↦
                        let keeps : IsStored m stock.state → IsStored m issued.state = λ k.
                          (apply_issue-IsStored stock.state line.quantity issued whole taken k).0 in
                        let (old, moved) =
                          lock-save m laws company_id line.item_id warehouse_id db db1 db2 stock
                            issued.state u h locked keeps saved in
                        let (_, scaled, delta) =
                          apply_issue-IsStored stock.state line.quantity issued whole taken old in
                        let value_same : l.value ≡ issued.value = ground arith in
                        let ended : db' ≡ db2 = ground arith in
                        (rw (ended, value_same, sym delta) moved, rw value_same scaled)
                  ]
            ]
      ]

  pub issue_lines-Moves :
      (company_id warehouse_id : ℕ) (lines : List StockIssueLineInput) (total sum : Decimal)
      (records : List LineRecord) (db db' : StockDb)
      → IsStockTable m db
      → All (λ line. IsScaled m line.quantity) lines
      → IsScaled m total
      → issue_lines m company_id warehouse_id lines total db ≡ ok ((sum, records), db')
      → Moves m db db' (total -ℤ sum) × IsScaled m sum
  unfolding issue_lines
  issue_lines-Moves company_id warehouse_id [] total sum records db db' h whole scaled e =
      let same : sum ≡ total = ground arith in
      let ended : db' ≡ db = ground arith in
      let none_moved : pos 0 ≡ total -ℤ total = omega int_laws in
      rw (ended, same) (subst (Moves m db db) none_moved (Moves-stay m db h), scaled)
  issue_lines-Moves company_id warehouse_id (line ∷ lines) total sum records db db' h whole scaled
        e =
      elim (Result-cases (issue_line m company_id warehouse_id line db)) [
        | inr (x, refused) ↦ absurd (ground arith)
        | inl ((l, db1), first) ↦
            elim (Result-cases
              (issue_lines m company_id warehouse_id lines (total +ℤ l.value) db1)) [
                | inr (x, refused) ↦ absurd (ground arith)
                | inl (((sum', records'), db2), others) ↦
                    let (moved, own) =
                      issue_line-Moves company_id warehouse_id line db db1 l h whole.0 first in
                    let table = Moves-IsStockTable m db db1 (negated l.value) moved in
                    let (rest, end_scaled) =
                      issue_lines-Moves company_id warehouse_id lines (total +ℤ l.value) sum'
                        records' db1 db2 table whole.1 (laws.column4_sum total l.value scaled own)
                        others in
                    let ended : db' ≡ db2 = ground arith in
                    let same : sum ≡ sum' = ground arith in
                    let delta : negated l.value +ℤ (total +ℤ l.value -ℤ sum') ≡ total -ℤ sum' =
                      omega int_laws in
                    rw (ended, same)
                      (
                        subst (Moves m db db2) delta (
                            Moves-then m db db1 db2 (negated l.value) (total +ℤ l.value -ℤ sum')
                              moved rest),
                        end_scaled,
                      )
              ]
      ]
