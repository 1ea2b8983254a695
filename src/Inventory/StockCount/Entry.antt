-- ===== src/Inventory/StockCount/Entry.antt =====
-- The entry of a count's variances is one that the engine accepts.
use markaz.Prelude.{ℕ, ◌≡◌, inl, inr, true, false, List, [], ◌∷◌, arith, Bool-cases}
use markaz.Prelude.Int.{pos, ◌+ℤ◌, ◌-ℤ◌, ◌≤ℤ◌, int_laws}
use markaz.Prelude.Text.{Text}
use markaz.Decimals.{
  Decimal, Arithmetic, IsArithmetic, IsScaled, greater_than, less_than, negated, column4_zero,
  round4_scaled,
}
use markaz.Store.{Result-cases, ok}
use markaz.Accounting.Engine.Command.{validate_shape}
use markaz.Inventory.WeightedAverage.{CountAdjustmentResult, apply_count_adjustment}
use markaz.Inventory.WeightedAverage.Laws.{Outcome-cases}
use markaz.Inventory.Stock.{StockCount, StockCountLine, StockDb, StockActor}
use markaz.Inventory.StockRow.{lock_stock_row, save_stock_row}
use markaz.Inventory.StockCount.Post.{
  Variances, MovedLine, adjust_line, adjust_lines, add_variance, is_varied, entry_lines,
  count_command,
}
use markaz.Inventory.StockCount.Signs.{
  negated_above, difference_below, difference_above, no_sign, not_above,
}

module _ (m : Arithmetic) (laws : IsArithmetic m) where
  -- Totals that the columns store as they are, neither below zero.
  pub record IsTotalled (totals : Variances) : Type 0 where
    pub shortage_nonneg : pos 0 ≤ℤ totals.shortage
    pub surplus_nonneg : pos 0 ≤ℤ totals.surplus
    pub shortage_scaled : IsScaled m totals.shortage
    pub surplus_scaled : IsScaled m totals.surplus

  add_variance-IsTotalled :
      (value : Decimal) (totals : Variances)
      → IsScaled m value
      → IsTotalled totals
      → IsTotalled (add_variance value totals)
  add_variance-IsTotalled value totals scaled h = elim (Bool-cases (less_than value (pos 0))) [
    | inl below ↦
        let low : value ≤ℤ pos 0 = ground arith in
        let turned = laws.column4_difference (pos 0) value (column4_zero m laws) scaled in
        rw below (record {
          shortage_nonneg = let k = h.shortage_nonneg in omega int_laws;
          surplus_nonneg = h.surplus_nonneg;
          shortage_scaled =
              laws.column4_sum totals.shortage (negated value) h.shortage_scaled turned;
          surplus_scaled = h.surplus_scaled;
        })
    | inr not_below ↦ elim (Bool-cases (greater_than value (pos 0))) [
      | inl above ↦
          let high : pos 0 ≤ℤ value = ground arith in
          rw (not_below, above)
            (record {
              shortage_nonneg = h.shortage_nonneg;
              surplus_nonneg = let k = h.surplus_nonneg in omega int_laws;
              shortage_scaled = h.shortage_scaled;
              surplus_scaled = laws.column4_sum totals.surplus value h.surplus_scaled scaled;
            })
      | inr zero_value ↦ rw (not_below, zero_value) h
    ]
  ]

  adjust_line-IsScaled :
      (company_id warehouse_id : ℕ) (line : StockCountLine) (db db' : StockDb)
      (r : CountAdjustmentResult)
      → adjust_line m company_id warehouse_id line db ≡ ok (r, db')
      → IsScaled m r.variance_value
  unfolding adjust_line apply_count_adjustment
  adjust_line-IsScaled company_id warehouse_id line db db' r e =
      elim (Result-cases (lock_stock_row company_id line.item_id warehouse_id db)) [
        | inr (x, bad) ↦ absurd (ground arith)
        | inl ((stock, db1), locked) ↦
            elim (Outcome-cases
              (apply_count_adjustment m stock.state line.counted_quantity line.unit_cost)) [
                | inr (x, refused) ↦ absurd (ground arith)
                | inl (a, adjusted) ↦ elim (Result-cases (save_stock_row m stock.id a.state db1)) [
                  | inr (x, bad) ↦ absurd (ground arith)
                  | inl ((u, db2), saved) ↦
                      let same : r.variance_value
                          ≡ m.round4 (
                              m.times (line.counted_quantity -ℤ stock.state.quantity)
                                line.unit_cost) =
                        ground arith in
                      rw same (
                        laws.column4_round4
                          (m.times (line.counted_quantity -ℤ stock.state.quantity) line.unit_cost))
                ]
              ]
      ]

  adjust_lines-IsTotalled :
      (company_id warehouse_id : ℕ) (lines : List StockCountLine) (totals sums : Variances)
      (moved : List MovedLine) (db db' : StockDb)
      → IsTotalled totals
      → adjust_lines m company_id warehouse_id lines totals db ≡ ok ((sums, moved), db')
      → IsTotalled sums
  unfolding adjust_lines
  adjust_lines-IsTotalled company_id warehouse_id [] totals sums moved db db' h e =
      let same : sums ≡ totals = ground arith in rw same h
  adjust_lines-IsTotalled company_id warehouse_id (line ∷ lines) totals sums moved db db' h e =
      elim (Result-cases (adjust_line m company_id warehouse_id line db)) [
        | inr (x, bad) ↦ absurd (ground arith)
        | inl ((a, db1), first) ↦
            let after = add_variance a.variance_value totals in
            elim (Result-cases (adjust_lines m company_id warehouse_id lines after db1)) [
              | inr (x, bad) ↦ absurd (ground arith)
              | inl (((sums', moved'), db2), others) ↦
                  let same : sums ≡ sums' = ground arith in
                  let scaled = adjust_line-IsScaled company_id warehouse_id line db db1 a first in
                  rw same (
                    adjust_lines-IsTotalled company_id warehouse_id lines after sums' moved' db1 db2
                      (add_variance-IsTotalled a.variance_value totals scaled h) others)
            ]
      ]

  entry_valid :
      (loss_id gain_id inventory_id : ℕ) (totals : Variances) (c : StockCount) (actor : StockActor)
      (correlation_id : ℕ) (key : Text) (period_id : ℕ) (currency : Text)
      → IsTotalled totals
      → is_varied totals ≡ true
      → validate_shape (
          count_command c actor correlation_id key period_id currency
            (entry_lines m loss_id gain_id inventory_id totals))
        ≡ ok tt
  unfolding validate_shape
  entry_valid loss_id gain_id inventory_id totals c actor correlation_id key period_id currency h
        varied =
      let net = totals.surplus -ℤ totals.shortage in
      let s = round4_scaled m laws totals.shortage h.shortage_scaled in
      let u = round4_scaled m laws totals.surplus h.surplus_scaled in
      let whole =
        laws.column4_difference totals.surplus totals.shortage h.surplus_scaled h.shortage_scaled in
      let n = round4_scaled m laws net whole in
      let k =
        round4_scaled m laws (negated net)
          (laws.column4_difference (pos 0) net (column4_zero m laws) whole) in
      let low = h.shortage_nonneg in
      let high = h.surplus_nonneg in
      elim (Bool-cases (greater_than totals.shortage (pos 0))) [
        | inl lost ↦ elim (Bool-cases (greater_than totals.surplus (pos 0))) [
          | inl gained ↦ elim (Bool-cases (greater_than net (pos 0))) [
            | inl up ↦
                rw (s, u, lost, gained, up, n, up)
                  (let even_sides : pos 0 +ℤ totals.shortage +ℤ pos 0 +ℤ net
                        ≡ pos 0 +ℤ pos 0 +ℤ totals.surplus +ℤ pos 0 =
                      omega int_laws in
                    ground arith)
            | inr not_up ↦ elim (Bool-cases (less_than net (pos 0))) [
              | inl down ↦
                  let out = negated_above net down in
                  rw (s, u, lost, gained, not_up, down, k)
                    (let even_sides : pos 0 +ℤ totals.shortage +ℤ pos 0 +ℤ pos 0
                          ≡ pos 0 +ℤ pos 0 +ℤ totals.surplus +ℤ negated net =
                        omega int_laws in
                      ground arith)
              | inr even ↦
                  rw (s, u, lost, gained, not_up, even)
                    (let level : net ≡ pos 0 = no_sign net not_up even in
                      let even_sides : pos 0 +ℤ totals.shortage +ℤ pos 0
                          ≡ pos 0 +ℤ pos 0 +ℤ totals.surplus =
                        omega int_laws in
                      ground arith)
            ]
          ]
          | inr not_gained ↦
              let nothing = not_above totals.surplus high not_gained in
              let down : less_than net (pos 0) ≡ true =
                difference_below totals.surplus totals.shortage nothing lost in
              let not_up : greater_than net (pos 0) ≡ false = ground arith in
              let out = negated_above net down in
              rw (s, u, lost, not_gained, not_up, down, k)
                (let even_sides : pos 0 +ℤ totals.shortage +ℤ pos 0
                      ≡ pos 0 +ℤ pos 0 +ℤ negated net =
                    omega int_laws in
                  ground arith)
        ]
        | inr not_lost ↦
            let nothing = not_above totals.shortage low not_lost in
            let gained : greater_than totals.surplus (pos 0) ≡ true = ground arith in
            let up : greater_than net (pos 0) ≡ true =
              difference_above totals.surplus totals.shortage nothing gained in
            rw (s, u, not_lost, gained, up, n, up)
              (let even_sides : pos 0 +ℤ pos 0 +ℤ net ≡ pos 0 +ℤ totals.surplus +ℤ pos 0 =
                  omega int_laws in
                ground arith)
      ]

  -- Whatever was counted: where anything varied, the entry that a count posts passes the engine's
  -- validation, with two lines or more, each on one side, and debits that equal credits.
  pub post_count_valid :
      (company_id warehouse_id : ℕ) (lines : List StockCountLine) (totals : Variances)
      (moved : List MovedLine) (db db' : StockDb) (loss_id gain_id inventory_id : ℕ)
      (c : StockCount) (actor : StockActor) (correlation_id : ℕ) (key : Text) (period_id : ℕ)
      (currency : Text)
      → adjust_lines m company_id warehouse_id lines
          (record { shortage = pos 0; surplus = pos 0 })
          db
        ≡ ok ((totals, moved), db')
      → is_varied totals ≡ true
      → validate_shape (
          count_command c actor correlation_id key period_id currency
            (entry_lines m loss_id gain_id inventory_id totals))
        ≡ ok tt
  post_count_valid company_id warehouse_id lines totals moved db db' loss_id gain_id inventory_id c
        actor correlation_id key period_id currency e varied =
      let start : IsTotalled (record { shortage = pos 0; surplus = pos 0 }) = record {
        shortage_nonneg = omega arith;
        surplus_nonneg = omega arith;
        shortage_scaled = column4_zero m laws;
        surplus_scaled = column4_zero m laws;
      } in
      entry_valid loss_id gain_id inventory_id totals c actor correlation_id key period_id currency
        (adjust_lines-IsTotalled company_id warehouse_id lines
          (record { shortage = pos 0; surplus = pos 0 }) totals moved db db' start e)
        varied
