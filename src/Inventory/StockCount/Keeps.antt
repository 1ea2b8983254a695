-- ===== src/Inventory/StockCount/Keeps.antt =====
-- The steps of `post` leave the counts alone.
use markaz.Prelude.{
  ℕ, ◌≡◌, ◌∙◌, ap, inl, inr, Bool, true, false, Option, none, some, List, [], ◌∷◌, arith,
  Bool-cases, Option-cases,
}
use markaz.Prelude.Int.{pos}
use markaz.Prelude.Text.{Text}
use markaz.Decimals.{Arithmetic, greater_than}
use markaz.Store.{Result-cases, ok, Action, find}
use markaz.Accounting.FiscalYear.{company_currency}
use markaz.Accounting.Engine.Command.{PostingCommand}
use markaz.Accounting.Engine.Post.{find_open_fiscal_period, post_entry_within}
use markaz.Inventory.AccountMapping.{inventory, count_loss, count_gain, resolve}
use markaz.Inventory.WeightedAverage.{CountAdjustmentResult, apply_count_adjustment}
use markaz.Inventory.WeightedAverage.Laws.{Outcome-cases}
use markaz.Inventory.Stock.{
  StockCount, StockCountLine, StockDb, StockActor, on_ledger, movement_check, passes,
}
use markaz.Inventory.StockRow.{
  LockedStockRow, is_at, empty_row, insert_if_absent, lock_stock_row, save_stock_row,
}
use markaz.Inventory.StockRow.Laws.{save_stock_row_inv}
use markaz.Inventory.StockCount.Post.{
  Variances, MovedLine, adjust_line, adjust_lines, add_variance, adjustment_rows, book_entry,
  resolve_if, book_variances, book_if_varied, is_varied, entry_lines, count_command,
}

lock_counts :
    (company_id item_id warehouse_id : ℕ) (db db' : StockDb) (r : LockedStockRow)
    → lock_stock_row company_id item_id warehouse_id db ≡ ok (r, db')
    → db'.stock_counts ≡ db.stock_counts
unfolding lock_stock_row
lock_counts company_id item_id warehouse_id db db' r e =
    elim (Option-cases (
      find (is_at item_id warehouse_id) (
        insert_if_absent (empty_row db.ledger.next_id company_id item_id warehouse_id)
          db.item_warehouse_stock))) [
            | inl absent ↦ absurd (ground arith)
            | inr (row, there) ↦ ground arith
          ]

module _ (m : Arithmetic) where
  adjust_line_counts :
      (company_id warehouse_id : ℕ) (line : StockCountLine) (db db' : StockDb)
      (r : CountAdjustmentResult)
      → adjust_line m company_id warehouse_id line db ≡ ok (r, db')
      → db'.stock_counts ≡ db.stock_counts
  unfolding adjust_line
  adjust_line_counts company_id warehouse_id line db db' r e =
      elim (Result-cases (lock_stock_row company_id line.item_id warehouse_id db)) [
        | inr (x, bad) ↦ absurd (ground arith)
        | inl ((stock, db1), locked) ↦
            elim (Outcome-cases
              (apply_count_adjustment m stock.state line.counted_quantity line.unit_cost)) [
                | inr (x, refused) ↦ absurd (ground arith)
                | inl (adjustment, adjusted) ↦
                    elim (Result-cases (save_stock_row m stock.id adjustment.state db1)) [
                      | inr (x, bad) ↦ absurd (ground arith)
                      | inl ((u, db2), saved) ↦
                          let first =
                            lock_counts company_id line.item_id warehouse_id db db1 stock locked in
                          let (written, _) =
                            save_stock_row_inv m stock.id adjustment.state db1 db2 u saved in
                          let ended : db' ≡ db2 = ground arith in
                          ap (λ x. x.stock_counts) ended ∙ ap (λ x. x.stock_counts) written ∙ first
                    ]
              ]
      ]

  pub adjust_lines_counts :
      (company_id warehouse_id : ℕ) (lines : List StockCountLine) (totals sums : Variances)
      (moved : List MovedLine) (db db' : StockDb)
      → adjust_lines m company_id warehouse_id lines totals db ≡ ok ((sums, moved), db')
      → db'.stock_counts ≡ db.stock_counts
  unfolding adjust_lines
  adjust_lines_counts company_id warehouse_id [] totals sums moved db db' e = ground arith
  adjust_lines_counts company_id warehouse_id (line ∷ lines) totals sums moved db db' e =
      elim (Result-cases (adjust_line m company_id warehouse_id line db)) [
        | inr (x, bad) ↦ absurd (ground arith)
        | inl ((a, db1), first) ↦
            let after = add_variance a.variance_value totals in
            elim (Result-cases (adjust_lines m company_id warehouse_id lines after db1)) [
              | inr (x, bad) ↦ absurd (ground arith)
              | inl (((sums', moved'), db2), others) ↦
                  let ended : db' ≡ db2 = ground arith in
                  ap (λ x. x.stock_counts) ended
                  ∙ adjust_lines_counts company_id warehouse_id lines after sums' moved' db1 db2
                      others
                  ∙ adjust_line_counts company_id warehouse_id line db db1 a first
            ]
      ]

  on_ledger_counts :
      {A : Type 0} (act : Action A) (db db' : StockDb) (a : A)
      → on_ledger act db ≡ ok (a, db')
      → db'.stock_counts ≡ db.stock_counts
  on_ledger_counts act db db' a e = elim (Result-cases (act db.ledger)) [
    | inl ((b, l), done_it) ↦ ground arith
    | inr (x, bad) ↦ absurd (ground arith)
  ]

  resolve_if_same :
      (needed : Bool) (found : Option ℕ) (db db' : StockDb) (id : ℕ)
      → resolve_if needed found db ≡ ok (id, db')
      → db' ≡ db
  resolve_if_same true none db db' id e = absurd (ground arith)
  resolve_if_same true (some k) db db' id e = ground arith
  resolve_if_same false found db db' id e = ground arith

  booked_counts :
      (count : StockCount) (actor : StockActor) (correlation_id : ℕ) (moved : List MovedLine)
      (command : PostingCommand) (db db' : StockDb) (entry : Option ℕ)
      → book_entry m count actor correlation_id moved command db ≡ ok (entry, db')
      → db'.stock_counts ≡ db.stock_counts
  unfolding book_entry
  booked_counts count actor correlation_id moved command db db' entry e =
      elim (Result-cases (post_entry_within m command db.ledger)) [
        | inr (x, bad) ↦ absurd (ground arith)
        | inl ((posting, l), posted) ↦
            elim (Bool-cases (
              passes movement_check (
                adjustment_rows m count actor correlation_id posting.journal_entry_id l.next_id
                  moved))) [ inr refused ↦ absurd (ground arith) | inl accepted ↦ ground arith ]
      ]

  book_variances_counts :
      (count : StockCount) (actor : StockActor) (correlation_id : ℕ) (key : Text)
      (totals : Variances) (moved : List MovedLine) (db db' : StockDb) (entry : Option ℕ)
      → book_variances m count actor correlation_id key totals moved db ≡ ok (entry, db')
      → db'.stock_counts ≡ db.stock_counts
  unfolding book_variances
  book_variances_counts count actor correlation_id key totals moved db db' entry e =
      elim (Option-cases (company_currency actor.company_id db.companies)) [
        | inl unknown ↦ absurd (ground arith)
        | inr (currency, known) ↦
            elim (Option-cases
              (find_open_fiscal_period actor.company_id count.document_date db.ledger)) [
                | inl closed ↦ absurd (ground arith)
                | inr (period, current) ↦
                    let losses = resolve actor.company_id count_loss db.account_mappings in
                    let gains = resolve actor.company_id count_gain db.account_mappings in
                    elim (Result-cases
                      (resolve_if (greater_than totals.shortage (pos 0)) losses db)) [
                        | inr (x, bad) ↦ absurd (ground arith)
                        | inl ((loss_id, db1), lost) ↦
                            elim (Result-cases
                              (resolve_if (greater_than totals.surplus (pos 0)) gains db1)) [
                                | inr (x, bad) ↦ absurd (ground arith)
                                | inl ((gain_id, db2), gained) ↦
                                    elim (Option-cases
                                      (resolve actor.company_id inventory db.account_mappings)) [
                                        | inl unmapped ↦ absurd (ground arith)
                                        | inr (inventory_id, held) ↦
                                            let command =
                                              count_command count actor correlation_id key period.id
                                                currency
                                                (entry_lines m loss_id gain_id inventory_id
                                                  totals) in
                                            let first =
                                              resolve_if_same (greater_than totals.shortage (pos 0))
                                                losses db db1 loss_id lost in
                                            let second =
                                              resolve_if_same (greater_than totals.surplus (pos 0))
                                                gains db1 db2 gain_id gained in
                                            booked_counts count actor correlation_id moved command
                                              db2 db' entry (ground arith)
                                            ∙ ap (λ x. x.stock_counts) (second ∙ first)
                                      ]
                              ]
                      ]
              ]
      ]

  pub book_if_varied_counts :
      (count : StockCount) (actor : StockActor) (correlation_id : ℕ) (key : Text)
      (totals : Variances) (moved : List MovedLine) (db db' : StockDb) (entry : Option ℕ)
      → book_if_varied m count actor correlation_id key totals moved db ≡ ok (entry, db')
      → db'.stock_counts ≡ db.stock_counts
  unfolding book_if_varied
  book_if_varied_counts count actor correlation_id key totals moved db db' entry e =
      elim (Bool-cases (is_varied totals)) [
        | inl varied ↦
            book_variances_counts count actor correlation_id key totals moved db db' entry
              (ground arith)
        | inr same ↦ ground arith
      ]
