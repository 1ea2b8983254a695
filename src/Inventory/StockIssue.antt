-- ===== src/Inventory/StockIssue.antt =====
-- `create` of packages/core/src/inventory/stock-issue.service.ts: goods leave a warehouse for a
-- project, at their average cost. (The audit record, written after the transaction, is left out.)
pub mod Laws
pub mod Value
pub mod Refines
pub mod Context
use markaz.Prelude.{
  ℕ, ◌+◌, Bool, true, false, not, ◌&&◌, Option, none, some, List, [], ◌∷◌, ◌++◌, map, ◌==◌, length,
}
use markaz.Prelude.Int.{pos, ◌+ℤ◌}
use markaz.Prelude.Text.{Text, codes, text_eq}
use markaz.Decimals.{Decimal, Arithmetic, negated}
use markaz.Store.{
  FiscalPeriod, record_not_found, unmapped_account, constraint_violation, range_error, stock_error,
  stock_warehouse_not_found, stock_item_not_found, stock_no_open_period, empty_stock_document,
  stock_insufficient, Error, ActionOn, ◌>>=◌, ◌>>◌, pure, throw, gets, modify, require, or_throw,
  new_id, find,
}
use markaz.Accounting.FiscalYear.{company_currency}
use markaz.Accounting.Engine.Constraints.{commit}
use markaz.Accounting.Engine.Post.{find_open_fiscal_period, post_entry_within}
use markaz.Inventory.AccountMapping.{inventory, project_issue_expense, resolve}
use markaz.Inventory.WeightedAverage.{
  StockState, StockError, out_of_range, insufficient_stock, IssueResult, Outcome, done, failed,
  apply_issue,
}
use markaz.Inventory.Stock.{
  issue_movement, StockIssue, StockDocumentLine, StockMovement, StockDb, StockActor,
  StockDocumentResult, LineRecord, on_ledger, take_ids, is_there, has_warehouse, has_items,
  document_line_check, movement_check, passes,
}
use markaz.Inventory.StockRow.{lock_stock_row, save_stock_row}
use markaz.Inventory.StockDocument.{PostingContext, posting_command, document_lines, movement_rows}

pub record StockIssueLineInput : Type 0 where
  pub item_id : ℕ
  pub quantity : Decimal

pub record CreateStockIssueInput : Type 0 where
  pub warehouse_id : ℕ
  pub cost_center_ref : Text
  pub document_date : ℕ
  pub lines : List StockIssueLineInput

abbrev pub is_empty {ℓ} : {A : Type ℓ} → List A → Bool
is_empty [] = true
is_empty (x ∷ xs) = false

-- The error that `applyIssue` throws, as `create` passes it on.
abbrev pub issue_error : StockError → Error
issue_error out_of_range = range_error
issue_error insufficient_stock = stock_error stock_insufficient

abbrev pub issued_or_throw : Outcome IssueResult → ActionOn StockDb IssueResult
issued_or_throw (done r) = pure r
issued_or_throw (failed e) = throw (issue_error e)

-- The checks and lookups before anything is written.
unfoldable pub issue_context : CreateStockIssueInput → StockActor → ActionOn StockDb PostingContext
issue_context input actor = do
  require (not (is_empty input.lines)) (stock_error empty_stock_document)
  db ← gets λ db. db
  require (has_warehouse actor.company_id input.warehouse_id db)
      (stock_error stock_warehouse_not_found)
  require (has_items actor.company_id (map (λ l. l.item_id) input.lines) db)
      (stock_error stock_item_not_found)
  currency ← or_throw (company_currency actor.company_id db.companies) record_not_found
  period ←
      or_throw (find_open_fiscal_period actor.company_id input.document_date db.ledger)
        (stock_error stock_no_open_period)
  expense_id ←
      or_throw (resolve actor.company_id project_issue_expense db.account_mappings) unmapped_account
  inventory_id ← or_throw (resolve actor.company_id inventory db.account_mappings) unmapped_account
  pure (record {
    fiscal_period_id = period.id;
    currency = currency;
    debit_account_id = expense_id;
    credit_account_id = inventory_id;
  })

abbrev pub issue_row : CreateStockIssueInput → StockActor → ℕ → ℕ → Text → ℕ → StockIssue
issue_row input actor correlation_id id number journal_entry_id = record {
  id = id;
  company_id = actor.company_id;
  number = number;
  warehouse_id = input.warehouse_id;
  cost_center_ref = input.cost_center_ref;
  document_date = input.document_date;
  journal_entry_id = journal_entry_id;
  actor_id = actor.id;
  correlation_id = correlation_id;
}

abbrev pub issue_description : CreateStockIssueInput → Text
issue_description input = codes "Stock issue — " ++ input.cost_center_ref

module _ (m : Arithmetic) where
  open m use {round4}

  unfoldable pub issue_line : ℕ → ℕ → StockIssueLineInput → ActionOn StockDb LineRecord
  issue_line company_id warehouse_id line = do
    stock ← lock_stock_row company_id line.item_id warehouse_id
    issued ← issued_or_throw (apply_issue m stock.state line.quantity)
    save_stock_row m stock.id issued.state
    pure (record {
      item_id = line.item_id;
      quantity = line.quantity;
      unit_cost = issued.unit_cost;
      value = issued.value;
      purchase_order_line_id = none;
    })

  -- The loop over the lines, with the running total.
  unfoldable pub issue_lines :
      ℕ → ℕ → List StockIssueLineInput → Decimal → ActionOn StockDb (Decimal × List LineRecord)
  issue_lines company_id warehouse_id [] total = pure (total, [])
  issue_lines company_id warehouse_id (line ∷ lines) total = do
    l ← issue_line company_id warehouse_id line
    (sum, records) ← issue_lines company_id warehouse_id lines (total +ℤ l.value)
    pure (sum, l ∷ records)

  -- `stockIssue.create`, with its unique number, and `stockMovement.createMany`.
  unfoldable pub write_issue :
      StockIssue → StockActor → List LineRecord → ActionOn StockDb (Unit {0})
  write_issue row actor records = do
    first ← take_ids (length records)
    db ← gets λ db. db
    require
        (not (
          is_there (
            find (λ i. (i.company_id == row.company_id) && text_eq i.number row.number)
              db.stock_issues)))
        constraint_violation
    let lines = document_lines m row.id first 1 records
    require (passes document_line_check lines) constraint_violation
    modify λ db. record db {
      stock_issues = row ∷ db.stock_issues;
      stock_issue_lines = lines ++ db.stock_issue_lines;
    }
    next ← take_ids (length records)
    let movements =
        movement_rows m issue_movement negated (codes "stock_issue") actor row.correlation_id
          row.warehouse_id row.id row.journal_entry_id next records
    require (passes movement_check movements) constraint_violation
    modify λ db. record db { stock_movements = movements ++ db.stock_movements }

  -- The one transaction.
  unfoldable pub create :
      CreateStockIssueInput → StockActor → ℕ → Text → ActionOn StockDb StockDocumentResult
  create input actor correlation_id idempotency_key = do
    context ← issue_context input actor
    (total, records) ← issue_lines actor.company_id input.warehouse_id input.lines (pos 0)
    id ← on_ledger new_id
    posting ← on_ledger (
        post_entry_within m (
          posting_command (codes "stock_issue") (issue_description input) input.document_date actor
            correlation_id idempotency_key context (round4 total) id))
    write_issue (issue_row input actor correlation_id id posting.number posting.journal_entry_id)
        actor records
    on_ledger commit
    pure (record { id = id; number = posting.number; journal_entry_id = posting.journal_entry_id })
