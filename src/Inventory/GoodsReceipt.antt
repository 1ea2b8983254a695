-- ===== src/Inventory/GoodsReceipt.antt =====
-- `create` and `createIn` of packages/core/src/inventory/goods-receipt.service.ts: goods come into a
-- warehouse at the cost of the document. (The audit record is left out.)
pub mod Laws
pub mod Value
pub mod Context
use markaz.Prelude.{
  ℕ, suc, ◌+◌, Bool, true, false, not, ◌&&◌, Option, none, some, List, [], ◌∷◌, ◌++◌, map, ◌==◌,
  length,
}
use markaz.Prelude.Int.{pos, ◌+ℤ◌}
use markaz.Prelude.Text.{Text, codes, text_eq}
use markaz.Decimals.{Decimal, Arithmetic}
use markaz.Store.{
  record_not_found, unmapped_account, constraint_violation, range_error, stock_error,
  stock_warehouse_not_found, stock_item_not_found, stock_no_open_period, empty_stock_document,
  ActionOn, ◌>>=◌, ◌>>◌, pure, throw, gets, modify, require, or_throw, new_id, find,
}
use markaz.Accounting.FiscalYear.{company_currency}
use markaz.Accounting.Engine.Constraints.{commit}
use markaz.Accounting.Engine.Post.{find_open_fiscal_period, post_entry_within}
use markaz.Inventory.AccountMapping.{inventory, grni, resolve}
use markaz.Inventory.WeightedAverage.{StockState, Outcome, done, failed, apply_receipt}
use markaz.Inventory.Stock.{
  receipt_movement, GoodsReceipt, CostLayer, StockDb, StockActor, StockDocumentResult, LineRecord,
  on_ledger, take_ids, is_there, has_warehouse, has_items, document_line_check, movement_check,
  layer_check, passes,
}
use markaz.Inventory.StockRow.{lock_stock_row, save_stock_row}
use markaz.Inventory.StockDocument.{PostingContext, posting_command, document_lines, movement_rows}
use markaz.Inventory.StockIssue.{is_empty}

pub record GoodsReceiptLineInput : Type 0 where
  pub item_id : ℕ
  pub quantity : Decimal
  pub unit_cost : Decimal
  pub purchase_order_line_id : Option ℕ

pub record CreateGoodsReceiptInput : Type 0 where
  pub warehouse_id : ℕ
  pub party_id : Option ℕ
  pub purchase_order_id : Option ℕ
  pub document_date : ℕ
  pub reference : Option Text
  pub lines : List GoodsReceiptLineInput

-- `applyReceipt` throws a RangeError, which `createIn` lets through.
abbrev pub received_or_throw : Outcome StockState → ActionOn StockDb StockState
received_or_throw (done s) = pure s
received_or_throw (failed e) = throw range_error

-- The checks and lookups before anything is written.
unfoldable pub receipt_context :
    CreateGoodsReceiptInput → StockActor → ActionOn StockDb PostingContext
receipt_context input actor = do
  require (not (is_empty input.lines)) (stock_error empty_stock_document)
  db ← gets λ db. db
  require (has_warehouse actor.company_id input.warehouse_id db)
      (stock_error stock_warehouse_not_found)
  require (has_items actor.company_id (map (λ l. l.item_id) input.lines) db)
      (stock_error stock_item_not_found)
  period ←
      or_throw (find_open_fiscal_period actor.company_id input.document_date db.ledger)
        (stock_error stock_no_open_period)
  currency ← or_throw (company_currency actor.company_id db.companies) record_not_found
  inventory_id ← or_throw (resolve actor.company_id inventory db.account_mappings) unmapped_account
  grni_id ← or_throw (resolve actor.company_id grni db.account_mappings) unmapped_account
  pure (record {
    fiscal_period_id = period.id;
    currency = currency;
    debit_account_id = inventory_id;
    credit_account_id = grni_id;
  })

abbrev pub receipt_row : CreateGoodsReceiptInput → StockActor → ℕ → ℕ → Text → ℕ → GoodsReceipt
receipt_row input actor correlation_id id number journal_entry_id = record {
  id = id;
  company_id = actor.company_id;
  number = number;
  warehouse_id = input.warehouse_id;
  party_id = input.party_id;
  purchase_order_id = input.purchase_order_id;
  document_date = input.document_date;
  reference = input.reference;
  journal_entry_id = journal_entry_id;
  actor_id = actor.id;
  correlation_id = correlation_id;
}

module _ (m : Arithmetic) where
  open m use {round4, times, column4}

  unfoldable pub receive_line : ℕ → ℕ → GoodsReceiptLineInput → ActionOn StockDb LineRecord
  receive_line company_id warehouse_id line = do
    stock ← lock_stock_row company_id line.item_id warehouse_id
    state ← received_or_throw (apply_receipt m stock.state line.quantity line.unit_cost)
    save_stock_row m stock.id state
    pure (record {
      item_id = line.item_id;
      quantity = line.quantity;
      unit_cost = line.unit_cost;
      value = round4 (times line.quantity line.unit_cost);
      purchase_order_line_id = line.purchase_order_line_id;
    })

  -- The loop over the lines, with the running total.
  unfoldable pub receive_lines :
      ℕ → ℕ → List GoodsReceiptLineInput → Decimal → ActionOn StockDb (Decimal × List LineRecord)
  receive_lines company_id warehouse_id [] total = pure (total, [])
  receive_lines company_id warehouse_id (line ∷ lines) total = do
    l ← receive_line company_id warehouse_id line
    (sum, records) ← receive_lines company_id warehouse_id lines (total +ℤ l.value)
    pure (sum, l ∷ records)

  -- `costLayer.createMany`, with ids from `id` on.
  abbrev pub cost_layers : GoodsReceipt → ℕ → List LineRecord → List CostLayer
  cost_layers row id [] = []
  cost_layers row id (l ∷ ls) =
      record {
        id = id;
        company_id = row.company_id;
        item_id = l.item_id;
        warehouse_id = row.warehouse_id;
        received_at = row.document_date;
        quantity_received = column4 l.quantity;
        quantity_remaining = column4 l.quantity;
        unit_cost = column4 l.unit_cost;
        source_document_id = row.id;
      }
      ∷ cost_layers row (suc id) ls

  -- `goodsReceipt.create`, with its unique number, `stockMovement.createMany`, `costLayer.createMany`.
  unfoldable pub write_receipt :
      GoodsReceipt → StockActor → List LineRecord → ActionOn StockDb (Unit {0})
  write_receipt row actor records = do
    first ← take_ids (length records)
    db ← gets λ db. db
    require
        (not (
          is_there (
            find (λ i. (i.company_id == row.company_id) && text_eq i.number row.number)
              db.goods_receipts)))
        constraint_violation
    let lines = document_lines m row.id first 1 records
    require (passes document_line_check lines) constraint_violation
    modify λ db. record db {
      goods_receipts = row ∷ db.goods_receipts;
      goods_receipt_lines = lines ++ db.goods_receipt_lines;
    }
    next ← take_ids (length records)
    let movements =
        movement_rows m receipt_movement (λ q. q) (codes "goods_receipt") actor row.correlation_id
          row.warehouse_id row.id row.journal_entry_id next records
    require (passes movement_check movements) constraint_violation
    modify λ db. record db { stock_movements = movements ++ db.stock_movements }
    last ← take_ids (length records)
    let layers = cost_layers row last records
    require (passes layer_check layers) constraint_violation
    modify λ db. record db { cost_layers = layers ++ db.cost_layers }

  unfoldable pub create_in :
      CreateGoodsReceiptInput → StockActor → ℕ → Text → ActionOn StockDb StockDocumentResult
  create_in input actor correlation_id idempotency_key = do
    context ← receipt_context input actor
    (total, records) ← receive_lines actor.company_id input.warehouse_id input.lines (pos 0)
    id ← on_ledger new_id
    posting ← on_ledger (
        post_entry_within m (
          posting_command (codes "goods_receipt") (codes "Goods receipt") input.document_date actor
            correlation_id idempotency_key context (round4 total) id))
    write_receipt
        (receipt_row input actor correlation_id id posting.number posting.journal_entry_id) actor
        records
    pure (record { id = id; number = posting.number; journal_entry_id = posting.journal_entry_id })

  -- The transaction of its own.
  unfoldable pub create :
      CreateGoodsReceiptInput → StockActor → ℕ → Text → ActionOn StockDb StockDocumentResult
  create input actor correlation_id idempotency_key = do
    r ← create_in input actor correlation_id idempotency_key
    on_ledger commit
    pure r
