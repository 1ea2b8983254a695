-- ===== src/Inventory/StockCount/Post.antt =====
-- `post` of packages/core/src/inventory/stock-count.service.ts: the adjustment of the books to a
-- count. (The audit record is left out; the lines of a count are read in the order of the table.)
use markaz.Prelude.{
  ℕ, suc, Bool, true, false, not, ◌&&◌, ◌||◌, Option, none, some, List, [], ◌∷◌, ◌++◌, ◌==◌,
  if◌then◌else◌, length,
}
use markaz.Prelude.Int.{pos, ◌+ℤ◌, ◌-ℤ◌, eq_ℤ}
use markaz.Prelude.Text.{Text, codes}
use markaz.Decimals.{Decimal, Arithmetic, greater_than, less_than, negated, max_ℤ}
use markaz.Store.{
  record_not_found, unmapped_account, constraint_violation, range_error, stock_error,
  stock_no_open_period, count_not_found, count_already_posted, ActionOn, ◌>>=◌, ◌>>◌, pure, throw,
  gets, modify, require, or_throw, find,
}
use markaz.Accounting.FiscalYear.{company_currency}
use markaz.Accounting.Engine.Command.{JournalLineInput, PostingCommand, debit_input, credit_input}
use markaz.Accounting.Engine.Constraints.{commit}
use markaz.Accounting.Engine.Post.{find_open_fiscal_period, post_entry_within}
use markaz.Inventory.AccountMapping.{inventory, count_loss, count_gain, resolve}
use markaz.Inventory.WeightedAverage.{
  Outcome, done, failed, CountAdjustmentResult, apply_count_adjustment,
}
use markaz.Inventory.Stock.{
  count_adjustment_movement, StockCount, StockCountLine, StockMovement, StockDb, StockActor,
  on_ledger, take_ids, is_there, movement_check, passes,
}
use markaz.Inventory.StockRow.{lock_stock_row, save_stock_row}

pub record StockCountPostResult : Type 0 where
  pub id : ℕ
  pub journal_entry_id : Option ℕ

-- What the loop of `post` adds up, and what it notes of a line that varied.
pub record Variances : Type 0 where
  pub shortage : Decimal
  pub surplus : Decimal

pub record MovedLine : Type 0 where
  pub item_id : ℕ
  pub variance : Decimal
  pub unit_cost : Decimal
  pub variance_value : Decimal

abbrev pub add_variance : Decimal → Variances → Variances
add_variance value totals =
    if less_than value (pos 0)
    then record totals { shortage = totals.shortage +ℤ negated value }
    else if greater_than value (pos 0)
    then record totals { surplus = totals.surplus +ℤ value }
    else totals

abbrev pub note_moved : StockCountLine → CountAdjustmentResult → List MovedLine → List MovedLine
note_moved line adjustment moved =
    if eq_ℤ adjustment.variance (pos 0)
    then moved
    else record {
      item_id = line.item_id;
      variance = adjustment.variance;
      unit_cost = line.unit_cost;
      variance_value = adjustment.variance_value;
    }
      ∷ moved

-- `applyCountAdjustment` throws a RangeError, which `post` lets through.
abbrev pub adjusted_or_throw :
    Outcome CountAdjustmentResult → ActionOn StockDb CountAdjustmentResult
adjusted_or_throw (done r) = pure r
adjusted_or_throw (failed e) = throw range_error

abbrev pub is_varied : Variances → Bool
is_varied totals = greater_than totals.shortage (pos 0) || greater_than totals.surplus (pos 0)

-- The lines of the entry: the loss, the gain, and the net on the inventory account.
abbrev pub loss_line : Arithmetic → ℕ → Decimal → List JournalLineInput
loss_line m account_id shortage =
    if greater_than shortage (pos 0)
    then debit_input account_id (m.round4 shortage) (codes "Stock count shortage") ∷ []
    else []

abbrev pub gain_line : Arithmetic → ℕ → Decimal → List JournalLineInput
gain_line m account_id surplus =
    if greater_than surplus (pos 0)
    then credit_input account_id (m.round4 surplus) (codes "Stock count surplus") ∷ []
    else []

abbrev pub net_line : Arithmetic → ℕ → Decimal → List JournalLineInput
net_line m account_id net =
    if greater_than net (pos 0)
    then debit_input account_id (m.round4 net) (codes "Stock count adjustment") ∷ []
    else if less_than net (pos 0)
    then credit_input account_id (m.round4 (negated net)) (codes "Stock count adjustment") ∷ []
    else []

abbrev pub entry_lines : Arithmetic → ℕ → ℕ → ℕ → Variances → List JournalLineInput
entry_lines m loss_id gain_id inventory_id totals =
    loss_line m loss_id totals.shortage
    ++ gain_line m gain_id totals.surplus
    ++ net_line m inventory_id (totals.surplus -ℤ totals.shortage)

-- An account that is looked up only where there is something to book on it.
abbrev pub resolve_if : Bool → Option ℕ → ActionOn StockDb ℕ
resolve_if needed found = if needed then or_throw found unmapped_account else pure 0

abbrev pub count_command :
    StockCount → StockActor → ℕ → Text → ℕ → Text → List JournalLineInput → PostingCommand
count_command count actor correlation_id key period_id currency lines = record {
  company_id = actor.company_id;
  fiscal_period_id = period_id;
  entry_date = count.document_date;
  posting_date = count.document_date;
  currency = currency;
  exchange_rate = none;
  lines = lines;
  source_module = codes "inventory";
  source_document_type = codes "stock_count";
  source_document_id = count.id;
  actor_id = actor.id;
  correlation_id = correlation_id;
  idempotency_key = key;
}

-- `stockCountLine.update` of every line of the count.
abbrev pub mark_lines : ℕ → ℕ → List StockCountLine → List StockCountLine
mark_lines count_id entry_id [] = []
mark_lines count_id entry_id (l ∷ ls) =
    (if l.stock_count_id == count_id then record l { journal_entry_id = some entry_id } else l)
    ∷ mark_lines count_id entry_id ls

abbrev pub lines_of_count : ℕ → List StockCountLine → List StockCountLine
lines_of_count count_id [] = []
lines_of_count count_id (l ∷ ls) =
    if l.stock_count_id == count_id
    then l ∷ lines_of_count count_id ls
    else lines_of_count count_id ls

-- `stockCount.update`: the row with the id.
abbrev pub mark_count : ℕ → ℕ → List StockCount → List StockCount
mark_count id now [] = []
mark_count id now (c ∷ cs) =
    (if c.id == id then record c { posted_at = some now } else c) ∷ mark_count id now cs

-- The count of the company, not yet posted.
unfoldable pub unposted_count : ℕ → StockActor → ActionOn StockDb StockCount
unposted_count count_id actor = do
  found ←
      gets
        λ db. find (λ c. (c.id == count_id) && (c.company_id == actor.company_id)) db.stock_counts
  count ← or_throw found (stock_error count_not_found)
  require (not (is_there count.posted_at)) (stock_error count_already_posted)
  pure count

module _ (m : Arithmetic) where
  open m use {column4}

  unfoldable pub adjust_line : ℕ → ℕ → StockCountLine → ActionOn StockDb CountAdjustmentResult
  adjust_line company_id warehouse_id line = do
    stock ← lock_stock_row company_id line.item_id warehouse_id
    adjustment ←
        adjusted_or_throw
          (apply_count_adjustment m stock.state line.counted_quantity line.unit_cost)
    save_stock_row m stock.id adjustment.state
    pure adjustment

  -- The loop over the lines of `post`.
  unfoldable pub adjust_lines :
      ℕ → ℕ → List StockCountLine → Variances → ActionOn StockDb (Variances × List MovedLine)
  adjust_lines company_id warehouse_id [] totals = pure (totals, [])
  adjust_lines company_id warehouse_id (line ∷ lines) totals = do
    adjustment ← adjust_line company_id warehouse_id line
    (sums, moved) ←
        adjust_lines company_id warehouse_id lines (add_variance adjustment.variance_value totals)
    pure (sums, note_moved line adjustment moved)

  -- `stockMovement.createMany`, with ids from `id` on.
  abbrev pub adjustment_rows :
      StockCount → StockActor → ℕ → ℕ → ℕ → List MovedLine → List StockMovement
  adjustment_rows count actor correlation_id entry_id id [] = []
  adjustment_rows count actor correlation_id entry_id id (l ∷ ls) =
      record {
        id = id;
        company_id = actor.company_id;
        item_id = l.item_id;
        warehouse_id = count.warehouse_id;
        movement_type = count_adjustment_movement;
        quantity = column4 l.variance;
        unit_cost = column4 l.unit_cost;
        value = column4 (max_ℤ l.variance_value (negated l.variance_value));
        source_document_type = codes "stock_count";
        source_document_id = count.id;
        journal_entry_id = entry_id;
        actor_id = actor.id;
        correlation_id = correlation_id;
      }
      ∷ adjustment_rows count actor correlation_id entry_id (suc id) ls

  -- The entry, the movements, and the entry's id on the lines.
  unfoldable pub book_entry :
      StockCount → StockActor → ℕ → List MovedLine → PostingCommand → ActionOn StockDb (Option ℕ)
  book_entry count actor correlation_id moved command = do
    posting ← on_ledger (post_entry_within m command)
    first ← take_ids (length moved)
    let rows = adjustment_rows count actor correlation_id posting.journal_entry_id first moved
    require (passes movement_check rows) constraint_violation
    modify λ db. record db {
      stock_movements = rows ++ db.stock_movements;
      stock_count_lines = mark_lines count.id posting.journal_entry_id db.stock_count_lines;
    }
    pure (some posting.journal_entry_id)

  unfoldable pub book_variances :
      StockCount → StockActor → ℕ → Text → Variances → List MovedLine → ActionOn StockDb (Option ℕ)
  book_variances count actor correlation_id key totals moved = do
    db ← gets λ db. db
    currency ← or_throw (company_currency actor.company_id db.companies) record_not_found
    period ←
        or_throw (find_open_fiscal_period actor.company_id count.document_date db.ledger)
          (stock_error stock_no_open_period)
    loss_id ←
        resolve_if (greater_than totals.shortage (pos 0))
          (resolve actor.company_id count_loss db.account_mappings)
    gain_id ←
        resolve_if (greater_than totals.surplus (pos 0))
          (resolve actor.company_id count_gain db.account_mappings)
    inventory_id ←
        or_throw (resolve actor.company_id inventory db.account_mappings) unmapped_account
    book_entry count actor correlation_id moved (
        count_command count actor correlation_id key period.id currency
          (entry_lines m loss_id gain_id inventory_id totals))

  unfoldable pub book_if_varied :
      StockCount → StockActor → ℕ → Text → Variances → List MovedLine → ActionOn StockDb (Option ℕ)
  book_if_varied count actor correlation_id key totals moved = elim (is_varied totals) [
    | true ↦ book_variances count actor correlation_id key totals moved
    | false ↦ pure none
  ]

  -- The one transaction; `now` is the clock.
  unfoldable pub post_count : ℕ → StockActor → ℕ → Text → ℕ → ActionOn StockDb StockCountPostResult
  post_count count_id actor correlation_id idempotency_key now = do
    count ← unposted_count count_id actor
    lines ← gets λ db. lines_of_count count_id db.stock_count_lines
    (totals, moved) ←
        adjust_lines actor.company_id count.warehouse_id lines
          (record { shortage = pos 0; surplus = pos 0 })
    entry_id ← book_if_varied count actor correlation_id idempotency_key totals moved
    modify λ db. record db { stock_counts = mark_count count_id now db.stock_counts }
    on_ledger commit
    pure (record { id = count_id; journal_entry_id = entry_id })
