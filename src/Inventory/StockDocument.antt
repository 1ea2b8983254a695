-- ===== src/Inventory/StockDocument.antt =====
-- What a stock issue and a goods receipt write alike: the command of their entry, the rows of their
-- lines and of their movements (`create` of packages/core/src/inventory/stock-issue.service.ts and
-- `createIn` of goods-receipt.service.ts).
pub mod Laws
use markaz.Prelude.{ℕ, suc, ◌≡◌, ◌+◌, ◌&&◌, Option, none, List, [], ◌∷◌, ◌++◌, length, map}
use markaz.Prelude.Text.{Text, codes}
use markaz.Decimals.{Decimal, Arithmetic}
use markaz.Accounting.Engine.Command.{PostingCommand, debit_input, credit_input}
use markaz.Inventory.Stock.{MovementType, StockMovement, StockDocumentLine, StockActor, LineRecord}

-- What the entry of a document names besides its amount.
pub record PostingContext : Type 0 where
  pub fiscal_period_id : ℕ
  pub currency : Text
  pub debit_account_id : ℕ
  pub credit_account_id : ℕ

abbrev pub posting_command :
    Text → Text → ℕ → StockActor → ℕ → Text → PostingContext → Decimal → ℕ → PostingCommand
posting_command document_type description date actor correlation_id key context amount id = record {
  company_id = actor.company_id;
  fiscal_period_id = context.fiscal_period_id;
  entry_date = date;
  posting_date = date;
  currency = context.currency;
  exchange_rate = none;
  lines =
      debit_input context.debit_account_id amount description
      ∷ credit_input context.credit_account_id amount description
      ∷ [];
  source_module = codes "inventory";
  source_document_type = document_type;
  source_document_id = id;
  actor_id = actor.id;
  correlation_id = correlation_id;
  idempotency_key = key;
}

module _ (m : Arithmetic) where
  open m use {column4}

  -- `lines.create`, with ids from `id` on.
  abbrev pub document_lines : ℕ → ℕ → ℕ → List LineRecord → List StockDocumentLine
  document_lines document_id id line_number [] = []
  document_lines document_id id line_number (l ∷ ls) =
      record {
        id = id;
        document_id = document_id;
        item_id = l.item_id;
        quantity = column4 l.quantity;
        unit_cost = column4 l.unit_cost;
        value = column4 l.value;
        line_number = line_number;
        purchase_order_line_id = l.purchase_order_line_id;
      }
      ∷ document_lines document_id (suc id) (suc line_number) ls

  -- `stockMovement.createMany`, with ids from `id` on; `sign` is what the document does to the quantity.
  abbrev pub movement_rows :
      MovementType
      → (Decimal → Decimal)
      → Text
      → StockActor
      → ℕ
      → ℕ
      → ℕ
      → ℕ
      → ℕ
      → List LineRecord
      → List StockMovement
  movement_rows type sign document_type actor correlation_id warehouse_id document_id entry_id id
        [] =
      []
  movement_rows type sign document_type actor correlation_id warehouse_id document_id entry_id id
        (l ∷ ls) =
      record {
        id = id;
        company_id = actor.company_id;
        item_id = l.item_id;
        warehouse_id = warehouse_id;
        movement_type = type;
        quantity = column4 (sign l.quantity);
        unit_cost = column4 l.unit_cost;
        value = column4 l.value;
        source_document_type = document_type;
        source_document_id = document_id;
        journal_entry_id = entry_id;
        actor_id = actor.id;
        correlation_id = correlation_id;
      }
      ∷ movement_rows type sign document_type actor correlation_id warehouse_id document_id entry_id
          (suc id) ls
