-- ===== src/Inventory/Perpetual.antt =====
-- The perpetual inventory: over issues and receipts (packages/core/src/inventory) the value of the
-- stock rows and the balance of the inventory account go together.
use markaz.Prelude.{◌≡◌, refl, ◌∙◌, ℕ, some, All}
use markaz.Prelude.Int.{int_laws}
use markaz.Prelude.Text.{Text}
use markaz.Decimals.{Arithmetic, IsArithmetic, IsScaled}
use markaz.Store.{ok}
use markaz.Accounting.Engine.Reversed.{net_of}
use markaz.Inventory.AccountMapping.{project_issue_expense, grni, resolve}
use markaz.Inventory.Stock.{StockDb, StockActor, StockDocumentResult}
use markaz.Inventory.StockRow.Laws.{stock_value}
use markaz.Inventory.StockRow.Moves.{IsStockTable}
use markaz.Inventory.StockDocument.Laws.{IsOrderly, gap}
use markaz.Inventory.StockIssue.{CreateStockIssueInput, create as create_issue}
use markaz.Inventory.StockIssue.Value.{create_value as create_issue_value}
use markaz.Inventory.GoodsReceipt.{CreateGoodsReceiptInput, create as create_receipt}
use markaz.Inventory.GoodsReceipt.Value.{create_value as create_receipt_value}

-- A document that was posted with a key of its own, in quantities of the column's scale, for a company
-- that books its stock on `account` and the other side elsewhere.
pub data Step (m : Arithmetic) (account : ℕ) : StockDb → StockDb → Type 0 where
  issues :
      {db db' : StockDb} (input : CreateStockIssueInput) (actor : StockActor) (correlation_id : ℕ)
      (key : Text) (expense : ℕ) (r : StockDocumentResult)
      → All (λ line. IsScaled m line.quantity) input.lines
      → IsOrderly actor.company_id key account expense db
      → resolve actor.company_id project_issue_expense db.account_mappings ≡ some expense
      → create_issue m input actor correlation_id key db ≡ ok (r, db')
      → Step m account db db'
  receives :
      {db db' : StockDb} (input : CreateGoodsReceiptInput) (actor : StockActor) (correlation_id : ℕ)
      (key : Text) (received : ℕ) (r : StockDocumentResult)
      → All (λ line. IsScaled m line.quantity) input.lines
      → IsOrderly actor.company_id key account received db
      → resolve actor.company_id grni db.account_mappings ≡ some received
      → create_receipt m input actor correlation_id key db ≡ ok (r, db')
      → Step m account db db'

pub data Reach (m : Arithmetic) (account : ℕ) : StockDb → StockDb → Type 0 where
  here : {db : StockDb} → Reach m account db db
  next :
      {db db1 db' : StockDb}
      → Step m account db db1
      → Reach m account db1 db'
      → Reach m account db db'

-- The stock is worth what the account says.
abbrev pub IsReconciled : ℕ → StockDb → Type 0
IsReconciled account db =
    stock_value db.item_warehouse_stock ≡ net_of account db.ledger.journal_entry_lines

module _ (m : Arithmetic) (laws : IsArithmetic m) (account : ℕ) where
  Step-gap :
      {db db' : StockDb}
      → Step m account db db'
      → IsStockTable m db
      → IsStockTable m db' × (gap account db' ≡ gap account db)
  Step-gap {db} {db'} (issues input actor correlation key expense r whole orderly charged e) h =
      create_issue_value m input actor correlation key laws account expense db db' r h whole orderly
        charged e
  Step-gap {db} {db'} (receives input actor correlation key received r whole orderly owed e) h =
      create_receipt_value m input actor correlation key laws account received db db' r h whole
        orderly owed e

  Reach-gap :
      {db db' : StockDb}
      → Reach m account db db'
      → IsStockTable m db
      → IsStockTable m db' × (gap account db' ≡ gap account db)
  Reach-gap here h = (h, refl)
  Reach-gap (next s rest) h =
      let (h1, first) = Step-gap s h in let (h2, others) = Reach-gap rest h1 in (h2, others ∙ first)

  -- Where the stock is worth what the inventory account says, it is so after any sequence of issues and
  -- receipts, and every stock row is in order: its quantity and its value are not negative, and an
  -- empty place is worth nothing. Each document has a key that no entry has, quantities of the column's
  -- scale, and an inventory account of its company other than the account on the other side.
  pub Reach-IsReconciled :
      {db db' : StockDb}
      → Reach m account db db'
      → IsStockTable m db
      → IsReconciled account db
      → IsStockTable m db' × IsReconciled account db'
  Reach-IsReconciled {db} {db'} steps h even =
      let (h', same) = Reach-gap steps h in (h', omega int_laws)
