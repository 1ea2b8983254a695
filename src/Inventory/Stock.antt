-- ===== src/Inventory/Stock.antt =====
-- The tables that the stock services read and write, and the checks that the services share
-- (packages/core/src/inventory: stock-issue.service.ts, goods-receipt.service.ts).
use markaz.Prelude.{ℕ, ◌+◌, Bool, true, false, ◌&&◌, Option, none, some, List, [], ◌∷◌, ◌==◌}
use markaz.Prelude.Int.{pos, leb_ℤ}
use markaz.Prelude.Text.{Text}
use markaz.Decimals.{Decimal, greater_than}
use markaz.Store.{Db, ok, err, Action, ActionOn, find}
use markaz.Accounting.FiscalYear.{Company}
use markaz.Inventory.AccountMapping.{AccountMapping}

-- What the services read of a warehouse and of an item.
pub record Warehouse : Type 0 where
  pub id : ℕ
  pub company_id : ℕ
  pub is_active : Bool

pub record Item : Type 0 where
  pub id : ℕ
  pub company_id : ℕ
  pub is_active : Bool

pub record ItemWarehouseStock : Type 0 where
  pub id : ℕ
  pub company_id : ℕ
  pub item_id : ℕ
  pub warehouse_id : ℕ
  pub quantity : Decimal
  pub value : Decimal
  pub version : ℕ

pub data MovementType : Type 0 where
  receipt_movement issue_movement count_adjustment_movement return_movement : MovementType

pub record StockMovement : Type 0 where
  pub id : ℕ
  pub company_id : ℕ
  pub item_id : ℕ
  pub warehouse_id : ℕ
  pub movement_type : MovementType
  pub quantity : Decimal
  pub unit_cost : Decimal
  pub value : Decimal
  pub source_document_type : Text
  pub source_document_id : ℕ
  pub journal_entry_id : ℕ
  pub actor_id : ℕ
  pub correlation_id : ℕ

pub record CostLayer : Type 0 where
  pub id : ℕ
  pub company_id : ℕ
  pub item_id : ℕ
  pub warehouse_id : ℕ
  pub received_at : ℕ
  pub quantity_received : Decimal
  pub quantity_remaining : Decimal
  pub unit_cost : Decimal
  pub source_document_id : ℕ

pub record StockIssue : Type 0 where
  pub id : ℕ
  pub company_id : ℕ
  pub number : Text
  pub warehouse_id : ℕ
  pub cost_center_ref : Text
  pub document_date : ℕ
  pub journal_entry_id : ℕ
  pub actor_id : ℕ
  pub correlation_id : ℕ

pub record GoodsReceipt : Type 0 where
  pub id : ℕ
  pub company_id : ℕ
  pub number : Text
  pub warehouse_id : ℕ
  pub party_id : Option ℕ
  pub purchase_order_id : Option ℕ
  pub document_date : ℕ
  pub reference : Option Text
  pub journal_entry_id : ℕ
  pub actor_id : ℕ
  pub correlation_id : ℕ

-- A row of stock_issue_lines or of goods_receipt_lines; only a receipt's names a line of an order.
pub record StockDocumentLine : Type 0 where
  pub id : ℕ
  pub document_id : ℕ
  pub item_id : ℕ
  pub quantity : Decimal
  pub unit_cost : Decimal
  pub value : Decimal
  pub line_number : ℕ
  pub purchase_order_line_id : Option ℕ

pub record StockCount : Type 0 where
  pub id : ℕ
  pub company_id : ℕ
  pub number : Text
  pub warehouse_id : ℕ
  pub document_date : ℕ
  pub posted_at : Option ℕ
  pub actor_id : ℕ
  pub correlation_id : ℕ

pub record StockCountLine : Type 0 where
  pub id : ℕ
  pub stock_count_id : ℕ
  pub item_id : ℕ
  pub system_quantity : Decimal
  pub counted_quantity : Decimal
  pub unit_cost : Decimal
  pub journal_entry_id : Option ℕ
  pub line_number : ℕ

pub record StockDb : Type 0 where
  pub ledger : Db
  pub companies : List Company
  pub account_mappings : List AccountMapping
  pub warehouses : List Warehouse
  pub items : List Item
  pub item_warehouse_stock : List ItemWarehouseStock
  pub stock_issues : List StockIssue
  pub stock_issue_lines : List StockDocumentLine
  pub goods_receipts : List GoodsReceipt
  pub goods_receipt_lines : List StockDocumentLine
  pub stock_counts : List StockCount
  pub stock_count_lines : List StockCountLine
  pub stock_movements : List StockMovement
  pub cost_layers : List CostLayer

pub record StockActor : Type 0 where
  pub id : ℕ
  pub company_id : ℕ

pub record StockDocumentResult : Type 0 where
  pub id : ℕ
  pub number : Text
  pub journal_entry_id : ℕ

-- What the loop over the lines notes of each.
pub record LineRecord : Type 0 where
  pub item_id : ℕ
  pub quantity : Decimal
  pub unit_cost : Decimal
  pub value : Decimal
  pub purchase_order_line_id : Option ℕ

-- A step of the engine, on its part of the tables.
abbrev pub on_ledger : {A : Type 0} → Action A → ActionOn StockDb A
on_ledger act db = elim (act db.ledger) [
  | ok (a, ledger) ↦ ok (a, record db { ledger = ledger })
  | err e ↦ err e
]

abbrev pub is_there : {A : Type 0} → Option A → Bool
is_there none = false
is_there (some a) = true

-- `n` calls of `newId()`: the first of the ids.
abbrev pub take_ids : ℕ → ActionOn StockDb ℕ
take_ids n db =
    ok (
      db.ledger.next_id,
      record db { ledger = record db.ledger { next_id = db.ledger.next_id + n } },
    )

abbrev pub has_warehouse : ℕ → ℕ → StockDb → Bool
has_warehouse company_id id db =
    is_there
      (find (λ w. (w.id == id) && ((w.company_id == company_id) && w.is_active)) db.warehouses)

-- The loop over the items that the lines name. (The source drops repeated ids first; a second look at
-- an item finds the same.)
abbrev pub has_items : ℕ → List ℕ → StockDb → Bool
has_items company_id [] db = true
has_items company_id (id ∷ ids) db =
    is_there (find (λ i. (i.id == id) && ((i.company_id == company_id) && i.is_active)) db.items)
    && has_items company_id ids db

-- The CHECKs on a line of an issue or a receipt, and on a movement.
abbrev pub document_line_check : StockDocumentLine → Bool
document_line_check l = greater_than l.quantity (pos 0) && leb_ℤ (pos 0) l.unit_cost

abbrev pub passes {ℓ} : {A : Type ℓ} → (A → Bool) → List A → Bool
passes check [] = true
passes check (x ∷ xs) = check x && passes check xs

abbrev pub movement_check : StockMovement → Bool
movement_check movement = leb_ℤ (pos 0) movement.unit_cost

abbrev pub layer_check : CostLayer → Bool
layer_check layer =
    greater_than layer.quantity_received (pos 0)
    && (leb_ℤ (pos 0) layer.quantity_remaining && leb_ℤ (pos 0) layer.unit_cost)
