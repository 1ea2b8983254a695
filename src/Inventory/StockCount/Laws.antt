-- ===== src/Inventory/StockCount/Laws.antt =====
-- A count is posted once.
use markaz.Prelude.{ℕ, Bool, ◌&&◌, ◌==◌}
use markaz.Prelude.Text.{Text}
use markaz.Inventory.Stock.{StockCount}

-- The `where` of the lookup.
abbrev pub is_wanted : ℕ → ℕ → StockCount → Bool
is_wanted count_id company_id c = (c.id == count_id) && (c.company_id == company_id)
