-- ===== src/Inventory.antt =====
-- Stock: its valuation, its tables and its services.
pub mod WeightedAverage
pub mod AccountMapping
pub mod Stock
pub mod StockRow
pub mod StockDocument
pub mod StockIssue
pub mod GoodsReceipt
pub mod Perpetual
pub mod StockCount
