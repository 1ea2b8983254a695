-- ===== src/Sales.antt =====
-- Selling: packages/core/src/sales.
pub mod Lines
