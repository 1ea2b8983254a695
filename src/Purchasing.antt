-- ===== src/Purchasing.antt =====
-- Purchasing: requests, receipts against orders, invoices.
pub mod InvoiceMath
pub mod PurchaseRequest
pub mod PurchaseOrder
pub mod PurchaseReceipt
pub mod OrderStates
