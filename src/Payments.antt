-- ===== src/Payments.antt =====
-- Money owed and paid: packages/core/src/payments.
pub mod Outstanding
pub mod Command
pub mod Payment
pub mod Aging
