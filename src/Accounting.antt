-- ===== src/Accounting.antt =====
-- The accounting core: packages/core/src/accounting.
pub mod DecimalSum
pub mod Numbering
pub mod FiscalYear
pub mod Engine
pub mod TrialBalance
pub mod Statements
pub mod AccountCode
