-- ===== src/Accounting/Engine.antt =====
-- packages/core/src/accounting/accounting-engine.service.ts, with fiscal-period.util.ts: the one place
-- that writes journal entries.
pub mod Command
pub mod Constraints
pub mod Post
pub mod Reverse
pub mod Shape
pub mod Posted
pub mod Ledger
pub mod Soundness
pub mod Reversed
pub mod History
pub mod Promises
pub mod Complete
