-- ===== src/Tests.antt =====
-- Runs of the code at concrete inputs.
pub mod FourPlaces
mod Engine
mod Reports
mod Documents
mod Receipts
mod Orders
mod Licence
mod Files
pub mod Stock
mod Chart
mod Counts
mod Receiving
