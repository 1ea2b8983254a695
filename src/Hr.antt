-- ===== src/Hr.antt =====
-- Pay: packages/core/src/hr.
pub mod Gosi
pub mod Advances
pub mod Eosb
