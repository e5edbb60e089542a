-- ===== src/CheckPolicy.antt =====
-- internal/checkpolicy and its rows in internal/store: who may run an intrusive check.
pub mod Policy
pub mod Stored
pub mod Grants
mod Examples
