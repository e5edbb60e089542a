-- ===== src/AgentUpdate.antt =====
-- internal/agentupdate: which version an agent updates to, and the transaction of an update.
pub mod Version
pub mod Upgrade
pub mod Transaction
pub mod Confirmation
mod Examples
