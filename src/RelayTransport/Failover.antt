-- ===== src/RelayTransport/Failover.antt =====
-- internal/relaytransport/failover.go: the controller that chooses among the approved routes.
mod Defs
pub mod Policy
pub mod Availability
pub mod Choice
pub mod Control
pub use Defs.*
mod Examples
