-- ===== src/RelayTransport/Queue.antt =====
-- internal/relaytransport/queue.go: the queue of encrypted frames in its SQLite table.
mod Defs
mod Rows
mod Table
mod Effects
pub mod Order
pub mod Leases
pub mod Delivery
pub mod Exclusion
pub mod Statistics
pub mod Admission
pub mod History
mod Examples
pub mod Invariant
pub use Defs.*
pub use Rows.*
