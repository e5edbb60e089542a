-- ===== src/WorkerClient/Outbox.antt =====
-- internal/workerclient/outbox.go: the encrypted outbox in its SQLite table.
mod Defs
pub mod Fifo
pub mod Forwarding
unfoldable pub use Defs.*
