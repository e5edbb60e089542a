-- ===== src/WorkerClient.antt =====
-- internal/workerclient: the scanner worker's encrypted outbox, its backpressure, the delays between
-- retries, and the ledger of claimed jobs.
pub mod Outbox
pub mod Backpressure
pub mod Retry
pub mod ReplayLedger
mod Examples
