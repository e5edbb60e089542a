-- ===== src/WorkerJobs.antt =====
-- The jobs of the scanner workers: their tables in internal/store, where a worker leases, renews and
-- completes a job, and internal/workerjob, which chooses the worker.
pub mod Stamp
pub mod Jobs
pub mod Quarantine
pub mod Leases
pub mod Renewal
pub mod Evidence
pub mod Results
pub mod Reassignment
pub mod Validation
pub mod Dispatch
pub mod History
pub mod Lookup
pub mod Moves
pub mod Maintenance
pub mod Steps
pub mod Sweeps
pub mod Selection
pub mod LeaseSteps
pub mod EvidenceSteps
pub mod DispatchSteps
pub mod ReassignSteps
pub mod Refinement
pub mod Polling
pub mod Fairness
pub mod Completion
pub mod Batches
pub mod Sequences
pub mod Scope
pub mod Assignment
mod Examples
