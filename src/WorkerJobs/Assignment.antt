-- ===== src/WorkerJobs/Assignment.antt =====
-- internal/workerjob/dispatcher.go, Dispatch: the worker that a new job is given to.
use mossward.Common.{◌≡◌, ◌≤◌, ◌+◌, ◌⊎◌, leb_ℤ, ℤ, true, false, none, some, List, [], Time, sub_ℤ}
use mossward.WorkerJobs.Jobs.{JobStore, WorkerJob, find_job}
use mossward.WorkerJobs.Leases.{new_job}
use mossward.WorkerJobs.Validation.{is_healthy, Addresses, ScannerWorker}
use mossward.WorkerJobs.Dispatch.{Fleet, is_candidate, job_for_worker, job_load, better}
use mossward.WorkerJobs.Selection.{Listed, at_load}
use mossward.WorkerJobs.Scope.{InScope}

-- A worker that is healthy, was seen in the last five minutes, lasts as long as the job, and has the
-- concurrency left.
pub record Available (w : ScannerWorker) (j : WorkerJob) (reserved : ℤ) (now : Time) : Type 0 where
  pub allowed : w.dispatch_enabled ≡ true
  pub well : is_healthy w.health ≡ true
  pub last_seen : Time
  pub seen : w.last_seen_at ≡ some last_seen
  pub recent : now ≤ last_seen + 300_000_000_000
  pub lasts : j.expires_at ≤ w.expires_at
  pub site : (j.site_id ≡ []) ⊎ (w.site_id ≡ j.site_id)
  pub room : leb_ℤ j.max_concurrent (sub_ℤ w.available_concurrency reserved) ≡ true

-- The worker of a job that was dispatched.
pub record Assigned {A P : Type 0} (net : Addresses A P) (fleet : Fleet) (s t : JobStore)
    (j k : WorkerJob) (now : Time) : Type 0 where
  pub enabled : fleet.settings ≡ some true
  pub workers : List ScannerWorker
  pub all : fleet.workers ≡ some workers
  pub worker : ScannerWorker
  pub listed : Listed worker workers
  pub job : k ≡ job_for_worker j worker
  pub scope : InScope net k worker now
  pub available : Available worker j (job_load worker.id now s.jobs).reserved_concurrency now
  pub best :
      (v : ScannerWorker)
      → Listed v workers
      → is_candidate net j [] now v (job_load v.id now s.jobs) ≡ true
      → better (at_load now s.jobs v) (at_load now s.jobs worker) ≡ false
  pub signed : fleet.signs k ≡ true
  pub fresh : find_job k.id s.jobs ≡ none
  pub kept : find_job k.id t.jobs ≡ some (new_job k now)
