-- ===== src/WorkerJobs/Results.antt =====
-- internal/store/worker_result.go and worker_projection.go: the result that completes a job.
use mossward.Common.{
  ℕ, codes, ◌+◌, ◌*◌, Bool, true, false, ◌||◌, ◌&&◌, not, Option, none, some, List, [], ◌∷◌, ◌==◌,
  if◌then◌else◌, length, Text, text_eq, Time, Result, ok, err, ◌>>=◌, ◌>>◌, reject_if,
}
use mossward.WorkerJobs.Jobs.{
  WorkerJob, ResultOutcome, succeeded, failed, was_canceled, other_outcome, JobRow, ScanRow,
  ScanStatus, scan_completed, scan_failed, scan_canceled, BatchRow, CheckpointRow, JobStore,
  StoreError, invalid_lease, already_accepted, result_replay, database, begin, unmarshal, query_job,
  count_checkpoints, query_result, complete_job, rows_affected, commit, rollback, project, Calls,
  step, or_error, find_job, update_job, completed,
}
use mossward.WorkerJobs.Renewal.{holds_lease}
use mossward.WorkerJobs.Quarantine.{end_lease}

pub record Receipt : Type 0 where
  pub result_id : Text
  pub job_id : Text
  pub worker_id : Text
  pub outcome : ResultOutcome
  pub completed_at : Time

abbrev pub is_succeeded : ResultOutcome → Bool
is_succeeded succeeded = true
is_succeeded _ = false

abbrev pub outcome_eq : ResultOutcome → ResultOutcome → Bool
outcome_eq succeeded succeeded = true
outcome_eq failed failed = true
outcome_eq was_canceled was_canceled = true
outcome_eq (other_outcome s) (other_outcome t) = text_eq s t
outcome_eq _ _ = false

unfoldable pub checkpoint_count : Text → List CheckpointRow → ℕ
checkpoint_count job [] = 0
checkpoint_count job (c ∷ cs) = (if text_eq c.job_id job then 1 else 0) + checkpoint_count job cs

abbrev pub expected_checks : WorkerJob → ℕ
expected_checks j = length j.targets * length j.ports

-- workerJobCheckpointsComplete; a job that is not there is not complete.
unfoldable pub checkpoints_complete : Calls → JobStore → Receipt → Result StoreError (Unit {0})
checkpoints_complete calls s receipt = do
  step calls query_job
  r ← or_error (find_job receipt.job_id s.jobs) invalid_lease
  step calls unmarshal
  reject_if (expected_checks r.job == 0) invalid_lease
  step calls count_checkpoints
  reject_if (not (checkpoint_count receipt.job_id s.checkpoints == expected_checks r.job))
      invalid_lease

-- `WHERE result_id=?`
abbrev pub result_is : Text → Option Text → Bool
result_is id none = false
result_is id (some r) = text_eq r id

unfoldable pub find_result : Text → List JobRow → Option JobRow
find_result id [] = none
find_result id (r ∷ rs) = if result_is id r.result_id then some r else find_result id rs

-- The result that is there already, as the receipt gives it again.
abbrev pub same_result : Receipt → JobRow → Bool
same_result receipt r =
    text_eq r.id receipt.job_id
    && text_eq r.worker_id receipt.worker_id
    && outcome_eq r.result_outcome receipt.outcome
    && r.completed_at == receipt.completed_at

-- `EXISTS(SELECT 1 ... WHERE job_id=? AND final=1)`
unfoldable pub has_final : Text → List BatchRow → Bool
has_final job [] = false
has_final job (b ∷ bs) = (text_eq b.job_id job && b.final) || has_final job bs

abbrev pub may_complete : Receipt → Text → Time → List BatchRow → JobRow → Bool
may_complete receipt hash now batches r =
    holds_lease receipt.worker_id hash now r
    && (not (is_succeeded receipt.outcome) || has_final receipt.job_id batches)

abbrev pub complete_row : Receipt → JobRow → JobRow
complete_row receipt r = record (end_lease completed r) {
  result_id = some receipt.result_id;
  result_outcome = receipt.outcome;
  completed_at = receipt.completed_at;
}

-- projectedScanOutcome
abbrev pub projected_status : ResultOutcome → ScanStatus
projected_status succeeded = scan_completed
projected_status was_canceled = scan_canceled
projected_status _ = scan_failed

abbrev pub projected_error : ResultOutcome → Text
projected_error succeeded = []
projected_error was_canceled = []
projected_error _ = codes "remote scanner-worker execution failed"

-- workerScanStartedAt
abbrev pub scan_started_at : Option Time → Time → Option Time
scan_started_at none issued_at = some issued_at
scan_started_at (some t) issued_at = some t

-- The scan of the job, of which `done` checks are done.
unfoldable pub project_scan : WorkerJob → ℕ → Receipt → List ScanRow → List ScanRow
project_scan job done receipt [] = []
project_scan job done receipt (c ∷ cs) =
    (if text_eq c.id job.scan_id
      then record c {
        status = projected_status receipt.outcome;
        error = projected_error receipt.outcome;
        done_checks = done;
        started_at = scan_started_at c.started_at job.issued_at;
        completed_at = some receipt.completed_at;
      }
      else c)
    ∷ project_scan job done receipt cs

abbrev pub scan_of : Option JobRow → ℕ → List ScanRow → Receipt → List ScanRow
scan_of none done scans receipt = scans
scan_of (some r) done scans receipt = project_scan r.job done receipt scans

-- projectScannerWorkerResult without the observations, findings, checkpoints and matches that it copies
-- into the scan; it fails where one of its calls fails, a missing scan included.
abbrev pub project_result :
    Calls
    → JobStore
    → Receipt
    → Result StoreError (Unit {0})
    → JobStore × Result StoreError (Unit {0})
project_result calls s receipt answer =
    if calls project
    then (
      record s {
        scans =
            scan_of (find_job receipt.job_id s.jobs) (checkpoint_count receipt.job_id s.checkpoints)
              s.scans receipt;
      },
      answer,
    )
    else (s, err database)

unfoldable pub completed_jobs :
    Calls → JobStore → Receipt → Text → Time → Result StoreError (List JobRow)
completed_jobs calls s receipt hash now = do
  step calls complete_job
  step calls rows_affected
  rows ←
      or_error
        (update_job receipt.job_id (may_complete receipt hash now s.batches) (complete_row receipt)
          s.jobs)
        invalid_lease
  step calls commit
  ok rows

abbrev pub complete_new :
    Calls
    → JobStore
    → Receipt
    → Result StoreError (List JobRow)
    → JobStore × Result StoreError (Unit {0})
complete_new calls s receipt (err e) = (s, err e)
complete_new calls s receipt (ok rows) =
    project_result calls (record s { jobs = rows }) receipt (ok tt)

abbrev pub complete_found :
    Calls
    → JobStore
    → Receipt
    → Text
    → Time
    → Option JobRow
    → JobStore × Result StoreError (Unit {0})
complete_found calls s receipt hash now none =
    complete_new calls s receipt (completed_jobs calls s receipt hash now)
complete_found calls s receipt hash now (some r) =
    if not (same_result receipt r)
    then (s, err result_replay)
    else if calls rollback
    then project_result calls s receipt (err already_accepted)
    else (s, err database)

-- The checks before the UPDATE.
abbrev pub before_completion : Calls → JobStore → Receipt → Result StoreError (Unit {0})
before_completion calls s receipt = do
  step calls begin
  if is_succeeded receipt.outcome then checkpoints_complete calls s receipt else ok tt
  step calls query_result

abbrev pub complete_checked :
    Calls
    → JobStore
    → Receipt
    → Text
    → Time
    → Result StoreError (Unit {0})
    → JobStore × Result StoreError (Unit {0})
complete_checked calls s receipt hash now (err e) = (s, err e)
complete_checked calls s receipt hash now (ok u) =
    complete_found calls s receipt hash now (find_result receipt.result_id s.jobs)

-- CompleteScannerWorkerJob
unfoldable pub complete :
    Calls → JobStore → Receipt → Text → Time → JobStore × Result StoreError (Unit {0})
unfolding completed_jobs checkpoints_complete
complete calls s receipt hash now =
    complete_checked calls s receipt hash now (before_completion calls s receipt)
