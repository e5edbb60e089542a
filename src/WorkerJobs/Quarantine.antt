-- ===== src/WorkerJobs/Quarantine.antt =====
-- internal/store/worker_dead_letter.go: the jobs whose leases lapsed too often.
use mossward.Common.{
  ℕ, codes, Bool, true, false, ◌||◌, ◌&&◌, not, none, some, List, [], ◌∷◌, ◌++◌, leb, if◌then◌else◌,
  Text, text_eq, Time, Result, ok, ◌>>◌,
}
use mossward.WorkerJobs.Stamp.{stamp_less}
use mossward.WorkerJobs.Jobs.{
  WorkerJobStatus, canceled, JobRow, DeadLetter, ScanRow, ScanStatus, queued, running, paused,
  scan_failed, JobStore, StoreError, quarantine_jobs, fail_scans, stop_jobs, rows_affected, Calls,
  step, is_leased, lease_over, update_jobs,
}

abbrev pub maximum_worker_lease_attempts : ℕ
maximum_worker_lease_attempts = 3

-- The rows that the INSERT of quarantineRepeatedWorkerJobs selects.
abbrev pub repeats : Text → Time → JobRow → Bool
repeats worker now r =
    text_eq r.worker_id worker
    && is_leased r.status
    && lease_over r.lease_expires_at now
    && stamp_less now r.expires_at
    && leb maximum_worker_lease_attempts r.lease_attempt

unfoldable pub is_dead : Text → List DeadLetter → Bool
is_dead id [] = false
is_dead id (d ∷ ds) = text_eq d.job_id id || is_dead id ds

-- `INSERT ... SELECT ... ON CONFLICT(job_id) DO NOTHING`
abbrev pub dead_letter : Time → JobRow → DeadLetter
dead_letter now r = record {
  job_id = r.id;
  scan_id = r.scan_id;
  worker_id = r.worker_id;
  failure_count = r.lease_attempt;
  quarantined_at = now;
}

unfoldable pub bury : Text → Time → List JobRow → List DeadLetter → List DeadLetter
bury worker now [] ds = ds
bury worker now (r ∷ rs) ds =
    bury worker now rs
      (if repeats worker now r && not (is_dead r.id ds) then ds ++ dead_letter now r ∷ [] else ds)

-- `id IN (SELECT scan_id FROM dead_letters WHERE worker_id=? AND quarantined_at=?)`
unfoldable pub buried_scan : Text → Time → Text → List DeadLetter → Bool
buried_scan worker now id [] = false
buried_scan worker now id (d ∷ ds) =
    (text_eq d.scan_id id
      && text_eq d.worker_id worker
      && not (stamp_less d.quarantined_at now)
      && not (stamp_less now d.quarantined_at))
    || buried_scan worker now id ds

abbrev pub is_open_scan : ScanStatus → Bool
is_open_scan queued = true
is_open_scan running = true
is_open_scan paused = true
is_open_scan _ = false

unfoldable pub fail_buried : Text → Time → List DeadLetter → List ScanRow → List ScanRow
fail_buried worker now ds [] = []
fail_buried worker now ds (c ∷ cs) =
    (if buried_scan worker now c.id ds && is_open_scan c.status
      then record c {
        status = scan_failed;
        error = codes "maximum expired lease attempts reached";
        completed_at = some now;
      }
      else c)
    ∷ fail_buried worker now ds cs

-- The status with no lease.
abbrev pub end_lease : WorkerJobStatus → JobRow → JobRow
end_lease status r = record r { status = status; lease_token_hash = none; lease_expires_at = none }

unfoldable pub quarantine_repeated_jobs : Text → Time → JobStore → JobStore
quarantine_repeated_jobs worker now s =
    let ds = bury worker now s.jobs s.dead_letters in
    record s {
      dead_letters = ds;
      scans = fail_buried worker now ds s.scans;
      jobs = update_jobs (λ r. is_dead r.id ds && is_leased r.status) (end_lease canceled) s.jobs;
    }

-- quarantineRepeatedWorkerJobs in a transaction.
abbrev pub quarantine : Calls → Text → Time → JobStore → Result StoreError JobStore
quarantine calls worker now s = do
  step calls quarantine_jobs
  step calls rows_affected
  step calls fail_scans
  step calls stop_jobs
  ok (quarantine_repeated_jobs worker now s)
