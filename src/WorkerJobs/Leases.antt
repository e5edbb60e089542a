-- ===== src/WorkerJobs/Leases.antt =====
-- internal/store/worker_job.go and worker_job_lease.go: the creation of a job, and the lease of a pending
-- one with the maintenance before it.
use mossward.Common.{
  ◌+◌, Bool, true, false, ◌||◌, ◌&&◌, not, Option, none, some, List, [], ◌∷◌, ◌++◌, if◌then◌else◌,
  Text, text_eq, text_less, Time, Result, ok, ◌>>=◌, ◌>>◌, reject_if,
}
use mossward.WorkerJobs.Stamp.{stamp_less}
use mossward.WorkerJobs.Jobs.{
  WorkerJobStatus, pending, leased, expired, unknown, WorkerJob, JobRow, JobStore, StoreError,
  job_replay, lease_conflict, database, begin, query_job, insert_job, insert_assignment,
  expire_jobs, release_jobs, query_pending, lease_job, rows_affected, marshal, unmarshal, commit,
  Calls, step, settle, or_error, is_pending, is_leased, lease_over, find_job, update_job,
  update_jobs, succeeded,
}
use mossward.WorkerJobs.Quarantine.{end_lease, quarantine_repeated_jobs, quarantine}

-- The CHECK on the column `status`.
abbrev pub known_status : WorkerJobStatus → Bool
known_status (unknown t) = false
known_status _ = true

abbrev pub is_none {ℓ} : {A : Type ℓ} → Option A → Bool
is_none none = true
is_none (some a) = false

-- A new row has no lease and no result; its `result_outcome` and `completed_at` are read only where
-- there is a result.
unfoldable pub new_job : WorkerJob → Time → JobRow
new_job j now = record {
  id = j.id;
  worker_id = j.worker_id;
  scan_id = j.scan_id;
  status = j.status;
  job = j;
  expires_at = j.expires_at;
  created_at = now;
  lease_token_hash = none;
  lease_expires_at = none;
  lease_attempt = 0;
  result_id = none;
  result_outcome = succeeded;
  completed_at = 0;
}

unfoldable pub create_rows :
    Calls → JobStore → WorkerJob → Time → Result StoreError (Unit {0} × JobStore)
create_rows calls s j now = do
  step calls begin
  step calls query_job
  reject_if (not (is_none (find_job j.id s.jobs))) job_replay
  step calls marshal
  step calls insert_job
  reject_if (not (known_status j.status)) database
  step calls insert_assignment
  step calls commit
  ok (
    tt,
    record s {
      jobs = s.jobs ++ new_job j now ∷ [];
      assignments =
          s.assignments ++ record { job_id = j.id; attempt = 1; worker_id = j.worker_id } ∷ [];
    },
  )

-- CreateScannerWorkerJob
unfoldable pub create_job :
    Calls → JobStore → WorkerJob → Time → JobStore × Result StoreError (Unit {0})
unfolding create_rows
create_job calls s j now = settle s (create_rows calls s j now)

-- The two UPDATEs of the maintenance, as they find a row.
abbrev pub outlived : Text → Time → JobRow → Bool
outlived worker now r =
    text_eq r.worker_id worker
    && (is_pending r.status || is_leased r.status)
    && not (stamp_less now r.expires_at)

abbrev pub lapsed : Text → Time → JobRow → Bool
lapsed worker now r =
    text_eq r.worker_id worker
    && is_leased r.status
    && lease_over r.lease_expires_at now
    && stamp_less now r.expires_at

unfoldable pub expire_outlived : Text → Time → List JobRow → List JobRow
expire_outlived worker now rows = update_jobs (outlived worker now) (end_lease expired) rows

unfoldable pub release_lapsed : Text → Time → List JobRow → List JobRow
release_lapsed worker now rows = update_jobs (lapsed worker now) (end_lease pending) rows

unfoldable pub maintained : Text → Time → JobStore → JobStore
maintained worker now s =
    let q = quarantine_repeated_jobs worker now s in
    record q { jobs = release_lapsed worker now (expire_outlived worker now q.jobs) }

abbrev pub maintain : Calls → Text → Time → JobStore → Result StoreError JobStore
maintain calls worker now s = do
  q ← quarantine calls worker now s
  step calls expire_jobs
  step calls release_jobs
  ok (maintained worker now s)

-- `ORDER BY created_at,id LIMIT 1`
abbrev pub older : JobRow → JobRow → Bool
older r s =
    stamp_less r.created_at s.created_at
    || (not (stamp_less s.created_at r.created_at) && text_less r.id s.id)

abbrev pub oldest_of : JobRow → Option JobRow → Option JobRow
oldest_of r none = some r
oldest_of r (some s) = if older s r then some s else some r

abbrev pub waits : Text → Time → JobRow → Bool
waits worker now r =
    text_eq r.worker_id worker && is_pending r.status && stamp_less now r.expires_at

unfoldable pub oldest_pending : Text → Time → List JobRow → Option JobRow
oldest_pending worker now [] = none
oldest_pending worker now (r ∷ rs) =
    let rest = oldest_pending worker now rs in if waits worker now r then oldest_of r rest else rest

-- `CASE WHEN expires_at<? THEN expires_at ELSE ? END`
abbrev pub within_expiry : Time → Time → Time
within_expiry expires requested = if stamp_less expires requested then expires else requested

abbrev pub lease_row : Text → Time → JobRow → JobRow
lease_row hash until r = record r {
  status = leased;
  lease_token_hash = some hash;
  lease_expires_at = some (within_expiry r.expires_at until);
  lease_attempt = r.lease_attempt + 1;
}

-- The lease after the maintenance; `dispatching` says whether the join finds the worker and the
-- settings with dispatch enabled.
abbrev pub pick : Bool → Text → Time → List JobRow → Option JobRow
pick true worker now rows = oldest_pending worker now rows
pick false worker now rows = none

abbrev pub holds_pending : Text → JobRow → Bool
holds_pending worker r = text_eq r.worker_id worker && is_pending r.status

abbrev pub hand_out :
    Calls
    → Text
    → Text
    → Time
    → JobStore
    → Option JobRow
    → Result StoreError (Option WorkerJob × JobStore)
hand_out calls worker hash until s none = do step calls commit; ok (none, s)
hand_out calls worker hash until s (some r) = do
  step calls lease_job
  rows ←
      or_error (update_job r.id (holds_pending worker) (lease_row hash until) s.jobs) lease_conflict
  reject_if (not (calls rows_affected)) lease_conflict
  step calls unmarshal
  step calls commit
  ok (some r.job, record s { jobs = rows })

unfoldable pub lease_rows :
    Calls
    → Bool
    → JobStore
    → Text
    → Text
    → Time
    → Time
    → Result StoreError (Option WorkerJob × JobStore)
lease_rows calls dispatching s worker hash now until = do
  step calls begin
  m ← maintain calls worker now s
  step calls query_pending
  hand_out calls worker hash until m (pick dispatching worker now m.jobs)

-- LeaseScannerWorkerJob; `ok none` is its ErrNotFound, which keeps the maintenance.
unfoldable pub lease :
    Calls
    → Bool
    → JobStore
    → Text
    → Text
    → Time
    → Time
    → JobStore × Result StoreError (Option WorkerJob)
unfolding lease_rows
lease calls dispatching s worker hash now until =
    settle s (lease_rows calls dispatching s worker hash now until)
