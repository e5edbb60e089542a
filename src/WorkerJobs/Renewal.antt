-- ===== src/WorkerJobs/Renewal.antt =====
-- internal/store/worker_job_renewal.go: the renewal of a lease.
use mossward.Common.{
  Bool, ◌&&◌, not, Option, none, some, if◌then◌else◌, Text, text_eq, Time, Result, ok, ◌>>=◌, ◌>>◌,
  reject_if,
}
use mossward.WorkerJobs.Stamp.{stamp_less}
use mossward.WorkerJobs.Jobs.{
  JobRow, JobStore, StoreError, invalid_lease, begin, rows_affected, commit, renew_job, query_lease,
  Calls, step, settle, or_error, is_leased, lease_runs, hash_is, find_job, update_job,
}

-- The rows that a worker with the token holds under a lease that runs.
abbrev pub holds_lease : Text → Text → Time → JobRow → Bool
holds_lease worker hash now r =
    text_eq r.worker_id worker
    && is_leased r.status
    && hash_is r.lease_token_hash hash
    && lease_runs r.lease_expires_at now
    && stamp_less now r.expires_at

-- `CASE WHEN expires_at<? THEN expires_at WHEN lease_expires_at>? THEN lease_expires_at ELSE ? END`
abbrev pub later_lease : Option Time → Time → Time
later_lease none requested = requested
later_lease (some t) requested = if stamp_less requested t then t else requested

abbrev pub renewed_until : JobRow → Time → Time
renewed_until r requested =
    if stamp_less r.expires_at requested
    then r.expires_at
    else later_lease r.lease_expires_at requested

abbrev pub renew_row : Time → JobRow → JobRow
renew_row requested r = record r { lease_expires_at = some (renewed_until r requested) }

abbrev pub lease_end : Option JobRow → Option Time
lease_end none = none
lease_end (some r) = r.lease_expires_at

unfoldable pub renew_rows :
    Calls → JobStore → Text → Text → Text → Time → Time → Result StoreError (Time × JobStore)
renew_rows calls s worker id hash now requested = do
  step calls begin
  step calls renew_job
  rows ←
      or_error (update_job id (holds_lease worker hash now) (renew_row requested) s.jobs)
        invalid_lease
  reject_if (not (calls rows_affected)) invalid_lease
  step calls query_lease
  until ← or_error (lease_end (find_job id rows)) invalid_lease
  step calls commit
  ok (until, record s { jobs = rows })

-- RenewScannerWorkerJobLease
unfoldable pub renew :
    Calls → JobStore → Text → Text → Text → Time → Time → JobStore × Result StoreError Time
unfolding renew_rows
renew calls s worker id hash now requested =
    settle s (renew_rows calls s worker id hash now requested)
