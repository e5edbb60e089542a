-- ===== src/WorkerJobs/Reassignment.antt =====
-- internal/store/worker_reassignment.go: a job whose lease has lapsed goes to another worker.
use mossward.Common.{
  ℕ, ◌+◌, Bool, false, ◌||◌, ◌&&◌, not, Option, none, some, List, [], ◌∷◌, ◌++◌, ltb, leb, ◌==◌,
  if◌then◌else◌, length, Text, text_eq, text_less, Time, Result, ok, err, ◌>>=◌, ◌>>◌, reject_if,
  ltb_ℤ,
}
use mossward.WorkerJobs.Stamp.{stamp_less}
use mossward.WorkerJobs.Jobs.{
  WorkerJob, WorkerJobResume, WorkerCheckpoint, JobRow, CheckpointRow, AssignmentRow, JobStore,
  StoreError, not_resumable, quarantined, database, begin, marshal, unmarshal, query_candidate,
  query_checkpoints, query_last, count_checkpoints, reassign_job, rows_affected, query_attempt,
  insert_assignment, commit, Calls, step, settle, or_error, is_leased, lease_over, find_job,
  update_job, pending,
}
use mossward.WorkerJobs.Quarantine.{quarantine, maximum_worker_lease_attempts, end_lease}
use mossward.WorkerJobs.Evidence.{last_batch, sequence_of}
use mossward.WorkerJobs.Results.{checkpoint_count, expected_checks}

pub record ResumeCandidate : Type 0 where
  pub job : WorkerJob
  pub completed : List WorkerCheckpoint
  pub next_evidence_sequence : ℕ

-- `status='leased' AND lease_expires_at<=? AND expires_at>?`
abbrev pub has_lapsed : Time → JobRow → Bool
has_lapsed now r =
    is_leased r.status && lease_over r.lease_expires_at now && stamp_less now r.expires_at

-- `ORDER BY address,port`
abbrev pub checkpoint_before : CheckpointRow → CheckpointRow → Bool
checkpoint_before c d =
    text_less c.address d.address || (text_eq c.address d.address && ltb_ℤ c.port d.port)

unfoldable pub insert_checkpoint_row : CheckpointRow → List CheckpointRow → List CheckpointRow
insert_checkpoint_row c [] = c ∷ []
insert_checkpoint_row c (d ∷ ds) =
    let rest = insert_checkpoint_row c ds in if checkpoint_before d c then d ∷ rest else c ∷ d ∷ ds

unfoldable pub job_checkpoints : Text → List CheckpointRow → List CheckpointRow
unfolding insert_checkpoint_row
job_checkpoints job [] = []
job_checkpoints job (c ∷ cs) =
    let rest = job_checkpoints job cs in
    if text_eq c.job_id job then insert_checkpoint_row c rest else rest

abbrev pub as_checkpoints : List CheckpointRow → List WorkerCheckpoint
as_checkpoints [] = []
as_checkpoints (c ∷ cs) =
    record { address = c.address; port = c.port; completed_at = c.completed_at } ∷ as_checkpoints cs

-- scannerWorkerCheckpoints
unfoldable pub worker_checkpoints : Text → List CheckpointRow → List WorkerCheckpoint
unfolding job_checkpoints
worker_checkpoints job rows = as_checkpoints (job_checkpoints job rows)

abbrev pub lapsed_job : Time → Option JobRow → Option JobRow
lapsed_job now none = none
lapsed_job now (some r) = if has_lapsed now r then some r else none

-- The candidate of a row whose attempts are not used up. Nothing is written.
abbrev pub candidate_of : Calls → JobStore → JobRow → Result StoreError ResumeCandidate
candidate_of calls s r = do
  step calls unmarshal
  step calls query_checkpoints
  let completed = worker_checkpoints r.id s.checkpoints
  reject_if (leb (expected_checks r.job) (length completed)) not_resumable
  step calls query_last
  ok (record {
    job = r.job;
    completed = completed;
    next_evidence_sequence = sequence_of (last_batch r.id s.batches) + 1;
  })

abbrev pub keep_store {ℓ} :
    {A : Type ℓ} → JobStore → Result StoreError A → JobStore × Result StoreError A
keep_store s r = (s, r)

-- The quarantine is committed, and the answer is an error.
abbrev pub quarantine_commit :
    Calls → JobStore → Result StoreError JobStore → JobStore × Result StoreError ResumeCandidate
quarantine_commit calls s (err e) = (s, err e)
quarantine_commit calls s (ok q) = if calls commit then (q, err quarantined) else (s, err database)

abbrev pub candidate_row :
    Calls → JobStore → Time → Option JobRow → JobStore × Result StoreError ResumeCandidate
candidate_row calls s now none = (s, err not_resumable)
candidate_row calls s now (some r) =
    if leb maximum_worker_lease_attempts r.lease_attempt
    then quarantine_commit calls s (quarantine calls r.worker_id now s)
    else keep_store s (candidate_of calls s r)

-- ScannerWorkerJobResumeCandidate
unfoldable pub resume_candidate :
    Calls → JobStore → Text → Time → JobStore × Result StoreError ResumeCandidate
resume_candidate calls s id now =
    if not (calls begin && calls query_candidate)
    then (s, err database)
    else candidate_row calls s now (lapsed_job now (find_job id s.jobs))

abbrev pub resumes_from : Text → Option WorkerJobResume → Bool
resumes_from previous none = false
resumes_from previous (some r) = text_eq r.previous_worker_id previous

abbrev pub agrees_with : ℕ → ℕ → Option WorkerJobResume → Bool
agrees_with last count none = false
agrees_with last count (some r) =
    r.next_evidence_sequence == last + 1 && length r.completed == count

-- `SELECT COALESCE(MAX(attempt),0) ... WHERE job_id=?`
unfoldable pub last_attempt : Text → List AssignmentRow → ℕ
last_attempt job [] = 0
last_attempt job (a ∷ as') =
    let rest = last_attempt job as' in
    if text_eq a.job_id job && ltb rest a.attempt then a.attempt else rest

abbrev pub reassignable : Text → Time → JobRow → Bool
reassignable previous now r = text_eq r.worker_id previous && has_lapsed now r

abbrev pub reassign_row : WorkerJob → JobRow → JobRow
reassign_row j r = record (end_lease pending r) { worker_id = j.worker_id; job = j }

unfoldable pub reassign_rows :
    Calls → JobStore → Text → WorkerJob → Time → Result StoreError (Unit {0} × JobStore)
reassign_rows calls s previous j now = do
  reject_if (not (resumes_from previous j.resume)) not_resumable
  step calls marshal
  step calls begin
  step calls query_last
  step calls count_checkpoints
  reject_if
      (not (
        agrees_with (sequence_of (last_batch j.id s.batches)) (checkpoint_count j.id s.checkpoints)
          j.resume))
      not_resumable
  step calls reassign_job
  rows ←
      or_error (update_job j.id (reassignable previous now) (reassign_row j) s.jobs) not_resumable
  reject_if (not (calls rows_affected)) not_resumable
  step calls query_attempt
  step calls insert_assignment
  step calls commit
  ok (
    tt,
    record s {
      jobs = rows;
      assignments =
          s.assignments
          ++ record {
            job_id = j.id;
            attempt = last_attempt j.id s.assignments + 1;
            worker_id = j.worker_id;
          }
            ∷ [];
    },
  )

-- ReassignScannerWorkerJob
unfoldable pub reassign :
    Calls → JobStore → Text → WorkerJob → Time → JobStore × Result StoreError (Unit {0})
unfolding reassign_rows
reassign calls s previous j now = settle s (reassign_rows calls s previous j now)
