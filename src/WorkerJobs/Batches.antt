-- ===== src/WorkerJobs/Batches.antt =====
-- The transactions that leave the evidence batches alone.
use mossward.Common.{◌≡◌, refl, ◌∙◌, ap, Bool, arith, Text, Time, Result, ok, err}
use mossward.WorkerJobs.Jobs.{JobStore, WorkerJob, Calls, StoreError}
use mossward.WorkerJobs.Leases.{lease, lease_rows, maintained, create_job, create_rows}
use mossward.WorkerJobs.Renewal.{renew, renew_rows}
use mossward.WorkerJobs.Quarantine.{quarantine_repeated_jobs}
use mossward.WorkerJobs.Results.{complete, completed_jobs, Receipt}
use mossward.WorkerJobs.Reassignment.{ResumeCandidate, resume_candidate, reassign, reassign_rows}
use mossward.WorkerJobs.Validation.{Addresses}
use mossward.WorkerJobs.Dispatch.{
  dispatch, reassign_expired, Fleet, create_assigned, reassign_assigned, resume_with,
  resume_expired, is_enabled, DispatchError,
}
use mossward.WorkerJobs.DispatchSteps.{stored-store}

pub lease-batches :
    (calls : Calls) (dispatching : Bool) (s : JobStore) (worker hash : Text) (now until : Time)
    → (lease calls dispatching s worker hash now until).0.batches ≡ s.batches
unfolding lease lease_rows maintained quarantine_repeated_jobs
lease-batches calls dispatching s worker hash now until = ground arith

pub renew-batches :
    (calls : Calls) (s : JobStore) (worker id hash : Text) (now until : Time)
    → (renew calls s worker id hash now until).0.batches ≡ s.batches
unfolding renew renew_rows
renew-batches calls s worker id hash now until = ground arith

pub create_job-batches :
    (calls : Calls) (s : JobStore) (j : WorkerJob) (now : Time)
    → (create_job calls s j now).0.batches ≡ s.batches
unfolding create_job create_rows
create_job-batches calls s j now = ground arith

pub complete-batches :
    (calls : Calls) (s : JobStore) (receipt : Receipt) (hash : Text) (now : Time)
    → (complete calls s receipt hash now).0.batches ≡ s.batches
unfolding complete completed_jobs
complete-batches calls s receipt hash now = ground arith

reassign-batches :
    (calls : Calls) (s : JobStore) (previous : Text) (j : WorkerJob) (now : Time)
    → (reassign calls s previous j now).0.batches ≡ s.batches
unfolding reassign reassign_rows
reassign-batches calls s previous j now = ground arith

resume_candidate-batches :
    (calls : Calls) (s : JobStore) (id : Text) (now : Time)
    → (resume_candidate calls s id now).0.batches ≡ s.batches
unfolding resume_candidate quarantine_repeated_jobs
resume_candidate-batches calls s id now = ground arith

create_assigned-batches :
    (calls : Calls) (s : JobStore) (now : Time) (x : Result DispatchError WorkerJob)
    → (create_assigned calls s now x).0.batches ≡ s.batches
create_assigned-batches calls s now (err e) = refl
create_assigned-batches calls s now (ok k) =
    ap (λ (t : JobStore). t.batches) (stored-store k (create_job calls s k now))
    ∙ create_job-batches calls s k now

reassign_assigned-batches :
    (calls : Calls) (s : JobStore) (previous : Text) (now : Time)
    (x : Result DispatchError WorkerJob)
    → (reassign_assigned calls s previous now x).0.batches ≡ s.batches
reassign_assigned-batches calls s previous now (err e) = refl
reassign_assigned-batches calls s previous now (ok k) =
    ap (λ (t : JobStore). t.batches) (stored-store k (reassign calls s previous k now))
    ∙ reassign-batches calls s previous k now

module _ {A P : Type 0} (net : Addresses A P) where
  resume_with-batches :
      (writes : Calls) (fleet : Fleet) (now : Time)
      (x : JobStore × Result StoreError ResumeCandidate)
      → (resume_with net writes fleet now x).0.batches ≡ x.0.batches
  resume_with-batches writes fleet now (t, err e) = refl
  resume_with-batches writes fleet now (t, ok c) =
      reassign_assigned-batches writes t c.job.worker_id now _

  resume_expired-batches :
      (reads writes : Calls) (fleet : Fleet) (s : JobStore) (id : Text) (now : Time)
      (x : Result DispatchError (Unit {0}))
      → (resume_expired net reads writes fleet s id now x).0.batches ≡ s.batches
  resume_expired-batches reads writes fleet s id now (err e) = refl
  resume_expired-batches reads writes fleet s id now (ok u) =
      resume_with-batches writes fleet now (resume_candidate reads s id now)
      ∙ resume_candidate-batches reads s id now

  pub dispatch-batches :
      (calls : Calls) (fleet : Fleet) (s : JobStore) (j : WorkerJob) (now : Time)
      → (dispatch net calls fleet s j now).0.batches ≡ s.batches
  unfolding dispatch
  dispatch-batches calls fleet s j now = create_assigned-batches calls s now _

  pub reassign_expired-batches :
      (reads writes : Calls) (fleet : Fleet) (s : JobStore) (id : Text) (now : Time)
      → (reassign_expired net reads writes fleet s id now).0.batches ≡ s.batches
  unfolding reassign_expired
  reassign_expired-batches reads writes fleet s id now =
      resume_expired-batches reads writes fleet s id now (is_enabled fleet)
