-- ===== src/WorkerJobs/Dispatch.antt =====
-- internal/workerjob/dispatcher.go, with ScannerWorkerJobLoads of internal/store/worker_job.go: the
-- choice of a worker for a new job, and for one whose lease has lapsed. The workers, the settings and
-- the signer are what the arguments of `Fleet` say; the mutex makes each call one step.
use mossward.Common.{
  ℕ, ◌+◌, Bool, true, false, ◌||◌, ◌&&◌, not, Option, none, some, List, [], ◌∷◌, ltb, ◌==◌,
  if◌then◌else◌, Text, text_eq, text_less, is_empty, Time, Result, ok, err, ◌>>=◌, ◌>>◌, reject_if,
  ℤ, pos, ltb_ℤ, leb_ℤ, eq_ℤ, add_ℤ, sub_ℤ,
}
use mossward.WorkerJobs.Stamp.{stamp_less}
use mossward.WorkerJobs.Jobs.{
  WorkerJob, JobRow, JobStore, StoreError, Calls, pending, is_pending, is_leased,
}
use mossward.WorkerJobs.Leases.{create_job}
use mossward.WorkerJobs.Reassignment.{ResumeCandidate, resume_candidate, reassign}
use mossward.WorkerJobs.Validation.{
  Addresses, ScannerWorker, is_active, is_healthy, JobError, validate_job,
}

pub record WorkerJobLoad : Type 0 where
  pub active_jobs : ℕ
  pub reserved_concurrency : ℤ

abbrev pub counts : Text → Time → JobRow → Bool
counts worker now r =
    text_eq r.worker_id worker
    && (is_pending r.status || is_leased r.status)
    && stamp_less now r.expires_at

abbrev pub add_load : JobRow → WorkerJobLoad → WorkerJobLoad
add_load r l = record {
  active_jobs = l.active_jobs + 1;
  reserved_concurrency = add_ℤ l.reserved_concurrency r.job.max_concurrent;
}

-- The entry of ScannerWorkerJobLoads for one worker.
unfoldable pub job_load : Text → Time → List JobRow → WorkerJobLoad
job_load worker now [] = record { active_jobs = 0; reserved_concurrency = pos 0 }
job_load worker now (r ∷ rs) =
    let rest = job_load worker now rs in if counts worker now r then add_load r rest else rest

-- jobForWorker
abbrev pub job_for_worker : WorkerJob → ScannerWorker → WorkerJob
job_for_worker j w = record j {
  worker_id = w.id;
  rate_limit_per_second =
      if eq_ℤ j.rate_limit_per_second (pos 0) && ltb_ℤ (pos 0) w.rate_limit_per_second
      then w.rate_limit_per_second
      else j.rate_limit_per_second;
}

abbrev pub is_fresh : Time → Option Time → Bool
is_fresh now none = false
is_fresh now (some t) = not (ltb (t + 300_000_000_000) now)

-- workerAvailableForAssignment
unfoldable pub available_for_assignment : ScannerWorker → WorkerJob → ℤ → Time → Bool
available_for_assignment w j remaining now =
    is_active w.status
    && w.dispatch_enabled
    && is_healthy w.health
    && is_fresh now w.last_seen_at
    && ltb now w.expires_at
    && not (ltb w.expires_at j.expires_at)
    && (is_empty j.site_id || text_eq w.site_id j.site_id)
    && leb_ℤ j.max_concurrent remaining

abbrev pub seen_or_zero : Option Time → Time
seen_or_zero none = 0
seen_or_zero (some t) = t

-- The order of `sort.Slice`, on two workers with their loads.
abbrev pub better : ScannerWorker × WorkerJobLoad → ScannerWorker × WorkerJobLoad → Bool
better (v, k) (w, l) =
    if not (k.active_jobs == l.active_jobs)
    then ltb k.active_jobs l.active_jobs
    else if not (
        eq_ℤ (sub_ℤ v.available_concurrency k.reserved_concurrency)
          (sub_ℤ w.available_concurrency l.reserved_concurrency))
    then ltb_ℤ (sub_ℤ w.available_concurrency l.reserved_concurrency)
        (sub_ℤ v.available_concurrency k.reserved_concurrency)
    else if not (seen_or_zero v.last_seen_at == seen_or_zero w.last_seen_at)
    then ltb (seen_or_zero w.last_seen_at) (seen_or_zero v.last_seen_at)
    else text_less v.id w.id

abbrev pub is_valid {ℓ} : {A : Type ℓ} → Result JobError A → Bool
is_valid (ok a) = true
is_valid (err e) = false

module _ {A P : Type 0} (net : Addresses A P) where
  -- The tests of the loop over the workers.
  unfoldable pub is_candidate : WorkerJob → Text → Time → ScannerWorker → WorkerJobLoad → Bool
  unfolding available_for_assignment
  is_candidate j excluded now w l =
      not (text_eq w.id excluded)
      && available_for_assignment w j (sub_ℤ w.available_concurrency l.reserved_concurrency) now
      && is_valid (validate_job net (job_for_worker j w) w now)

  abbrev pub first_of :
      ScannerWorker × WorkerJobLoad
      → Option (ScannerWorker × WorkerJobLoad)
      → ScannerWorker × WorkerJobLoad
  first_of v none = v
  first_of v (some w) = if better w v then w else v

  -- The first of the sorted candidates.
  unfoldable pub select_from :
      WorkerJob
      → Text
      → Time
      → List JobRow
      → List ScannerWorker
      → Option (ScannerWorker × WorkerJobLoad)
  unfolding is_candidate
  select_from j excluded now rows [] = none
  select_from j excluded now rows (w ∷ ws) =
      let rest = select_from j excluded now rows ws in
      if is_candidate j excluded now w (job_load w.id now rows)
      then some (first_of (w, job_load w.id now rows) rest)
      else rest

pub data DispatchError : Type 0 where
  unavailable disabled no_eligible_worker unsigned : DispatchError
  store_error : StoreError → DispatchError

-- What the dispatcher reads besides the jobs: `none` is a query that fails.
pub record Fleet : Type 0 where
  pub settings : Option Bool
  pub workers : Option (List ScannerWorker)
  pub reads_loads : Bool
  pub signs : WorkerJob → Bool

abbrev pub or_dispatch {ℓ} : {A : Type ℓ} → Option A → DispatchError → Result DispatchError A
or_dispatch none e = err e
or_dispatch (some a) e = ok a

abbrev pub is_enabled : Fleet → Result DispatchError (Unit {0})
is_enabled fleet = do
  enabled ← or_dispatch fleet.settings unavailable
  reject_if (not enabled) disabled

abbrev pub stored :
    WorkerJob → JobStore × Result StoreError (Unit {0}) → JobStore × Result DispatchError WorkerJob
stored j (s, ok u) = (s, ok j)
stored j (s, err e) = (s, err (store_error e))

abbrev pub create_assigned :
    Calls
    → JobStore
    → Time
    → Result DispatchError WorkerJob
    → JobStore × Result DispatchError WorkerJob
create_assigned calls s now (err e) = (s, err e)
create_assigned calls s now (ok j) = stored j (create_job calls s j now)

abbrev pub resumed_job : ResumeCandidate → WorkerJob
resumed_job c = record c.job {
  worker_id = [];
  status = pending;
  resume = some (record {
    previous_worker_id = c.job.worker_id;
    completed = c.completed;
    next_evidence_sequence = c.next_evidence_sequence;
  });
}

abbrev pub reassign_assigned :
    Calls
    → JobStore
    → Text
    → Time
    → Result DispatchError WorkerJob
    → JobStore × Result DispatchError WorkerJob
reassign_assigned calls s previous now (err e) = (s, err e)
reassign_assigned calls s previous now (ok j) = stored j (reassign calls s previous j now)

module _ {A P : Type 0} (net : Addresses A P) where
  -- From the list of workers to the signed job.
  unfoldable pub assign :
      Fleet → List JobRow → WorkerJob → Text → Time → Result DispatchError WorkerJob
  assign fleet rows j excluded now = do
    ws ← or_dispatch fleet.workers unavailable
    reject_if (not fleet.reads_loads) unavailable
    (w, l) ← or_dispatch (select_from net j excluded now rows ws) no_eligible_worker
    reject_if (not (fleet.signs (job_for_worker j w))) unsigned
    ok (job_for_worker j w)

  -- Dispatch
  unfoldable pub dispatch :
      Calls → Fleet → JobStore → WorkerJob → Time → JobStore × Result DispatchError WorkerJob
  unfolding assign
  dispatch calls fleet s j now =
      create_assigned calls s now (do is_enabled fleet; assign fleet s.jobs j [] now)

  abbrev pub resume_with :
      Calls
      → Fleet
      → Time
      → JobStore × Result StoreError ResumeCandidate
      → JobStore × Result DispatchError WorkerJob
  resume_with calls fleet now (s, err e) = (s, err (store_error e))
  resume_with calls fleet now (s, ok c) =
      reassign_assigned calls s c.job.worker_id now
        (assign fleet s.jobs (resumed_job c) c.job.worker_id now)

  abbrev pub resume_expired :
      Calls
      → Calls
      → Fleet
      → JobStore
      → Text
      → Time
      → Result DispatchError (Unit {0})
      → JobStore × Result DispatchError WorkerJob
  resume_expired reads writes fleet s id now (err e) = (s, err e)
  resume_expired reads writes fleet s id now (ok u) =
      resume_with writes fleet now (resume_candidate reads s id now)

  -- ReassignExpired, with the calls of its two transactions; no other transaction stands between them.
  unfoldable pub reassign_expired :
      Calls → Calls → Fleet → JobStore → Text → Time → JobStore × Result DispatchError WorkerJob
  unfolding assign
  reassign_expired reads writes fleet s id now =
      resume_expired reads writes fleet s id now (is_enabled fleet)
