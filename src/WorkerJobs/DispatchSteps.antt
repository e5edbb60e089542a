-- ===== src/WorkerJobs/DispatchSteps.antt =====
-- The dispatch of a job is a step of the well-formed tables.
use mossward.Common.{
  ◌≡◌, refl, true, none, List, [], arith, Text, Time, inl, inr, Option-cases, Result, ok, err,
  Result-cases,
}
use mossward.WorkerJobs.Jobs.{JobRow, JobStore, WorkerJob, StoreError, Calls, is_pending}
use mossward.WorkerJobs.Leases.{create_job}
use mossward.WorkerJobs.Validation.{Addresses, ScannerWorker, validate_job}
use mossward.WorkerJobs.Dispatch.{
  Fleet, dispatch, assign, select_from, is_candidate, is_valid, job_for_worker, WorkerJobLoad,
  is_enabled, create_assigned, stored,
}
use mossward.WorkerJobs.Selection.{select_from-IsCandidate}
use mossward.WorkerJobs.Steps.{Stepped-same, StoreStep, StoreSound}
use mossward.WorkerJobs.LeaseSteps.{create_job-Step}

pub stored-store :
    (k : WorkerJob) (x : JobStore × Result StoreError (Unit {0})) → (stored k x).0 ≡ x.0
stored-store k (s, ok u) = refl
stored-store k (s, err e) = refl

create_assigned-Step :
    (calls : Calls) (s : JobStore) (now : Time) (k : WorkerJob)
    → StoreSound s
    → is_pending k.status ≡ true
    → StoreStep now none s (create_assigned calls s now (ok k)).0
create_assigned-Step calls s now k h w =
    rw (stored-store k (create_job calls s k now)) (create_job-Step s h calls k now w)

module _ {A P : Type 0} (net : Addresses A P) where
  validate_job-pending :
      (j : WorkerJob) (w : ScannerWorker) (now : Time)
      → is_valid (validate_job net j w now) ≡ true
      → is_pending j.status ≡ true
  unfolding validate_job
  validate_job-pending j w now e = ground arith

  candidate_valid :
      (j : WorkerJob) (w : ScannerWorker) (l : WorkerJobLoad) (excluded : Text) (now : Time)
      → is_candidate net j excluded now w l ≡ true
      → is_valid (validate_job net (job_for_worker j w) w now) ≡ true
  unfolding is_candidate
  candidate_valid j w l excluded now e = ground arith

  -- A job that is assigned waits, and is the job that was asked for but for its worker and its rate.
  pub assign-pending :
      (fleet : Fleet) (rows : List JobRow) (j k : WorkerJob) (excluded : Text) (now : Time)
      → assign net fleet rows j excluded now ≡ ok k
      → (is_pending k.status ≡ true) × (k.id ≡ j.id)
  unfolding assign
  assign-pending fleet rows j k excluded now e = elim (Option-cases fleet.workers) [
    | inl n ↦ ground (arith, n)
    | inr (ws, f) ↦ elim (Option-cases (select_from net j excluded now rows ws)) [
      | inl n ↦ ground (arith, n, f)
      | inr ((w, l), g) ↦
          (let i : k ≡ job_for_worker j w = ground (arith, f, g) in
            let c = select_from-IsCandidate net j excluded now rows ws (w, l) g in
            rw i (
              validate_job-pending (job_for_worker j w) w now
                  (candidate_valid j w l excluded now c.candidate),
              refl,
            ))
    ]
  ]

  pub dispatch-Step :
      (calls : Calls) (fleet : Fleet) (s : JobStore) (j : WorkerJob) (now : Time)
      → StoreSound s
      → StoreStep now none s (dispatch net calls fleet s j now).0
  unfolding dispatch
  dispatch-Step calls fleet s j now h = elim (Result-cases (is_enabled fleet)) [
    | inr (e, f) ↦ rw f (Stepped-same h)
    | inl (u, f) ↦ elim (Result-cases (assign net fleet s.jobs j [] now)) [
      | inr (e, g) ↦ rw (f, g) (Stepped-same h)
      | inl (k, g) ↦
          rw (f, g)
            (create_assigned-Step calls s now k h (assign-pending fleet s.jobs j k [] now g).0)
    ]
  ]
