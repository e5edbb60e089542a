-- ===== src/WorkerJobs/EvidenceSteps.antt =====
-- The evidence of a job and its result are steps of the well-formed tables.
use mossward.Common.{
  ◌≡◌, refl, none, some, List, arith, Text, Time, inl, inr, Option-cases, Result, ok, Result-cases,
}
use mossward.WorkerJobs.Jobs.{JobRow, JobStore, StoreError, Calls, update_job}
use mossward.WorkerJobs.Evidence.{EvidenceBatch, record_evidence, evidence_rows}
use mossward.WorkerJobs.Results.{
  Receipt, complete, complete_found, completed_jobs, project_result, before_completion,
  may_complete, complete_row, find_result,
}
use mossward.WorkerJobs.Moves.{finishes, holds_lease-Runs}
use mossward.WorkerJobs.Steps.{Stepped, Stepped-same, Stepped-update_job, StoreStep, StoreSound}

abbrev SameJobs : JobStore → JobStore → Type 0
SameJobs s t = (t.jobs ≡ s.jobs) × (t.dead_letters ≡ s.dead_letters)

-- The projection of a result leaves the jobs alone.
project_result-jobs :
    (calls : Calls) (s : JobStore) (receipt : Receipt) (answer : Result StoreError (Unit {0}))
    → SameJobs s (project_result calls s receipt answer).0
project_result-jobs calls s receipt answer = (ground arith, ground arith)

complete_found-jobs :
    (calls : Calls) (s : JobStore) (receipt : Receipt) (hash : Text) (now : Time) (r : JobRow)
    → SameJobs s (complete_found calls s receipt hash now (some r)).0
complete_found-jobs calls s receipt hash now r = (ground arith, ground arith)

module _ (s : JobStore) (h : StoreSound s) where
  evidence_rows-jobs :
      (calls : Calls) (b : EvidenceBatch) (now : Time) (t : JobStore)
      → evidence_rows calls s b now ≡ ok (tt, t)
      → (t.jobs ≡ s.jobs) × (t.dead_letters ≡ s.dead_letters)
  unfolding evidence_rows
  evidence_rows-jobs calls b now t e = ground (arith)

  pub record_evidence-Step :
      (calls : Calls) (b : EvidenceBatch) (now : Time)
      → StoreStep now none s (record_evidence calls s b now).0
  unfolding record_evidence
  record_evidence-Step calls b now = elim (Result-cases (evidence_rows calls s b now)) [
    | inr (e, f) ↦ rw f (Stepped-same h)
    | inl ((u, t), f) ↦
        (let (a, c) = evidence_rows-jobs calls b now t f in rw (f, a, c) (Stepped-same h))
  ]

  completed_jobs-Step :
      (calls : Calls) (receipt : Receipt) (hash : Text) (now : Time) (qs : List JobRow)
      → completed_jobs calls s receipt hash now ≡ ok qs
      → Stepped now (some hash) s.jobs s.dead_letters qs s.dead_letters
  unfolding completed_jobs
  completed_jobs-Step calls receipt hash now qs e =
      elim (Option-cases (
        update_job receipt.job_id (may_complete receipt hash now s.batches) (complete_row receipt)
          s.jobs)) [
            | inl n ↦ ground (arith, n)
            | inr (ts, f) ↦
                (let i : qs ≡ ts = ground (arith, f) in
                  rw i (
                    Stepped-update_job receipt.job_id (may_complete receipt hash now s.batches)
                      (complete_row receipt)
                      (λ r g v w.
                        finishes receipt
                          (holds_lease-Runs receipt.worker_id hash now r (ground (arith, w))))
                      (λ r. refl) h f))
          ]

  pub complete-Step :
      (calls : Calls) (receipt : Receipt) (hash : Text) (now : Time)
      → StoreStep now (some hash) s (complete calls s receipt hash now).0
  unfolding complete
  complete-Step calls receipt hash now = elim (Result-cases (before_completion calls s receipt)) [
    | inr (e, f) ↦ rw f (Stepped-same h)
    | inl (u, f) ↦ elim (Option-cases (find_result receipt.result_id s.jobs)) [
      | inr (r, g) ↦
          (let (a, b) = complete_found-jobs calls s receipt hash now r in
            rw (f, g, a, b) (Stepped-same h))
      | inl g ↦ elim (Result-cases (completed_jobs calls s receipt hash now)) [
        | inr (e, k) ↦ rw (f, g, k) (Stepped-same h)
        | inl (qs, k) ↦
            (let (a, b) = project_result-jobs calls (record s { jobs = qs }) receipt (ok tt) in
              rw (f, g, k, a, b) (completed_jobs-Step calls receipt hash now qs k))
      ]
    ]
  ]
