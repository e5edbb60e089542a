-- ===== src/WorkerJobs/Completion.antt =====
-- internal/store/worker_result.go: what a result that is accepted says of its job, and that it is
-- accepted once.
use mossward.Common.{
  ℕ, ◌≡◌, ◌≢◌, refl, sym, ◌∙◌, ap, subst, Bool, true, none, some, List, [], ◌∷◌, arith, Text,
  text_eq, text_eq_iff, text_eq_refl, Time, inl, inr, Bool-cases, Option-cases, ok, err,
  Result-cases,
}
use mathlib.Core.Option.{some-injective}
use mossward.WorkerJobs.Jobs.{
  JobRow, WorkerJob, JobStore, StoreCall, Calls, find_job, update_job, already_accepted, succeeded,
  failed, was_canceled, other_outcome, ResultOutcome, ScanRow,
}
use mossward.WorkerJobs.Results.{
  Receipt, complete, completed_jobs, project_result, before_completion, checkpoints_complete,
  may_complete, complete_row, find_result, same_result, outcome_eq, is_succeeded, has_final,
  checkpoint_count, expected_checks, project_scan, scan_of,
}
use mossward.WorkerJobs.Moves.{Runs, holds_lease-Runs}
use mossward.WorkerJobs.Lookup.{find_job-id, find_job-update_job, update_job-guard}

-- The job of an accepted result, before and after.
pub record Accepted (s t : JobStore) (receipt : Receipt) (hash : Text) (now : Time) : Type 0 where
  pub row : JobRow
  pub found : find_job receipt.job_id s.jobs ≡ some row
  pub own : row.worker_id ≡ receipt.worker_id
  pub runs : Runs now (some hash) row
  pub covered :
      is_succeeded receipt.outcome ≡ true
      → (has_final receipt.job_id s.batches ≡ true)
        × (checkpoint_count receipt.job_id s.checkpoints ≡ expected_checks row.job)
        × (expected_checks row.job ≢ 0)
  pub unused : find_result receipt.result_id s.jobs ≡ none
  pub now_found : find_job receipt.job_id t.jobs ≡ some (complete_row receipt row)
  pub projected :
      t.scans ≡ project_scan row.job (checkpoint_count receipt.job_id s.checkpoints) receipt s.scans
  pub kept : (t.batches ≡ s.batches) × (t.checkpoints ≡ s.checkpoints)

module _ (s : JobStore) (receipt : Receipt) where
  counted :
      (calls : Calls) (r : JobRow)
      → find_job receipt.job_id s.jobs ≡ some r
      → before_completion calls s receipt ≡ ok tt
      → is_succeeded receipt.outcome ≡ true
      → (checkpoint_count receipt.job_id s.checkpoints ≡ expected_checks r.job)
        × (expected_checks r.job ≢ 0)
  unfolding checkpoints_complete
  counted calls r f e w = (ground (arith, f), ground (arith, f))

  -- The table after the UPDATE of a completion.
  record Updated (calls : Calls) (hash : Text) (now : Time) : Type 0 where
    checked : before_completion calls s receipt ≡ ok tt
    unused : find_result receipt.result_id s.jobs ≡ none
    rows : List JobRow
    updated :
        update_job receipt.job_id
          (may_complete receipt hash now s.batches)
          (complete_row receipt)
          s.jobs
        ≡ some rows
    projects : calls StoreCall.project ≡ true
    left :
        (complete calls s receipt hash now).0
        ≡ (project_result calls (record s { jobs = rows }) receipt (ok tt)).0

  completed_jobs-rows :
      (calls : Calls) (hash : Text) (now : Time) (qs : List JobRow)
      → completed_jobs calls s receipt hash now ≡ ok qs
      → update_job receipt.job_id
          (may_complete receipt hash now s.batches)
          (complete_row receipt)
          s.jobs
        ≡ some qs
  unfolding completed_jobs
  completed_jobs-rows calls hash now qs e = ground arith

  complete-Updated :
      (calls : Calls) (hash : Text) (now : Time)
      → (complete calls s receipt hash now).1 ≡ ok tt
      → Updated calls hash now
  unfolding complete
  complete-Updated calls hash now e = elim (Result-cases (before_completion calls s receipt)) [
    | inr (x, f) ↦ ground (arith, f)
    | inl (u, f) ↦ elim (Option-cases (find_result receipt.result_id s.jobs)) [
      | inr (r, g) ↦ ground (arith, f, g)
      | inl g ↦ elim (Result-cases (completed_jobs calls s receipt hash now)) [
        | inr (x, k) ↦ ground (arith, f, g, k)
        | inl (qs, k) ↦ record {
          checked = f;
          unused = g;
          rows = qs;
          updated = completed_jobs-rows calls hash now qs k;
          projects = ground (arith, f, g, k);
          left = ground (arith, f, g, k);
        }
      ]
    ]
  ]

-- A result that is accepted was of a job that its worker held under the token and a lease that ran; where
-- it reports success, the last batch of evidence was there, and each check of the job was counted. The job
-- ends with the result, and the scan takes its status, error and end from it, its start from the job where it
-- has none, and the count of the checkpoints.
pub complete-Accepted :
    (calls : Calls) (s : JobStore) (receipt : Receipt) (hash : Text) (now : Time)
    → (complete calls s receipt hash now).1 ≡ ok tt
    → Accepted s (complete calls s receipt hash now).0 receipt hash now
complete-Accepted calls s receipt hash now e =
    let u = complete-Updated s receipt calls hash now e in
    let p = may_complete receipt hash now s.batches in
    let (r, f, g) =
      update_job-guard receipt.job_id p (complete_row receipt) s.jobs u.rows u.updated in
    let k =
      find_job-update_job receipt.job_id receipt.job_id p (complete_row receipt) s.jobs u.rows
        (λ q. refl) u.updated in
    let n : find_job receipt.job_id u.rows ≡ some (complete_row receipt r) =
      ground (arith, k, f, text_eq_refl receipt.job_id) in
    record {
      row = r;
      found = f;
      own = (text_eq_iff r.worker_id receipt.worker_id).0 (ground (arith, g));
      runs = holds_lease-Runs receipt.worker_id hash now r (ground (arith, g));
      covered =
          λ w. let (a, b) = counted s receipt calls r f u.checked w in (ground (arith, g, w), a, b);
      unused = u.unused;
      now_found = rw u.left (ground (arith, n, u.projects));
      projected = rw u.left (ground (arith, n, u.projects));
      kept = rw u.left (ground (arith, u.projects), ground (arith, u.projects));
    }

outcome_eq_refl : (o : ResultOutcome) → outcome_eq o o ≡ true
outcome_eq_refl succeeded = refl
outcome_eq_refl failed = refl
outcome_eq_refl was_canceled = refl
outcome_eq_refl (other_outcome t) = text_eq_refl t

find_result-update :
    (k : Text) (p : JobRow → Bool) (receipt : Receipt) (rs qs : List JobRow) (r : JobRow)
    → find_result receipt.result_id rs ≡ none
    → find_job k rs ≡ some r
    → update_job k p (complete_row receipt) rs ≡ some qs
    → find_result receipt.result_id qs ≡ some (complete_row receipt r)
unfolding find_result update_job find_job
find_result-update k p receipt [] qs r n f e = ground arith
find_result-update k p receipt (q ∷ rs) qs r n f e = elim (Bool-cases (text_eq q.id k)) [
  | inl b ↦
      (let i : q ≡ r = some-injective _ _ (ground (arith, b, f)) in
        subst (λ x. find_result receipt.result_id qs ≡ some (complete_row receipt x)) i
          (ground (arith, b, text_eq_refl receipt.result_id)))
  | inr b ↦ elim (Option-cases (update_job k p (complete_row receipt) rs)) [
    | inl m ↦ ground (arith, b, m)
    | inr (ts, m) ↦
        ground
          (arith, b, m, find_result-update k p receipt rs ts r (ground arith) (ground (arith, b)) m)
  ]
]

project_scan-again :
    (job : WorkerJob) (done : ℕ) (receipt : Receipt) (cs : List ScanRow)
    → project_scan job done receipt (project_scan job done receipt cs)
      ≡ project_scan job done receipt cs
unfolding project_scan
project_scan-again job done receipt [] = refl
project_scan-again job done receipt (c ∷ cs) =
    ground (arith, project_scan-again job done receipt cs)

checked_again :
    (calls : Calls) (s : JobStore) (receipt : Receipt) (r : JobRow)
    → ((c : StoreCall) → calls c ≡ true)
    → find_job receipt.job_id s.jobs ≡ some r
    → (is_succeeded receipt.outcome ≡ true
        → (checkpoint_count receipt.job_id s.checkpoints ≡ expected_checks r.job)
          × (expected_checks r.job ≢ 0))
    → before_completion calls s receipt ≡ ok tt
unfolding checkpoints_complete
checked_again calls s receipt r fine f c = ground (
  arith,
  f,
  fine StoreCall.begin,
  fine StoreCall.query_job,
  fine StoreCall.unmarshal,
  fine StoreCall.count_checkpoints,
  fine StoreCall.query_result,
  c,
)

same_result-complete_row :
    (receipt : Receipt) (r : JobRow)
    → r.id ≡ receipt.job_id
    → r.worker_id ≡ receipt.worker_id
    → same_result receipt (complete_row receipt r) ≡ true
same_result-complete_row receipt r i w = ground (
  arith,
  (text_eq_iff r.id receipt.job_id).1 i,
  (text_eq_iff r.worker_id receipt.worker_id).1 w,
  outcome_eq_refl receipt.outcome,
)

replayed :
    (calls : Calls) (t : JobStore) (receipt : Receipt) (hash : Text) (now : Time) (r : JobRow)
    → ((c : StoreCall) → calls c ≡ true)
    → before_completion calls t receipt ≡ ok tt
    → find_result receipt.result_id t.jobs ≡ some r
    → same_result receipt r ≡ true
    → scan_of
        (find_job receipt.job_id t.jobs)
        (checkpoint_count receipt.job_id t.checkpoints)
        t.scans
        receipt
      ≡ t.scans
    → complete calls t receipt hash now ≡ (t, err already_accepted)
unfolding complete
replayed calls t receipt hash now r fine b f m p =
    ground (arith, b, f, m, p, fine StoreCall.rollback, fine StoreCall.project)

-- A result that was accepted and is sent again, with any token and at any time, is answered as accepted
-- already where no call of the database fails, and the modelled store stays as it is: the rows of the
-- jobs, their evidence, and the row of the scan, where nothing comes in between.
complete-again :
    (calls calls' : Calls) (s : JobStore) (receipt : Receipt) (hash hash' : Text) (now now' : Time)
    → (complete calls s receipt hash now).1 ≡ ok tt
    → ((c : StoreCall) → calls' c ≡ true)
    → complete calls' (complete calls s receipt hash now).0 receipt hash' now'
      ≡ ((complete calls s receipt hash now).0, err already_accepted)
complete-again calls calls' s receipt hash hash' now now' e fine =
    let u = complete-Updated s receipt calls hash now e in
    let a = complete-Accepted calls s receipt hash now e in
    let t = (complete calls s receipt hash now).0 in
    let x = a.row.job in
    let done = checkpoint_count receipt.job_id s.checkpoints in
    let p = may_complete receipt hash now s.batches in
    let q : t.jobs ≡ u.rows = rw u.left (ground (arith, u.projects)) in
    let k : a.row.id ≡ receipt.job_id = find_job-id receipt.job_id s.jobs a.row a.found in
    let w : a.row.worker_id ≡ receipt.worker_id = a.own in
    replayed calls' t receipt hash' now' (complete_row receipt a.row) fine
      (checked_again calls' t receipt (complete_row receipt a.row) fine a.now_found (λ w.
        let (x, c, n) = a.covered w in (ap (checkpoint_count receipt.job_id) a.kept.1 ∙ c, n)))
      (ap (find_result receipt.result_id) q
        ∙ find_result-update receipt.job_id p receipt s.jobs u.rows a.row u.unused a.found
            u.updated)
      (same_result-complete_row receipt a.row k w)
      (ap (λ o. scan_of o (checkpoint_count receipt.job_id t.checkpoints) t.scans receipt)
          a.now_found
        ∙ ap (λ cs. project_scan x (checkpoint_count receipt.job_id cs) receipt t.scans) a.kept.1
        ∙ ap (project_scan x done receipt) a.projected
        ∙ project_scan-again x done receipt s.scans
        ∙ sym a.projected)
