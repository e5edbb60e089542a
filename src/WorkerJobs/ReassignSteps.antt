-- ===== src/WorkerJobs/ReassignSteps.antt =====
-- The reassignment of a job whose lease has lapsed is a step of the well-formed tables.
use mossward.Common.{
  ◌<◌, ◌≡◌, refl, sym, ◌∙◌, ap, subst, true, ◌&&◌, Option, none, some, arith, Text, Time, inl, inr,
  ◌⊎◌, Bool-cases, Option-cases, Result, ok, err, Result-cases, leb,
}
use mathlib.Core.Option.{some-injective}
use mossward.WorkerJobs.Jobs.{
  JobRow, JobStore, WorkerJob, StoreError, Calls, find_job, update_job, StoreCall,
}
use mossward.WorkerJobs.Quarantine.{quarantine, quarantine_repeated_jobs}
use mossward.WorkerJobs.Reassignment.{
  ResumeCandidate, resume_candidate, candidate_row, lapsed_job, has_lapsed, reassign, reassign_rows,
  reassignable, reassign_row,
}
use mossward.WorkerJobs.Validation.{Addresses}
use mossward.WorkerJobs.Dispatch.{
  Fleet, reassign_expired, assign, is_enabled, resume_with, resumed_job,
}
use mossward.WorkerJobs.Lookup.{find_job-id}
use mossward.WorkerJobs.Moves.{Move, moves_on, RowSound}
use mossward.WorkerJobs.Steps.{Stepped-same, Stepped-update_job, StoreStep, StoreSound}
use mossward.WorkerJobs.Sweeps.{Stepped-quarantine}
use mossward.WorkerJobs.DispatchSteps.{stored-store, assign-pending}

-- The row of a candidate that is handed back.
record Resumable (s : JobStore) (id : Text) (now : Time) (c : ResumeCandidate) : Type 0 where
  pub row : JobRow
  pub found : find_job id s.jobs ≡ some row
  pub over : has_lapsed now row ≡ true
  pub few : row.lease_attempt < 3
  pub same : c.job ≡ row.job

as_step : {now : Time} (s t u : JobStore) → StoreStep now none s t → u ≡ t → StoreStep now none s u
as_step {now} s t u m e = subst (StoreStep now none s) (sym e) m

candidate_row-Step :
    (reads : Calls) (s : JobStore) (now : Time) (o : Option JobRow)
    → StoreSound s
    → StoreStep now none s (candidate_row reads s now o).0
candidate_row-Step reads s now none h = Stepped-same h
candidate_row-Step reads s now (some r) h = elim (Bool-cases (leb 3 r.lease_attempt)) [
  | inr n ↦ as_step s s (candidate_row reads s now (some r)).0 (Stepped-same h) (ground (arith, n))
  | inl b ↦ elim (Result-cases (quarantine reads r.worker_id now s)) [
    | inr (e, f) ↦
        as_step s s (candidate_row reads s now (some r)).0 (Stepped-same h) (ground (arith, b, f))
    | inl (q, f) ↦ elim (Bool-cases (reads StoreCall.commit)) [
      | inr k ↦
          as_step s s (candidate_row reads s now (some r)).0 (Stepped-same h)
            (ground (arith, b, f, k))
      | inl k ↦
          as_step s (quarantine_repeated_jobs r.worker_id now s)
            (candidate_row reads s now (some r)).0 (Stepped-quarantine r.worker_id now s h)
            (ground (arith, b, f, k))
    ]
  ]
]

resume_candidate-Step :
    (reads : Calls) (s : JobStore) (id : Text) (now : Time)
    → StoreSound s
    → StoreStep now none s (resume_candidate reads s id now).0
unfolding resume_candidate
resume_candidate-Step reads s id now h =
    elim (Bool-cases (reads StoreCall.begin && reads StoreCall.query_candidate)) [
      | inr n ↦ as_step s s (resume_candidate reads s id now).0 (Stepped-same h) (ground (arith, n))
      | inl b ↦
          as_step s (candidate_row reads s now (lapsed_job now (find_job id s.jobs))).0
            (resume_candidate reads s id now).0
            (candidate_row-Step reads s now (lapsed_job now (find_job id s.jobs)) h)
            (ground (arith, b))
    ]

resume_candidate-Resumable :
    (reads : Calls) (s t : JobStore) (id : Text) (now : Time) (c : ResumeCandidate)
    → resume_candidate reads s id now ≡ (t, ok c)
    → Resumable s id now c
unfolding resume_candidate
resume_candidate-Resumable reads s t id now c e = elim (Option-cases (find_job id s.jobs)) [
  | inl n ↦ ground (arith, n)
  | inr (r, f) ↦ record {
    row = r;
    found = f;
    over = ground (arith, f);
    few = ground (arith, f);
    same = ground (arith, f);
  }
]

resumed-Move :
    (s : JobStore) (id previous : Text) (now : Time) (c : ResumeCandidate) (k : WorkerJob)
    → StoreSound s
    → Resumable s id now c
    → k.id ≡ c.job.id
    → (q : JobRow) → find_job k.id s.jobs ≡ some q
    → RowSound s.dead_letters q
    → reassignable previous now q ≡ true
    → Move now none q (reassign_row k q)
resumed-Move s id previous now c k h g i q f v w =
    let own = h.sound_rows id g.row g.found in
    let at : k.id ≡ id =
      i ∙ ap (λ (j : WorkerJob). j.id) g.same ∙ own.own_job ∙ find_job-id id s.jobs g.row g.found in
    let same : g.row ≡ q =
      some-injective _ _ (sym g.found ∙ ap (λ t. find_job t s.jobs) (sym at) ∙ f) in
    moves_on k (sym (find_job-id k.id s.jobs q f)) (record {
      under = ground (arith, w);
      over = ground (arith, w);
      valid = ground (arith, w);
      few = subst (λ (r : JobRow). r.lease_attempt < 3) same g.few;
    })

reassign_rows-Step :
    (writes : Calls) (s t : JobStore) (id previous : Text) (now : Time) (c : ResumeCandidate)
    (k : WorkerJob)
    → StoreSound s
    → Resumable s id now c
    → k.id ≡ c.job.id
    → reassign_rows writes s previous k now ≡ ok (tt, t)
    → StoreStep now none s t
unfolding reassign_rows
reassign_rows-Step writes s t id previous now c k h g i e =
    elim (Option-cases (update_job k.id (reassignable previous now) (reassign_row k) s.jobs)) [
      | inl n ↦ ground (arith, n)
      | inr (qs, f) ↦
          (let a : t.jobs ≡ qs = ground (arith, f) in
            let b : t.dead_letters ≡ s.dead_letters = ground (arith, f) in
            rw (a, b)
              (Stepped-update_job k.id (reassignable previous now) (reassign_row k)
                (resumed-Move s id previous now c k h g i) (λ r. refl) h f))
    ]

reassign-Step :
    (writes : Calls) (s : JobStore) (id previous : Text) (now : Time) (c : ResumeCandidate)
    (k : WorkerJob)
    → StoreSound s
    → Resumable s id now c
    → k.id ≡ c.job.id
    → StoreStep now none s (reassign writes s previous k now).0
unfolding reassign
reassign-Step writes s id previous now c k h g i =
    elim (Result-cases (reassign_rows writes s previous k now)) [
      | inr (e, f) ↦ rw f (Stepped-same h)
      | inl ((u, t), f) ↦ rw f (reassign_rows-Step writes s t id previous now c k h g i f)
    ]

resume_candidate-store :
    (reads : Calls) (s t : JobStore) (id : Text) (now : Time) (c : ResumeCandidate)
    → resume_candidate reads s id now ≡ (t, ok c)
    → t ≡ s
unfolding resume_candidate
resume_candidate-store reads s t id now c e = ground arith

answer-cases :
    (x : JobStore × Result StoreError ResumeCandidate)
    → (t : JobStore) × (((c : ResumeCandidate) × (x ≡ (t, ok c)))
        ⊎ ((e : StoreError) × (x ≡ (t, err e))))
answer-cases (t, ok c) = (t, inl (c, refl))
answer-cases (t, err e) = (t, inr (e, refl))

module _ {A P : Type 0} (net : Addresses A P) where
  resume_assigned-Step :
      (writes : Calls) (fleet : Fleet) (s : JobStore) (id : Text) (now : Time) (c : ResumeCandidate)
      → StoreSound s
      → Resumable s id now c
      → StoreStep now none s (resume_with net writes fleet now (s, ok c)).0
  resume_assigned-Step writes fleet s id now c h g =
      elim (Result-cases (assign net fleet s.jobs (resumed_job c) c.job.worker_id now)) [
        | inr (e, f) ↦ rw f (Stepped-same h)
        | inl (k, f) ↦
            let (w, i) = assign-pending net fleet s.jobs (resumed_job c) k c.job.worker_id now f in
            rw (f, stored-store k (reassign writes s c.job.worker_id k now))
              (reassign-Step writes s id c.job.worker_id now c k h g i)
      ]

  resume_with-Step :
      (reads writes : Calls) (fleet : Fleet) (s : JobStore) (id : Text) (now : Time)
      → StoreSound s
      → StoreStep now none s (resume_with net writes fleet now (resume_candidate reads s id now)).0
  resume_with-Step reads writes fleet s id now h =
      let (t, a) = answer-cases (resume_candidate reads s id now) in
      elim a [
        | inr (e, f) ↦
            rw f (subst (λ x. StoreStep now none s x.0) f (resume_candidate-Step reads s id now h))
        | inl (c, f) ↦
            let i : t ≡ s = resume_candidate-store reads s t id now c f in
            rw (f, i)
              (resume_assigned-Step writes fleet s id now c h
                (resume_candidate-Resumable reads s t id now c f))
      ]

  pub reassign_expired-Step :
      (reads writes : Calls) (fleet : Fleet) (s : JobStore) (id : Text) (now : Time)
      → StoreSound s
      → StoreStep now none s (reassign_expired net reads writes fleet s id now).0
  unfolding reassign_expired
  reassign_expired-Step reads writes fleet s id now h = elim (Result-cases (is_enabled fleet)) [
    | inr (e, f) ↦ rw f (Stepped-same h)
    | inl (u, f) ↦ rw f (resume_with-Step reads writes fleet s id now h)
  ]
