-- ===== src/WorkerJobs/Refinement.antt =====
-- The histories of the worker jobs: each operation moves each job by its machine, from a new database on.
use mossward.Common.{
  ◌≤◌, ◌<◌, ◌≡◌, refl, ◌∙◌, ap, true, false, none, some, List, [], ◌∷◌, arith, Text,
}
use mossward.WorkerJobs.Jobs.{JobRow, JobStore, find_job, is_pending, is_leased, lease_runs}
use mossward.WorkerJobs.Validation.{Addresses}
use mossward.WorkerJobs.History.{
  Op, dispatches, leases, renews, records_evidence, completes, reassigns, apply, run, no_jobs,
  now_of, token_of,
}
use mossward.WorkerJobs.Quarantine.{is_dead}
use mossward.WorkerJobs.Moves.{
  Move, Move-ended, Move-Held, is_live, ends_within, EndsBy, ends_within-EndsBy, presents,
}
use mossward.WorkerJobs.Steps.{StoreStep, StoreSound}
use mossward.WorkerJobs.LeaseSteps.{lease-Step, renew-Step}
use mossward.WorkerJobs.EvidenceSteps.{record_evidence-Step, complete-Step}
use mossward.WorkerJobs.DispatchSteps.{dispatch-Step}
use mossward.WorkerJobs.ReassignSteps.{reassign_expired-Step}
use mossward.WorkerJobs.Lookup.{Distinct}

no_jobs-Sound : StoreSound no_jobs
unfolding find_job Distinct is_dead
no_jobs-Sound = record { distinct = tt; sound_rows = λ id r e. ground arith; born = λ id e. refl }

module _ {A P : Type 0} (net : Addresses A P) where
  apply-Step :
      (o : Op) (s : JobStore) → StoreSound s → StoreStep (now_of o) (token_of o) s (apply net o s)
  unfolding apply
  apply-Step (dispatches calls fleet j now) s h = dispatch-Step net calls fleet s j now h
  apply-Step (leases calls dispatching worker hash now until) s h =
      lease-Step s h calls dispatching worker hash now until
  apply-Step (renews calls worker id hash now until) s h =
      renew-Step s h calls worker id hash now until
  apply-Step (records_evidence calls b now) s h = record_evidence-Step s h calls b now
  apply-Step (completes calls receipt hash now) s h = complete-Step s h calls receipt hash now
  apply-Step (reassigns reads writes fleet id now) s h =
      reassign_expired-Step net reads writes fleet s id now h

  run-Sound : (os : List Op) (s : JobStore) → StoreSound s → StoreSound (run net os s)
  unfolding run
  run-Sound [] s h = h
  run-Sound (o ∷ os) s h = run-Sound os (apply net o s) (apply-Step o s h).sound

  -- The store that a history leaves, from a new database.
  abbrev pub history : List Op → JobStore
  history os = run net os no_jobs

  pub history-Sound : (os : List Op) → StoreSound (history os)
  history-Sound os = run-Sound os no_jobs no_jobs-Sound

  -- After any history, the next operation leaves each job in the table, and takes its row to one that
  -- the machine of a single job reaches at the operation's instant with its token.
  pub apply-Move :
      (os : List Op) (o : Op) (id : Text) (r : JobRow)
      → find_job id (history os).jobs ≡ some r
      → (r' : JobRow) × (find_job id (apply net o (history os)).jobs ≡ some r')
        × Move (now_of o) (token_of o) r r'
  apply-Move os o id r e = (apply-Step o (history os) (history-Sound os)).moved id r e

  ended_stays :
      (ps : List Op) (s : JobStore) (id : Text) (r : JobRow)
      → StoreSound s
      → find_job id s.jobs ≡ some r
      → is_live r.status ≡ false
      → find_job id (run net ps s).jobs ≡ some r
  unfolding run
  ended_stays [] s id r h e l = e
  ended_stays (o ∷ ps) s id r h e l =
      let p = apply-Step o s h in
      let (q, f, m) = p.moved id r e in
      ended_stays ps (apply net o s) id r p.sound (f ∙ ap some (Move-ended l m)) l

  -- A job that is completed, canceled or expired after a history keeps its row, the result of a completed
  -- one included, whatever operations follow.
  pub ended_job-stays :
      (os ps : List Op) (id : Text) (r : JobRow)
      → find_job id (history os).jobs ≡ some r
      → is_live r.status ≡ false
      → find_job id (run net ps (history os)).jobs ≡ some r
  ended_job-stays os ps id r e l = ended_stays ps (history os) id r (history-Sound os) e l

  -- While the lease of a job runs, an operation that does not present the token of the lease leaves the
  -- row of the job as it is; only a renewal and a completion present one.
  pub leased_job-stays :
      (os : List Op) (o : Op) (id : Text) (r : JobRow)
      → find_job id (history os).jobs ≡ some r
      → is_leased r.status ≡ true
      → lease_runs r.lease_expires_at (now_of o) ≡ true
      → presents r.lease_token_hash (token_of o) ≡ false
      → find_job id (apply net o (history os)).jobs ≡ some r
  leased_job-stays os o id r e l u n =
      let h = history-Sound os in
      let (q, f, m) = (apply-Step o (history os) h).moved id r e in
      f
      ∙ ap some (
          Move-Held
            (record { under = l; runs = u; within = (h.sound_rows id r e).within; foreign = n }) m)

  -- In every history a job was leased three times at most, and less often where it waits for a lease; its
  -- lease ends no later than the job does in the order of the texts of times, so in no later second,
  -- though up to a second later where the job ends at a whole second; and a job that is not leased has
  -- no end of a lease.
  pub history-bounded :
      (os : List Op) (id : Text) (r : JobRow)
      → find_job id (history os).jobs ≡ some r
      → (r.lease_attempt ≤ 3)
        × (is_pending r.status ≡ true → r.lease_attempt < 3)
        × (ends_within r.lease_expires_at r.expires_at ≡ true)
        × EndsBy r.lease_expires_at r.expires_at
        × (is_leased r.status ≡ false → r.lease_expires_at ≡ none)
  history-bounded os id r e =
      let h = (history-Sound os).sound_rows id r e in
      (
        h.attempts,
        h.waiting,
        h.within,
        ends_within-EndsBy r.lease_expires_at r.expires_at h.within,
        h.unleased,
      )
