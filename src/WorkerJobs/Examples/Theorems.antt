-- ===== src/WorkerJobs/Examples/Theorems.antt =====
-- The theorems on jobs at the history of one job that the module above builds.
use mossward.Common.{
  ℕ, ◌/◌, ◌%◌, ◌<◌, ◌≤◌, ◌≡◌, ◌≢◌, refl, true, false, none, some, [], ◌∷◌, codes, ok, ltb,
}
use mossward.WorkerJobs.Stamp.{stamp_less, stamp_less_lem}
use mossward.WorkerJobs.Jobs.{JobRow, find_job, is_pending, is_leased, lease_over}
use mossward.WorkerJobs.Leases.{new_job, lease, maintained, lease_row, waits, older}
use mossward.WorkerJobs.Results.{complete, complete_row}
use mossward.WorkerJobs.History.{Op, leases, apply, run}
use mossward.WorkerJobs.Moves.{Move, ends_within, EndsBy}
use mossward.WorkerJobs.Refinement.{
  history, apply-Move, ended_job-stays, leased_job-stays, history-bounded,
}
use mossward.WorkerJobs.Polling.{Lapsed, lease-Lapsed}
use mossward.WorkerJobs.Fairness.{lease-oldest}
use mossward.WorkerJobs.Completion.{Accepted, complete-Accepted}
use mossward.WorkerJobs.Sequences.{job_sequences, numbered, history-sequences}
use mossward.WorkerJobs.Scope.{InScope, validate_job-InScope}
use mossward.WorkerJobs.Examples.{
  plain_net, at_second, all_fine, one_worker, given_job, token, dispatched, leased_once,
  with_evidence, one_receipt, finished, waiting_row, leased_row, given_job_valid, found_waiting,
  waits_now, found_leased, completed_ok, found_completed, answers_none,
}

abbrev poll : Op
poll = leases all_fine true (codes "w") (codes "k") (at_second 12) (at_second 30)

apply-Move_example :
    (r' : JobRow) × (find_job
        (codes "j")
        (apply plain_net poll (history plain_net leased_once)).jobs
      ≡ some r')
    × Move (at_second 12) none leased_row r'
apply-Move_example = apply-Move plain_net leased_once poll (codes "j") leased_row found_leased

ended_job-stays_example :
    find_job (codes "j") (run plain_net (poll ∷ []) (history plain_net finished)).jobs
    ≡ some (complete_row one_receipt leased_row)
ended_job-stays_example =
    ended_job-stays plain_net finished (poll ∷ []) (codes "j") (complete_row one_receipt leased_row)
      found_completed refl

runs_on : stamp_less (at_second 12) (at_second 20) ≡ true
unfolding stamp_less
runs_on = refl

leased_row_runs : lease_over leased_row.lease_expires_at (at_second 21) ≡ true
unfolding new_job stamp_less
leased_row_runs = refl

leased_job-stays_example :
    find_job (codes "j") (apply plain_net poll (history plain_net leased_once)).jobs
    ≡ some leased_row
unfolding new_job stamp_less
leased_job-stays_example =
    leased_job-stays plain_net leased_once poll (codes "j") leased_row found_leased refl refl refl

history-bounded_example :
    (leased_row.lease_attempt ≤ 3)
    × (is_pending leased_row.status ≡ true → leased_row.lease_attempt < 3)
    × (ends_within leased_row.lease_expires_at leased_row.expires_at ≡ true)
    × EndsBy leased_row.lease_expires_at leased_row.expires_at
    × (is_leased leased_row.status ≡ false → leased_row.lease_expires_at ≡ none)
history-bounded_example = history-bounded plain_net leased_once (codes "j") leased_row found_leased

lease-Lapsed_example :
    (r' : JobRow) × (find_job
        (codes "j")
        (lease all_fine false
          (history plain_net leased_once)
          (codes "w")
          token
          (at_second 21)
          (at_second 30)).0.jobs
      ≡ some r')
    × Lapsed token (at_second 21) (at_second 30) leased_row r'
unfolding new_job
lease-Lapsed_example =
    lease-Lapsed plain_net leased_once all_fine false (codes "w") token (at_second 21)
      (at_second 30) none (codes "j") leased_row found_leased refl refl leased_row_runs answers_none

lease-oldest_example :
    (r : JobRow) × ((lease all_fine true
        (history plain_net dispatched)
        (codes "w")
        token
        (at_second 11)
        (at_second 20)).1
      ≡ ok (some r.job))
    × (find_job r.id (maintained (codes "w") (at_second 11) (history plain_net dispatched)).jobs
        ≡ some r)
    × (waits (codes "w") (at_second 11) r ≡ true)
    × (older waiting_row r ≡ false)
    × (find_job r.id
          (lease all_fine true
            (history plain_net dispatched)
            (codes "w")
            token
            (at_second 11)
            (at_second 20)).0.jobs
        ≡ some (lease_row token (at_second 20) r))
lease-oldest_example =
    lease-oldest plain_net dispatched all_fine (codes "w") token (at_second 11) (at_second 20)
      (codes "j") waiting_row (λ c. refl) found_waiting waits_now

complete-Accepted_example :
    Accepted
      (history plain_net with_evidence)
      (complete all_fine (history plain_net with_evidence) one_receipt token (at_second 13)).0
      one_receipt
      token
      (at_second 13)
complete-Accepted_example =
    complete-Accepted all_fine (history plain_net with_evidence) one_receipt token (at_second 13)
      completed_ok

history-sequences_example :
    (n : ℕ) × (job_sequences (codes "j") (history plain_net finished).batches ≡ numbered n)
history-sequences_example = history-sequences plain_net finished (codes "j")

validate_job-InScope_example : InScope plain_net given_job one_worker (at_second 10)
validate_job-InScope_example =
    validate_job-InScope plain_net given_job one_worker (at_second 10) given_job_valid

stamp_less_lem_example :
    (at_second 5 / 1_000_000_000 ≢ 5_500_000_000 / 1_000_000_000
      → stamp_less (at_second 5) 5_500_000_000 ≡ ltb (at_second 5) 5_500_000_000)
    × (at_second 5 / 1_000_000_000 ≡ 5_500_000_000 / 1_000_000_000
        → at_second 5 % 1_000_000_000 ≡ 0
        → 5_500_000_000 % 1_000_000_000 ≢ 0
        → (stamp_less 5_500_000_000 (at_second 5) ≡ true) × (at_second 5 < 5_500_000_000))
stamp_less_lem_example = stamp_less_lem (at_second 5) 5_500_000_000
