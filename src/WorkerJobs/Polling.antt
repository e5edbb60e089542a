-- ===== src/WorkerJobs/Polling.antt =====
-- internal/store/worker_job_lease.go: what the poll of a worker does to a job whose lease has lapsed, and
-- which job it hands out.
use mossward.Common.{
  ◌≤◌, ◌<◌, ◌≡◌, refl, sym, ◌∙◌, ap, subst, Bool, true, false, Option, some, List, arith,
  if◌then◌else◌, leb, Text, text_eq, text_eq_iff, Time, inl, inr, ◌⊎◌, Bool-cases, Option-cases, ok,
  Result-cases,
}
use mathlib.Core.Option.{some-injective}
use mossward.WorkerJobs.Stamp.{stamp_less}
use mossward.WorkerJobs.Jobs.{
  JobRow, JobStore, WorkerJob, Calls, find_job, update_job, is_pending, is_leased, lease_over,
  canceled, expired, pending,
}
use mossward.WorkerJobs.Leases.{maintained, lease, lease_rows, pick, holds_pending, lease_row}
use mossward.WorkerJobs.Quarantine.{end_lease}
use mossward.WorkerJobs.Validation.{Addresses}
use mossward.WorkerJobs.History.{Op}
use mossward.WorkerJobs.Lookup.{on_row, find_job-id, find_job-update_job, update_job-guard}
use mossward.WorkerJobs.Maintenance.{find_job-maintained, is_dead-maintained, repeats_row}
use mossward.WorkerJobs.Steps.{StoreSound}
use mossward.WorkerJobs.Refinement.{history, history-Sound}

-- Where a row is after a poll that was answered, from its row `m` after the maintenance.
module _ (calls : Calls) (dispatching : Bool) (s : JobStore) (worker hash : Text)
    (now until : Time) where
  lease_rows-row :
      (t : JobStore) (answer : Option WorkerJob) (id : Text) (m : JobRow)
      → lease_rows calls dispatching s worker hash now until ≡ ok (answer, t)
      → find_job id (maintained worker now s).jobs ≡ some m
      → (find_job id t.jobs ≡ some m)
        ⊎ ((find_job id t.jobs ≡ some (lease_row hash until m)) × (is_pending m.status ≡ true))
  unfolding lease_rows
  lease_rows-row t answer id m e f =
      elim (Option-cases (pick dispatching worker now (maintained worker now s).jobs)) [
        | inl n ↦ let a : t ≡ maintained worker now s = ground (arith, n) in inl (rw a f)
        | inr (r, p) ↦
            elim (Option-cases (
              update_job r.id (holds_pending worker) (lease_row hash until)
                (maintained worker now s).jobs)) [
                  | inl n ↦ ground (arith, n, p)
                  | inr (qs, g) ↦
                      (let a : t.jobs ≡ qs = ground (arith, p, g) in
                        let (v, k, w) =
                          update_job-guard r.id (holds_pending worker) (lease_row hash until)
                            (maintained worker now s).jobs qs g in
                        let u =
                          find_job-update_job id r.id (holds_pending worker) (lease_row hash until)
                            (maintained worker now s).jobs qs (λ q. refl) g in
                        elim (Bool-cases (text_eq r.id id)) [
                          | inr n ↦ inl (rw a (ground (arith, u, n, f)))
                          | inl b ↦
                              (let i : v ≡ m = some-injective _ _ (
                                  sym k
                                  ∙ ap (λ x. find_job x (maintained worker now s).jobs)
                                      ((text_eq_iff r.id id).0 b)
                                  ∙ f) in
                                inr (
                                  rw a (ground (arith, u, b, f)),
                                  subst (λ (q : JobRow). is_pending q.status ≡ true) i
                                      (ground (arith, w)),
                                ))
                        ])
                ]
      ]

-- What becomes of a job whose lease has lapsed, with its row `r`, when its worker polls.
pub data Lapsed (hash : Text) (now until : Time) (r : JobRow) : JobRow → Type 0 where
  ran_out : stamp_less now r.expires_at ≡ false → Lapsed hash now until r (end_lease expired r)
  given_up :
      stamp_less now r.expires_at ≡ true
      → 3 ≤ r.lease_attempt
      → Lapsed hash now until r (end_lease canceled r)
  waits_again :
      stamp_less now r.expires_at ≡ true
      → r.lease_attempt < 3
      → Lapsed hash now until r (end_lease pending r)
  leased_again :
      stamp_less now r.expires_at ≡ true
      → r.lease_attempt < 3
      → Lapsed hash now until r (lease_row hash until (end_lease pending r))

lapsed_maintained :
    (worker : Text) (now : Time) (s : JobStore) (id : Text) (r : JobRow)
    → StoreSound s
    → find_job id s.jobs ≡ some r
    → r.worker_id ≡ worker
    → is_leased r.status ≡ true
    → lease_over r.lease_expires_at now ≡ true
    → find_job id (maintained worker now s).jobs
      ≡ some (
          if stamp_less now r.expires_at
          then (if leb 3 r.lease_attempt then end_lease canceled r else end_lease pending r)
          else end_lease expired r)
lapsed_maintained worker now s id r h f w l o =
    let u = h.sound_rows id r f in
    let d = is_dead-maintained worker now s r.id h.distinct in
    let g : find_job r.id s.jobs ≡ some r =
      subst (λ x. find_job x s.jobs ≡ some r) (sym (find_job-id id s.jobs r f)) f in
    let k : text_eq r.worker_id worker ≡ true = (text_eq_iff r.worker_id worker).1 w in
    find_job-maintained worker id now s
    ∙ ap (on_row _) f
    ∙ ap some (ground (arith, d, ap (repeats_row worker now) g, k, l, o))

Lapsed-outcome :
    (hash : Text) (now until : Time) (r m : JobRow)
    → m ≡ (
        if stamp_less now r.expires_at
        then (if leb 3 r.lease_attempt then end_lease canceled r else end_lease pending r)
        else end_lease expired r)
    → Lapsed hash now until r m
      × (is_pending m.status ≡ true → Lapsed hash now until r (lease_row hash until m))
Lapsed-outcome hash now until r m e = elim (Bool-cases (stamp_less now r.expires_at)) [
  | inr n ↦
      (let i : m ≡ end_lease expired r = ground (arith, n, e) in
        rw i (ran_out n, λ w. ground arith))
  | inl b ↦ elim (Bool-cases (leb 3 r.lease_attempt)) [
    | inl c ↦
        (let i : m ≡ end_lease canceled r = ground (arith, b, c, e) in
          rw i (given_up b (ground (arith, c)), λ w. ground arith))
    | inr c ↦
        (let i : m ≡ end_lease pending r = ground (arith, b, c, e) in
          rw i (waits_again b (ground (arith, c)), λ w. leased_again b (ground (arith, c))))
  ]
]

module _ {A P : Type 0} (net : Addresses A P) where
  -- After any history, a poll of the worker that is answered, with a job or with none, ends a lease of its
  -- that has lapsed: the job has run out, or was leased three times and is canceled, or waits again, or is
  -- leased again.
  pub lease-Lapsed :
      (os : List Op) (calls : Calls) (dispatching : Bool) (worker hash : Text) (now until : Time)
      (answer : Option WorkerJob) (id : Text) (r : JobRow)
      → find_job id (history net os).jobs ≡ some r
      → r.worker_id ≡ worker
      → is_leased r.status ≡ true
      → lease_over r.lease_expires_at now ≡ true
      → (lease calls dispatching (history net os) worker hash now until).1 ≡ ok answer
      → (r' : JobRow) × (find_job id
            (lease calls dispatching (history net os) worker hash now until).0.jobs
          ≡ some r')
        × Lapsed hash now until r r'
  unfolding lease
  lease-Lapsed os calls dispatching worker hash now until answer id r f w l o e =
      let s = history net os in
      let k = lapsed_maintained worker now s id r (history-Sound net os) f w l o in
      elim (Result-cases (lease_rows calls dispatching s worker hash now until)) [
        | inr (x, g) ↦ ground (arith, g)
        | inl ((u, t), g) ↦
            (let (a, b) = Lapsed-outcome hash now until r _ refl in
              rw g (elim (lease_rows-row calls dispatching s worker hash now until t u id _ g k) [
                | inl x ↦ (_, x, a)
                | inr (x, q) ↦ (_, x, b q)
              ]))
      ]
