-- ===== src/WorkerJobs/Fairness.antt =====
-- internal/store/worker_job_lease.go: which job the poll of a worker hands out.
use mossward.Common.{
  ◌≡◌, refl, sym, ◌∙◌, ap, subst, true, false, ◌&&◌, not, some, List, [], ◌∷◌, arith, Text, text_eq,
  text_eq_refl, Time, inl, inr, Bool-cases, Option-cases, ok, text_less_total, text_less_through,
}
use mathlib.Core.Option.{some-injective}
use mossward.WorkerJobs.Stamp.{stamp_less_trans, stamp_less_within, stamp_less_irrefl}
use mossward.WorkerJobs.Jobs.{JobRow, JobStore, StoreCall, Calls, settle, find_job, update_job}
use mossward.WorkerJobs.Leases.{
  maintained, lease, lease_rows, holds_pending, lease_row, waits, older, oldest_pending,
}
use mossward.WorkerJobs.Validation.{Addresses}
use mossward.WorkerJobs.History.{Op}
use mossward.WorkerJobs.Lookup.{on_row, find_job-update_job, update_job-found}
use mossward.WorkerJobs.Maintenance.{find_job-maintained, Distinct-maintained}
use mossward.WorkerJobs.Refinement.{history, history-Sound}
use mossward.WorkerJobs.LeaseSteps.{oldest_pending-Picked}

older-asym : (q r : JobRow) → older q r ≡ true → older r q ≡ false
older-asym q r e = ground (
  arith,
  text_less_total q.id r.id,
  stamp_less_trans q.created_at r.created_at q.created_at,
  stamp_less_irrefl q.created_at,
)

older_irrefl : (q : JobRow) → older q q ≡ false
older_irrefl q = elim (Bool-cases (older q q)) [ inl e ↦ older-asym q q e | inr n ↦ n ]

older_through : (q s r : JobRow) → older q s ≡ false → older s r ≡ false → older q r ≡ false
older_through q s r e f = ground (
  arith,
  stamp_less_within q.created_at r.created_at s.created_at,
  stamp_less_within r.created_at s.created_at q.created_at,
  stamp_less_within s.created_at q.created_at r.created_at,
  text_less_through q.id s.id r.id,
)

-- Where a job waits, one that is no younger is the oldest.
oldest_pending-first :
    (worker : Text) (now : Time) (rows : List JobRow) (id : Text) (q : JobRow)
    → find_job id rows ≡ some q
    → waits worker now q ≡ true
    → (r : JobRow) × (oldest_pending worker now rows ≡ some r) × (older q r ≡ false)
unfolding oldest_pending find_job
oldest_pending-first worker now [] id q f w = ground arith
oldest_pending-first worker now (x ∷ rs) id q f w = elim (Bool-cases (text_eq x.id id)) [
  | inl b ↦
      (let i : x ≡ q = some-injective _ _ (ground (arith, b, f)) in
        subst
          (λ y. (r : JobRow) × (oldest_pending worker now (y ∷ rs) ≡ some r) × (older q r ≡ false))
          (sym i)
          (elim (Option-cases (oldest_pending worker now rs)) [
            | inl n ↦ (q, ground (arith, w, n), older_irrefl q)
            | inr (r, m) ↦ elim (Bool-cases (older r q)) [
              | inl o ↦ (r, ground (arith, w, m, o), older-asym r q o)
              | inr o ↦ (q, ground (arith, w, m, o), older_irrefl q)
            ]
          ]))
  | inr n ↦
      (let (r, m, o) = oldest_pending-first worker now rs id q (ground (arith, n, f)) w in
        elim (Bool-cases (waits worker now x && not (older r x))) [
          | inr k ↦ (r, ground (arith, m, k), o)
          | inl k ↦ (x, ground (arith, m, k), older_through q r x o (ground (arith, k)))
        ])
]

waiting_stays :
    (worker : Text) (now : Time) (s : JobStore) (id : Text) (q : JobRow)
    → find_job id s.jobs ≡ some q
    → waits worker now q ≡ true
    → find_job id (maintained worker now s).jobs ≡ some q
waiting_stays worker now s id q f w =
    find_job-maintained worker id now s ∙ ap (on_row _) f ∙ ap some (ground (arith, w))

lease_rows-hands_out :
    (calls : Calls) (s : JobStore) (worker hash : Text) (now until : Time) (r : JobRow)
    (qs : List JobRow)
    → ((c : StoreCall) → calls c ≡ true)
    → oldest_pending worker now (maintained worker now s).jobs ≡ some r
    → update_job r.id (holds_pending worker) (lease_row hash until) (maintained worker now s).jobs
      ≡ some qs
    → lease_rows calls true s worker hash now until
      ≡ ok (some r.job, record (maintained worker now s) { jobs = qs })
unfolding lease_rows
lease_rows-hands_out calls s worker hash now until r qs fine p u = ground (
  arith,
  p,
  u,
  fine StoreCall.begin,
  fine StoreCall.quarantine_jobs,
  fine StoreCall.rows_affected,
  fine StoreCall.fail_scans,
  fine StoreCall.stop_jobs,
  fine StoreCall.expire_jobs,
  fine StoreCall.release_jobs,
  fine StoreCall.query_pending,
  fine StoreCall.lease_job,
  fine StoreCall.unmarshal,
  fine StoreCall.commit,
)

module _ {A P : Type 0} (net : Addresses A P) where
  -- After any history, where a job waits for the polling worker, the worker and the settings have dispatch
  -- enabled and no call of the database fails, the poll hands out a job: one that waited, or waits after
  -- the maintenance, that no waiting job is older than, with its attempts counted and the given token.
  pub lease-oldest :
      (os : List Op) (calls : Calls) (worker hash : Text) (now until : Time) (id : Text)
      (q : JobRow)
      → ((c : StoreCall) → calls c ≡ true)
      → find_job id (history net os).jobs ≡ some q
      → waits worker now q ≡ true
      → (r : JobRow) × ((lease calls true (history net os) worker hash now until).1
          ≡ ok (some r.job))
        × (find_job r.id (maintained worker now (history net os)).jobs ≡ some r)
        × (waits worker now r ≡ true)
        × (older q r ≡ false)
        × (find_job r.id (lease calls true (history net os) worker hash now until).0.jobs
            ≡ some (lease_row hash until r))
  unfolding lease
  lease-oldest os calls worker hash now until id q fine f w =
      let s = history net os in
      let m = maintained worker now s in
      let (r, p, o) =
        oldest_pending-first worker now m.jobs id q (waiting_stays worker now s id q f w) w in
      let (g, v) =
        oldest_pending-Picked worker now m.jobs r
          (Distinct-maintained worker now s (history-Sound net os).distinct) p in
      let (qs, u) =
        update_job-found r.id (holds_pending worker) (lease_row hash until) m.jobs r g
          (ground (arith, v)) in
      let k =
        find_job-update_job r.id r.id (holds_pending worker) (lease_row hash until) m.jobs qs
          (λ x. refl) u in
      let e : lease_rows calls true s worker hash now until
          ≡ ok (some r.job, record m { jobs = qs }) =
        lease_rows-hands_out calls s worker hash now until r qs fine p u in
      (
        r,
        ap (λ x. (settle s x).1) e,
        g,
        v,
        o,
        ap (λ x. find_job r.id (settle s x).0.jobs) e ∙ ground (arith, k, g, text_eq_refl r.id),
      )
