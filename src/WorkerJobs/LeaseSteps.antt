-- ===== src/WorkerJobs/LeaseSteps.antt =====
-- The creation, the lease and the renewal of jobs are steps of the well-formed tables.
use mossward.Common.{
  ◌≡◌, refl, sym, ◌∙◌, ap, subst, Bool, true, false, ◌&&◌, not, Option, none, some, List, [], ◌∷◌,
  ◌++◌, arith, Text, text_eq, text_eq_iff, text_eq_refl, Time, inl, inr, Bool-cases, Option-cases,
  ok, Result-cases,
}
use mathlib.Core.Option.{some-injective}
use mossward.WorkerJobs.Jobs.{JobRow, JobStore, WorkerJob, Calls, find_job, update_job, is_pending}
use mossward.WorkerJobs.Leases.{
  new_job, maintained, create_job, create_rows, lease, lease_rows, pick, oldest_pending, older,
  waits, holds_pending, lease_row,
}
use mossward.WorkerJobs.Renewal.{renew, renew_rows, holds_lease, renew_row}
use mossward.WorkerJobs.Lookup.{Distinct}
use mossward.WorkerJobs.Moves.{Move, prolongs, holds_lease-Runs}
use mossward.WorkerJobs.Steps.{
  Stepped-same, Stepped-chain, Stepped-update_job, StoreStep, StoreSound,
}
use mossward.WorkerJobs.Sweeps.{Stepped-maintained, Stepped-created}

-- The row that a lease picks, as the primary key finds it.
picked_tail :
    (q r : JobRow) (rs : List JobRow)
    → find_job q.id rs ≡ none
    → find_job r.id rs ≡ some r
    → find_job r.id (q ∷ rs) ≡ some r
unfolding find_job
picked_tail q r rs n f = elim (Bool-cases (text_eq q.id r.id)) [
  | inl e ↦ ground (arith, f, n, ap (λ t. find_job t rs) ((text_eq_iff q.id r.id).0 e))
  | inr e ↦ ground (arith, f, e)
]

picked_head : (q : JobRow) (rs : List JobRow) → find_job q.id (q ∷ rs) ≡ some q
unfolding find_job
picked_head q rs = ground (arith, text_eq_refl q.id)

abbrev Picked : Text → Time → List JobRow → JobRow → Type 0
Picked worker now rows r = (find_job r.id rows ≡ some r) × (waits worker now r ≡ true)

pub oldest_pending-Picked :
    (worker : Text) (now : Time) (rows : List JobRow) (r : JobRow)
    → Distinct rows
    → oldest_pending worker now rows ≡ some r
    → Picked worker now rows r
unfolding Distinct oldest_pending
oldest_pending-Picked worker now [] r d e = ground arith
oldest_pending-Picked worker now (q ∷ rs) r (n, d) e =
    elim (Option-cases (oldest_pending worker now rs)) [
      | inl m ↦
          (let i : q ≡ r = some-injective _ _ (ground (arith, m)) in
            let w : waits worker now q ≡ true = ground (arith, m) in
            subst (Picked worker now (q ∷ rs)) i (picked_head q rs, w))
      | inr (s, m) ↦
          (let (f, w) = oldest_pending-Picked worker now rs s d m in
            elim (Bool-cases (waits worker now q && not (older s q))) [
              | inl b ↦
                  subst (Picked worker now (q ∷ rs)) (some-injective _ _ (ground (arith, m, b)))
                    (picked_head q rs, ground (arith, b))
              | inr b ↦
                  subst (Picked worker now (q ∷ rs)) (some-injective _ _ (ground (arith, m, b)))
                    (picked_tail q s rs n f, w)
            ])
    ]

pick-Picked :
    (dispatching : Bool) (worker : Text) (now : Time) (rows : List JobRow) (r : JobRow)
    → Distinct rows
    → pick dispatching worker now rows ≡ some r
    → Picked worker now rows r
pick-Picked true worker now rows r d e = oldest_pending-Picked worker now rows r d e
pick-Picked false worker now rows r d e = ground arith

module _ (s : JobStore) (h : StoreSound s) where
  create_rows-Step :
      (calls : Calls) (j : WorkerJob) (now : Time) (t : JobStore)
      → is_pending j.status ≡ true
      → create_rows calls s j now ≡ ok (tt, t)
      → StoreStep now none s t
  unfolding create_rows
  create_rows-Step calls j now t w e = elim (Option-cases (find_job j.id s.jobs)) [
    | inr (r, f) ↦ ground (arith, f)
    | inl n ↦
        (let a : t.jobs ≡ s.jobs ++ new_job j now ∷ [] = ground (arith, n) in
          let b : t.dead_letters ≡ s.dead_letters = ground (arith, n) in
          rw (a, b) (Stepped-created now h j n w))
  ]

  pub create_job-Step :
      (calls : Calls) (j : WorkerJob) (now : Time)
      → is_pending j.status ≡ true
      → StoreStep now none s (create_job calls s j now).0
  unfolding create_job
  create_job-Step calls j now w = elim (Result-cases (create_rows calls s j now)) [
    | inr (e, f) ↦ rw f (Stepped-same h)
    | inl ((u, t), f) ↦ rw f (create_rows-Step calls j now t w f)
  ]

  renew_rows-Step :
      (calls : Calls) (worker id hash : Text) (now requested until : Time) (t : JobStore)
      → renew_rows calls s worker id hash now requested ≡ ok (until, t)
      → StoreStep now (some hash) s t
  unfolding renew_rows
  renew_rows-Step calls worker id hash now requested until t e =
      elim (Option-cases
        (update_job id (holds_lease worker hash now) (renew_row requested) s.jobs)) [
          | inl n ↦ ground (arith, n)
          | inr (qs, f) ↦
              (let a : t.jobs ≡ qs = ground (arith, f) in
                let b : t.dead_letters ≡ s.dead_letters = ground (arith, f) in
                rw (a, b)
                  (Stepped-update_job id (holds_lease worker hash now) (renew_row requested)
                    (λ r g v w. prolongs requested (holds_lease-Runs worker hash now r w))
                    (λ r. refl) h f))
        ]

  pub renew-Step :
      (calls : Calls) (worker id hash : Text) (now requested : Time)
      → StoreStep now (some hash) s (renew calls s worker id hash now requested).0
  unfolding renew
  renew-Step calls worker id hash now requested =
      elim (Result-cases (renew_rows calls s worker id hash now requested)) [
        | inr (e, f) ↦ rw f (Stepped-same h)
        | inl ((u, t), f) ↦ rw f (renew_rows-Step calls worker id hash now requested u t f)
      ]

  lease_rows-Step :
      (calls : Calls) (dispatching : Bool) (worker hash : Text) (now until : Time)
      (answer : Option WorkerJob) (t : JobStore)
      → lease_rows calls dispatching s worker hash now until ≡ ok (answer, t)
      → StoreStep now none s t
  unfolding lease_rows
  lease_rows-Step calls dispatching worker hash now until answer t e =
      let m : StoreStep now none s (maintained worker now s) = Stepped-maintained worker now s h in
      elim (Option-cases (pick dispatching worker now (maintained worker now s).jobs)) [
        | inl n ↦ let a : t ≡ maintained worker now s = ground (arith, n) in rw a m
        | inr (r, p) ↦
            elim (Option-cases (
              update_job r.id (holds_pending worker) (lease_row hash until)
                (maintained worker now s).jobs)) [
                  | inl n ↦ ground (arith, n, p)
                  | inr (qs, f) ↦
                      (let a : t.jobs ≡ qs = ground (arith, f, p) in
                        let b : t.dead_letters ≡ (maintained worker now s).dead_letters =
                          ground (arith, f, p) in
                        rw (a, b)
                          (Stepped-chain m (
                            Stepped-update_job r.id (holds_pending worker) (lease_row hash until)
                              (λ q g v w. Move.hands_out hash until (ground arith) (
                                let (i, j) =
                                  pick-Picked dispatching worker now (maintained worker now s).jobs
                                    r m.sound.distinct p in
                                rw (some-injective _ _ (sym g ∙ i)) (ground (arith, j))))
                              (λ q. refl) m.sound f)))
                ]
      ]

  pub lease-Step :
      (calls : Calls) (dispatching : Bool) (worker hash : Text) (now until : Time)
      → StoreStep now none s (lease calls dispatching s worker hash now until).0
  unfolding lease
  lease-Step calls dispatching worker hash now until =
      elim (Result-cases (lease_rows calls dispatching s worker hash now until)) [
        | inr (e, f) ↦ rw f (Stepped-same h)
        | inl ((u, t), f) ↦ rw f (lease_rows-Step calls dispatching worker hash now until u t f)
      ]
