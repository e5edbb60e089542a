-- ===== src/WorkerJobs/Maintenance.antt =====
-- What the maintenance before a lease does to one job: the quarantine, the end of the validity, and the
-- release of a lapsed lease, as one move of its row.
use mossward.Common.{
  ◌≡◌, refl, sym, ap, subst, Bool, false, ◌&&◌, ◌||◌, not, Option, none, some, List, [], ◌∷◌, ◌++◌,
  arith, if◌then◌else◌, Text, text_eq, text_eq_iff, Time, inl, inr, Bool-cases,
}
use mossward.WorkerJobs.Jobs.{
  pending, canceled, expired, JobRow, DeadLetter, JobStore, is_leased, find_job, update_jobs,
}
use mossward.WorkerJobs.Leases.{outlived, lapsed, expire_outlived, release_lapsed, maintained}
use mossward.WorkerJobs.Quarantine.{
  repeats, is_dead, dead_letter, bury, end_lease, quarantine_repeated_jobs,
}
use mossward.WorkerJobs.Lookup.{
  on_row, change_where, Distinct, find_job-update_jobs, Distinct-update_jobs,
}
use mossward.WorkerJobs.Moves.{Move, stays, cancels, times_out, releases, RowSound}

is_dead-append :
    (id : Text) (ds : List DeadLetter) (d : DeadLetter)
    → is_dead id (ds ++ d ∷ []) ≡ (is_dead id ds || text_eq d.job_id id)
unfolding is_dead
is_dead-append id [] d = ground arith
is_dead-append id (e ∷ ds) d = ground (arith, is_dead-append id ds d)

abbrev pub repeats_row : Text → Time → Option JobRow → Bool
repeats_row worker now none = false
repeats_row worker now (some r) = repeats worker now r

bury_step :
    (id : Text) (q : JobRow) (ds : List DeadLetter) (d : DeadLetter) (c : Bool)
    → d.job_id ≡ q.id
    → is_dead id (if c && not (is_dead q.id ds) then ds ++ d ∷ [] else ds)
      ≡ (is_dead id ds || (text_eq q.id id && c))
bury_step id q ds d c e = elim (Bool-cases (text_eq q.id id)) [
  | inl h ↦
      ground
        (arith, is_dead-append id ds d, ap (λ t. is_dead t ds) ((text_eq_iff q.id id).0 h), e, h)
  | inr n ↦ ground (arith, is_dead-append id ds d, e, n)
]

is_dead-bury :
    (worker id : Text) (now : Time) (rs : List JobRow) (ds : List DeadLetter)
    → Distinct rs
    → is_dead id (bury worker now rs ds)
      ≡ (is_dead id ds || repeats_row worker now (find_job id rs))
unfolding bury find_job Distinct
is_dead-bury worker id now [] ds d = ground arith
is_dead-bury worker id now (q ∷ rs) ds (n, d) = ground (
  arith,
  bury_step id q ds (dead_letter now q) (repeats worker now q) refl,
  is_dead-bury worker id now rs
      (if repeats worker now q && not (is_dead q.id ds) then ds ++ dead_letter now q ∷ [] else ds)
      d,
  text_eq_iff q.id id,
)

abbrev pub stop_dead : List DeadLetter → JobRow → JobRow
stop_dead ds = change_where (λ r. is_dead r.id ds && is_leased r.status) (end_lease canceled)

abbrev pub maintained_row : Text → Time → List DeadLetter → JobRow → JobRow
maintained_row worker now ds r =
    change_where (lapsed worker now) (end_lease pending)
      (change_where (outlived worker now) (end_lease expired) (stop_dead ds r))

on_row-on_row :
    (f g h : JobRow → JobRow) (o : Option JobRow)
    → on_row f (on_row g (on_row h o)) ≡ on_row (λ r. f (g (h r))) o
on_row-on_row f g h none = refl
on_row-on_row f g h (some r) = refl

pub find_job-quarantine :
    (worker id : Text) (now : Time) (s : JobStore)
    → find_job id (quarantine_repeated_jobs worker now s).jobs
      ≡ on_row (stop_dead (quarantine_repeated_jobs worker now s).dead_letters) (find_job id s.jobs)
unfolding quarantine_repeated_jobs
find_job-quarantine worker id now s =
    find_job-update_jobs id
      (λ r. is_dead r.id (bury worker now s.jobs s.dead_letters) && is_leased r.status)
      (end_lease canceled) s.jobs (λ r. refl)

pub Distinct-quarantine :
    (worker : Text) (now : Time) (s : JobStore)
    → Distinct s.jobs
    → Distinct (quarantine_repeated_jobs worker now s).jobs
unfolding quarantine_repeated_jobs
Distinct-quarantine worker now s d = Distinct-update_jobs _ (end_lease canceled) _ (λ r. refl) d

pub is_dead-quarantine :
    (worker : Text) (now : Time) (s : JobStore) (id : Text)
    → Distinct s.jobs
    → is_dead id (quarantine_repeated_jobs worker now s).dead_letters
      ≡ (is_dead id s.dead_letters || repeats_row worker now (find_job id s.jobs))
unfolding quarantine_repeated_jobs
is_dead-quarantine worker now s id d = is_dead-bury worker id now s.jobs s.dead_letters d

pub find_job-maintained :
    (worker id : Text) (now : Time) (s : JobStore)
    → find_job id (maintained worker now s).jobs
      ≡ on_row
          (maintained_row worker now (maintained worker now s).dead_letters)
          (find_job id s.jobs)
unfolding maintained release_lapsed expire_outlived
find_job-maintained worker id now s =
    let q = quarantine_repeated_jobs worker now s in
    rw
      (
        find_job-update_jobs id (lapsed worker now) (end_lease pending)
            (update_jobs (outlived worker now) (end_lease expired) q.jobs) (λ r. refl),
        find_job-update_jobs id (outlived worker now) (end_lease expired) q.jobs (λ r. refl),
        find_job-quarantine worker id now s,
      )
      (on_row-on_row _ _ _ (find_job id s.jobs))

pub Distinct-maintained :
    (worker : Text) (now : Time) (s : JobStore)
    → Distinct s.jobs
    → Distinct (maintained worker now s).jobs
unfolding maintained release_lapsed expire_outlived
Distinct-maintained worker now s d =
    Distinct-update_jobs _ (end_lease pending) _ (λ r. refl)
      (Distinct-update_jobs _ (end_lease expired) _ (λ r. refl)
        (Distinct-quarantine worker now s d))

pub is_dead-maintained :
    (worker : Text) (now : Time) (s : JobStore) (id : Text)
    → Distinct s.jobs
    → is_dead id (maintained worker now s).dead_letters
      ≡ (is_dead id s.dead_letters || repeats_row worker now (find_job id s.jobs))
unfolding maintained
is_dead-maintained worker now s id d = is_dead-quarantine worker now s id d

as_moved :
    {now : Time} {token : Option Text} {r s t : JobRow}
    → Move now token r s
    → t ≡ s
    → Move now token r t
as_moved {now} {token} {r} m e = subst (λ q. Move now token r q) (sym e) m

abbrev Buried : Text → Time → List DeadLetter → List DeadLetter → JobRow → Type 0
Buried worker now ds es r = is_dead r.id es ≡ (is_dead r.id ds || repeats worker now r)

pub stop_dead-Move :
    (worker : Text) (now : Time) (ds es : List DeadLetter) (r : JobRow)
    → RowSound ds r
    → Buried worker now ds es r
    → Move now none r (stop_dead es r)
stop_dead-Move worker now ds es r h e = elim (Bool-cases (is_dead r.id es && is_leased r.status)) [
  | inl b ↦ as_moved (cancels (ground arith) (ground arith) (ground arith)) (ground arith)
  | inr b ↦ as_moved stays (ground arith)
]

pub stop_dead-RowSound :
    (worker : Text) (now : Time) (ds es : List DeadLetter) (r : JobRow)
    → RowSound ds r
    → Buried worker now ds es r
    → RowSound es (stop_dead es r)
stop_dead-RowSound worker now ds es r h e = ground arith

pub maintained_row-Move :
    (worker : Text) (now : Time) (ds es : List DeadLetter) (r : JobRow)
    → RowSound ds r
    → Buried worker now ds es r
    → Move now none r (maintained_row worker now es r)
maintained_row-Move worker now ds es r h e =
    elim (Bool-cases (is_dead r.id es && is_leased r.status)) [
      | inl b ↦ as_moved (cancels (ground arith) (ground arith) (ground arith)) (ground arith)
      | inr b ↦ elim (Bool-cases (outlived worker now r)) [
        | inl o ↦ as_moved (times_out (ground arith) (ground arith)) (ground arith)
        | inr o ↦ elim (Bool-cases (lapsed worker now r)) [
          | inl l ↦
              as_moved
                (releases (record {
                  under = ground arith;
                  over = ground arith;
                  valid = ground arith;
                  few = ground arith;
                }))
                (ground arith)
          | inr l ↦ as_moved stays (ground arith)
        ]
      ]
    ]

pub maintained_row-RowSound :
    (worker : Text) (now : Time) (ds es : List DeadLetter) (r : JobRow)
    → RowSound ds r
    → Buried worker now ds es r
    → RowSound es (maintained_row worker now es r)
maintained_row-RowSound worker now ds es r h e = ground arith
