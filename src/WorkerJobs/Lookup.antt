-- ===== src/WorkerJobs/Lookup.antt =====
-- The table of jobs as a map from its primary key: what an UPDATE does to a look-up.
use mossward.Common.{
  ◌≡◌, refl, ap, Option-cases, Bool-cases, Bool, true, Option, none, some, List, [], ◌∷◌, ◌++◌,
  arith, if◌then◌else◌, Text, text_eq, text_eq_iff, inl, inr,
}
use mathlib.Core.Option.{some-injective}
use mossward.WorkerJobs.Jobs.{JobRow, find_job, update_job, update_jobs}

abbrev pub on_row : (JobRow → JobRow) → Option JobRow → Option JobRow
on_row change none = none
on_row change (some r) = some (change r)

abbrev pub change_where : (JobRow → Bool) → (JobRow → JobRow) → JobRow → JobRow
change_where p change r = if p r then change r else r

unfoldable pub Distinct : List JobRow → Type 0
Distinct [] = Unit
Distinct (r ∷ rs) = (find_job r.id rs ≡ none) × Distinct rs

pub find_job-id : (id : Text) (rs : List JobRow) (r : JobRow) → find_job id rs ≡ some r → r.id ≡ id
unfolding find_job
find_job-id id [] r e = ground arith
find_job-id id (q ∷ rs) r e = ground (arith, find_job-id id rs r, text_eq_iff q.id id)

pub find_job-append :
    (id : Text) (rs qs : List JobRow) (r : JobRow)
    → find_job id rs ≡ some r
    → find_job id (rs ++ qs) ≡ some r
unfolding find_job
find_job-append id [] qs r e = ground arith
find_job-append id (q ∷ rs) qs r e = ground (arith, find_job-append id rs qs r)

pub find_job-append_none :
    (id : Text) (rs qs : List JobRow)
    → find_job id rs ≡ none
    → find_job id (rs ++ qs) ≡ find_job id qs
unfolding find_job
find_job-append_none id [] qs e = refl
find_job-append_none id (q ∷ rs) qs e = ground (arith, find_job-append_none id rs qs)

pub find_job-update_jobs :
    (id : Text) (p : JobRow → Bool) (change : JobRow → JobRow) (rs : List JobRow)
    → ((r : JobRow) → (change r).id ≡ r.id)
    → find_job id (update_jobs p change rs) ≡ on_row (change_where p change) (find_job id rs)
unfolding find_job update_jobs
find_job-update_jobs id p change [] same = refl
find_job-update_jobs id p change (q ∷ rs) same =
    ground (arith, find_job-update_jobs id p change rs same, ap (λ t. text_eq t id) (same q))

pub find_job-update_job :
    (id k : Text) (p : JobRow → Bool) (change : JobRow → JobRow) (rs qs : List JobRow)
    → ((r : JobRow) → (change r).id ≡ r.id)
    → update_job k p change rs ≡ some qs
    → find_job id qs ≡ (if text_eq k id then on_row change (find_job id rs) else find_job id rs)
unfolding find_job update_job
find_job-update_job id k p change [] qs same e = ground arith
find_job-update_job id k p change (q ∷ rs) qs same e =
    elim (Option-cases (update_job k p change rs)) [
      | inl n ↦ ground (
        arith,
        n,
        ap (λ t. text_eq t id) (same q),
        text_eq_iff q.id k,
        text_eq_iff q.id id,
        text_eq_iff k id,
      )
      | inr (ts, t) ↦ ground (
        arith,
        t,
        ap (λ t. text_eq t id) (same q),
        text_eq_iff q.id k,
        text_eq_iff q.id id,
        text_eq_iff k id,
        find_job-update_job id k p change rs ts same t,
      )
    ]

pub update_job-guard :
    (k : Text) (p : JobRow → Bool) (change : JobRow → JobRow) (rs qs : List JobRow)
    → update_job k p change rs ≡ some qs
    → (r : JobRow) × (find_job k rs ≡ some r) × (p r ≡ true)
unfolding find_job update_job
update_job-guard k p change [] qs e = ground arith
update_job-guard k p change (q ∷ rs) qs e = elim (Bool-cases (text_eq q.id k)) [
  | inl h ↦ (q, ground (arith, h), ground (arith, h))
  | inr h ↦ elim (Option-cases (update_job k p change rs)) [
    | inl n ↦ ground (arith, n, h)
    | inr (ts, t) ↦
        (let (r, f, g) = update_job-guard k p change rs ts t in (r, ground (arith, f, h), g))
  ]
]

pub update_job-found :
    (k : Text) (p : JobRow → Bool) (change : JobRow → JobRow) (rs : List JobRow) (r : JobRow)
    → find_job k rs ≡ some r
    → p r ≡ true
    → (qs : List JobRow) × (update_job k p change rs ≡ some qs)
unfolding find_job update_job
update_job-found k p change [] r f g = ground arith
update_job-found k p change (q ∷ rs) r f g = elim (Bool-cases (text_eq q.id k)) [
  | inl b ↦ (
    change q ∷ rs,
    let i : q ≡ r = some-injective _ _ (ground (arith, f, b)) in ground (arith, b, g, ap p i),
  )
  | inr n ↦
      let (ts, e) = update_job-found k p change rs r (ground (arith, f, n)) g in
      (q ∷ ts, ground (arith, e, n))
]

change_where-id :
    (p : JobRow → Bool) (change : JobRow → JobRow)
    → ((r : JobRow) → (change r).id ≡ r.id)
    → (r : JobRow) → (change_where p change r).id ≡ r.id
change_where-id p change same r = ground (arith, same r)

pub Distinct-update_jobs :
    (p : JobRow → Bool) (change : JobRow → JobRow) (rs : List JobRow)
    → ((r : JobRow) → (change r).id ≡ r.id)
    → Distinct rs
    → Distinct (update_jobs p change rs)
unfolding Distinct update_jobs
Distinct-update_jobs p change [] same d = tt
Distinct-update_jobs p change (q ∷ rs) same (n, d) = (
  rw (change_where-id p change same q, find_job-update_jobs q.id p change rs same, n) refl,
  Distinct-update_jobs p change rs same d,
)

pub Distinct-update_job :
    (k : Text) (p : JobRow → Bool) (change : JobRow → JobRow) (rs qs : List JobRow)
    → ((r : JobRow) → (change r).id ≡ r.id)
    → update_job k p change rs ≡ some qs
    → Distinct rs
    → Distinct qs
unfolding Distinct update_job
Distinct-update_job k p change [] qs same e d = ground arith
Distinct-update_job k p change (q ∷ rs) qs same e (n, d) = elim (Bool-cases (text_eq q.id k)) [
  | inl h ↦ let l : qs ≡ change q ∷ rs = ground (arith, h) in rw l (rw (same q) n, d)
  | inr h ↦ elim (Option-cases (update_job k p change rs)) [
    | inl m ↦ ground (arith, m, h)
    | inr (ts, t) ↦
        (let l : qs ≡ q ∷ ts = ground (arith, t, h) in
          rw l (
            ground (arith, find_job-update_job q.id k p change rs ts same t),
            Distinct-update_job k p change rs ts same t d,
          ))
  ]
]

pub Distinct-append :
    (rs : List JobRow) (r : JobRow)
    → find_job r.id rs ≡ none
    → Distinct rs
    → Distinct (rs ++ r ∷ [])
unfolding Distinct find_job
Distinct-append [] r n d = (refl, tt)
Distinct-append (q ∷ rs) r n (m, d) = (
  ground (
    arith,
    find_job-append_none q.id rs (r ∷ []) m,
    text_eq_iff q.id r.id,
    text_eq_iff r.id q.id,
  ),
  Distinct-append rs r (ground arith) d,
)
