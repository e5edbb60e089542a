-- ===== src/WorkerJobs/Steps.antt =====
-- The well-formed tables of jobs and dead letters, and the steps between them that move each job by its
-- machine.
use mossward.Common.{
  ◌≡◌, sym, ◌∙◌, subst, Bool, true, false, Option, none, some, List, arith, Text, text_eq,
  text_eq_iff, Time, inl, inr, Bool-cases, Option-cases,
}
use mathlib.Core.Option.{some-injective}
use mossward.WorkerJobs.Jobs.{JobRow, DeadLetter, JobStore, find_job, update_job}
use mossward.WorkerJobs.Quarantine.{is_dead}
use mossward.WorkerJobs.Lookup.{
  Distinct, find_job-update_job, Distinct-update_job, update_job-guard,
}
use mossward.WorkerJobs.Moves.{Move, stays, chain, RowSound, RowSound-Move}

-- The primary key holds, each row is well-formed, and each dead letter is of a job.
pub record Sound (rows : List JobRow) (ds : List DeadLetter) : Type 0 where
  pub distinct : Distinct rows
  pub sound_rows : (id : Text) (r : JobRow) → find_job id rows ≡ some r → RowSound ds r
  pub born : (id : Text) → find_job id rows ≡ none → is_dead id ds ≡ false

-- One step of the tables.
pub record Stepped (now : Time) (token : Option Text) (rows : List JobRow) (ds : List DeadLetter)
    (rows' : List JobRow) (ds' : List DeadLetter) : Type 0 where
  pub moved :
      (id : Text) (r : JobRow)
      → find_job id rows ≡ some r
      → (r' : JobRow) × (find_job id rows' ≡ some r') × Move now token r r'
  pub sound : Sound rows' ds'

-- A step of the whole store.
abbrev pub StoreStep : Time → Option Text → JobStore → JobStore → Type 0
StoreStep now token s t = Stepped now token s.jobs s.dead_letters t.jobs t.dead_letters

abbrev pub StoreSound : JobStore → Type 0
StoreSound s = Sound s.jobs s.dead_letters

pub Stepped-same :
    {now : Time} {token : Option Text} {rows : List JobRow} {ds : List DeadLetter}
    → Sound rows ds
    → Stepped now token rows ds rows ds
Stepped-same h = record { moved = λ id r e. (r, e, stays); sound = h }

pub Stepped-chain :
    {now : Time} {token : Option Text} {rows rows' rows'' : List JobRow}
    {ds ds' ds'' : List DeadLetter}
    → Stepped now token rows ds rows' ds'
    → Stepped now token rows' ds' rows'' ds''
    → Stepped now token rows ds rows'' ds''
Stepped-chain a b = record {
  moved = λ id r e.
      let (s, f, m) = a.moved id r e in let (t, g, n) = b.moved id s f in (t, g, chain m n);
  sound = b.sound;
}

-- An UPDATE by the primary key whose change is a move where its condition holds.
module _ {now : Time} {token : Option Text} {rows qs : List JobRow} {ds : List DeadLetter}
    (k : Text) (p : JobRow → Bool) (change : JobRow → JobRow)
    (moves : (r : JobRow)
      → find_job k rows ≡ some r
      → RowSound ds r
      → p r ≡ true
      → Move now token r (change r))
    (same : (r : JobRow) → (change r).id ≡ r.id) (h : Sound rows ds)
    (e : update_job k p change rows ≡ some qs) where
  updated-Move :
      (id : Text) (r : JobRow)
      → find_job id rows ≡ some r
      → (r' : JobRow) × (find_job id qs ≡ some r') × Move now token r r'
  updated-Move id r f = elim (Bool-cases (text_eq k id)) [
    | inl b ↦
        (let (q, g, guard) = update_job-guard k p change rows qs e in
          let i : k ≡ id = (text_eq_iff k id).0 b in
          let j : find_job k rows ≡ some r = rw i f in
          (
            change r,
            ground (arith, find_job-update_job id k p change rows qs same e),
            moves r j (h.sound_rows k r j)
                (subst (λ x. p x ≡ true) (some-injective _ _ (sym g ∙ j)) guard),
          ))
    | inr n ↦ (r, ground (arith, find_job-update_job id k p change rows qs same e), stays)
  ]

  updated_from :
      (id : Text) (r' : JobRow)
      → find_job id qs ≡ some r'
      → (r : JobRow) × (find_job id rows ≡ some r)
  updated_from id r' f = elim (Option-cases (find_job id rows)) [
    | inl n ↦ ground (arith, find_job-update_job id k p change rows qs same e, n)
    | inr (r, g) ↦ (r, g)
  ]

  none_from : (id : Text) → find_job id qs ≡ none → find_job id rows ≡ none
  none_from id n = elim (Option-cases (find_job id rows)) [
    | inl m ↦ m
    | inr (r, g) ↦ ground (arith, find_job-update_job id k p change rows qs same e, g)
  ]

  updated_RowSound : (id : Text) (r' : JobRow) → find_job id qs ≡ some r' → RowSound ds r'
  updated_RowSound id r' f =
      let (r, g) = updated_from id r' f in
      let (q, i, m) = updated-Move id r g in
      subst (RowSound ds) (some-injective _ _ (sym i ∙ f)) (RowSound-Move (h.sound_rows id r g) m)

  pub Stepped-update_job : Stepped now token rows ds qs ds
  Stepped-update_job = record {
    moved = updated-Move;
    sound = record {
      distinct = Distinct-update_job k p change rows qs same e h.distinct;
      sound_rows = updated_RowSound;
      born = λ id n. h.born id (none_from id n);
    };
  }
