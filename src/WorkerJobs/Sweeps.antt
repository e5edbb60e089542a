-- ===== src/WorkerJobs/Sweeps.antt =====
-- The steps of the well-formed tables that change every job, and the one that adds a job.
use mossward.Common.{
  ◌≡◌, sym, ◌∙◌, ap, subst, true, false, ◌||◌, Option, none, some, List, [], ◌∷◌, ◌++◌, arith, Text,
  Time, inl, inr, Option-cases,
}
use mathlib.Core.Option.{some-injective}
use mossward.WorkerJobs.Jobs.{JobRow, DeadLetter, JobStore, WorkerJob, find_job, is_pending}
use mossward.WorkerJobs.Leases.{new_job, maintained}
use mossward.WorkerJobs.Quarantine.{is_dead, repeats, quarantine_repeated_jobs}
use mossward.WorkerJobs.Lookup.{
  on_row, Distinct, find_job-id, find_job-append, find_job-append_none, Distinct-append,
}
use mossward.WorkerJobs.Moves.{Move, stays, RowSound}
use mossward.WorkerJobs.Maintenance.{
  find_job-maintained, Distinct-maintained, is_dead-maintained, maintained_row, maintained_row-Move,
  maintained_row-RowSound, repeats_row, find_job-quarantine, Distinct-quarantine,
  is_dead-quarantine, stop_dead, stop_dead-Move, stop_dead-RowSound,
}
use mossward.WorkerJobs.Steps.{Sound, Stepped, StoreStep}

repeats_at :
    (worker : Text) (now : Time) (ds es : List DeadLetter) (rows : List JobRow) (id : Text)
    (r : JobRow)
    → find_job id rows ≡ some r
    → is_dead id es ≡ (is_dead id ds || repeats_row worker now (find_job id rows))
    → is_dead r.id es ≡ (is_dead r.id ds || repeats worker now r)
repeats_at worker now ds es rows id r f e = rw (find_job-id id rows r f) (rw f at e)

-- A change of each row that buries the repeated jobs.
module _ (worker : Text) (now : Time) (s t : JobStore) (row : JobRow → JobRow)
    (h : Sound s.jobs s.dead_letters)
    (finds : (id : Text) → find_job id t.jobs ≡ on_row row (find_job id s.jobs))
    (distinct : Distinct t.jobs)
    (dead : (id : Text)
      → is_dead id t.dead_letters
        ≡ (is_dead id s.dead_letters || repeats_row worker now (find_job id s.jobs)))
    (moves : (r : JobRow)
      → RowSound s.dead_letters r
      → is_dead r.id t.dead_letters ≡ (is_dead r.id s.dead_letters || repeats worker now r)
      → Move now none r (row r))
    (keeps : (r : JobRow)
      → RowSound s.dead_letters r
      → is_dead r.id t.dead_letters ≡ (is_dead r.id s.dead_letters || repeats worker now r)
      → RowSound t.dead_letters (row r)) where
  dead_at :
      (id : Text) (r : JobRow)
      → find_job id s.jobs ≡ some r
      → is_dead r.id t.dead_letters ≡ (is_dead r.id s.dead_letters || repeats worker now r)
  dead_at id r f = repeats_at worker now s.dead_letters t.dead_letters s.jobs id r f (dead id)

  swept_from :
      (id : Text) (r' : JobRow)
      → find_job id t.jobs ≡ some r'
      → (r : JobRow) × (find_job id s.jobs ≡ some r) × (r' ≡ row r)
  swept_from id r' f = elim (Option-cases (find_job id s.jobs)) [
    | inl n ↦ ground (arith, finds id, n)
    | inr (r, g) ↦ (r, g, some-injective _ _ (sym f ∙ finds id ∙ ap (on_row _) g))
  ]

  swept_RowSound :
      (id : Text) (r' : JobRow) → find_job id t.jobs ≡ some r' → RowSound t.dead_letters r'
  swept_RowSound id r' f =
      let (r, g, e) = swept_from id r' f in rw e (keeps r (h.sound_rows id r g) (dead_at id r g))

  swept_born : (id : Text) → find_job id t.jobs ≡ none → is_dead id t.dead_letters ≡ false
  swept_born id n = elim (Option-cases (find_job id s.jobs)) [
    | inl m ↦ dead id ∙ (rw m (ground (arith, h.born id m)))
    | inr (r, g) ↦ ground (arith, finds id, g, n)
  ]

  Stepped-swept : StoreStep now none s t
  Stepped-swept = record {
    moved = λ id r f.
        (row r, finds id ∙ ap (on_row _) f, moves r (h.sound_rows id r f) (dead_at id r f));
    sound = record { distinct = distinct; sound_rows = swept_RowSound; born = swept_born };
  }

module _ (worker : Text) (now : Time) (s : JobStore) (h : Sound s.jobs s.dead_letters) where
  pub Stepped-maintained : StoreStep now none s (maintained worker now s)
  Stepped-maintained =
      Stepped-swept worker now s (maintained worker now s)
        (maintained_row worker now (maintained worker now s).dead_letters) h
        (λ id. find_job-maintained worker id now s) (Distinct-maintained worker now s h.distinct)
        (λ id. is_dead-maintained worker now s id h.distinct)
        (λ r. maintained_row-Move worker now _ _ r) (λ r. maintained_row-RowSound worker now _ _ r)

  pub Stepped-quarantine : StoreStep now none s (quarantine_repeated_jobs worker now s)
  Stepped-quarantine =
      Stepped-swept worker now s (quarantine_repeated_jobs worker now s)
        (stop_dead (quarantine_repeated_jobs worker now s).dead_letters) h
        (λ id. find_job-quarantine worker id now s) (Distinct-quarantine worker now s h.distinct)
        (λ id. is_dead-quarantine worker now s id h.distinct) (λ r. stop_dead-Move worker now _ _ r)
        (λ r. stop_dead-RowSound worker now _ _ r)

find_one : (id : Text) (q r : JobRow) → find_job id (q ∷ []) ≡ some r → q ≡ r
unfolding find_job
find_one id q r e = ground arith

module _ (now : Time) {rows : List JobRow} {ds : List DeadLetter} (h : Sound rows ds)
    (j : WorkerJob) (n : find_job j.id rows ≡ none) (w : is_pending j.status ≡ true) where
  new_RowSound : RowSound ds (new_job j now)
  unfolding new_job
  new_RowSound = ground (arith, h.born j.id n)

  appended_RowSound :
      (id : Text) (r : JobRow) → find_job id (rows ++ new_job j now ∷ []) ≡ some r → RowSound ds r
  appended_RowSound id r f = elim (Option-cases (find_job id rows)) [
    | inl m ↦
        subst (RowSound ds)
          (find_one id (new_job j now) r (sym (find_job-append_none id rows _ m) ∙ f)) new_RowSound
    | inr (q, g) ↦
        subst (RowSound ds) (some-injective _ _ (sym (find_job-append id rows _ q g) ∙ f))
          (h.sound_rows id q g)
  ]

  appended_born :
      (id : Text) → find_job id (rows ++ new_job j now ∷ []) ≡ none → is_dead id ds ≡ false
  appended_born id m = elim (Option-cases (find_job id rows)) [
    | inl k ↦ h.born id k
    | inr (q, g) ↦ ground (arith, find_job-append id rows (new_job j now ∷ []) q g)
  ]

  created_Distinct : Distinct (rows ++ new_job j now ∷ [])
  unfolding new_job
  created_Distinct = Distinct-append rows (new_job j now) n h.distinct

  pub Stepped-created :
      {token : Option Text} → Stepped now token rows ds (rows ++ new_job j now ∷ []) ds
  Stepped-created = record {
    moved = λ id r f. (r, find_job-append id rows _ r f, stays);
    sound = record {
      distinct = created_Distinct;
      sound_rows = appended_RowSound;
      born = appended_born;
    };
  }
