-- ===== src/WorkerJobs/Selection.antt =====
-- internal/workerjob/dispatcher.go, selectWorkerExcluding: the worker that is chosen, among the candidates.
use mossward.Common.{
  ℕ, ◌≡◌, refl, subst, Bool, true, false, not, some, List, [], ◌∷◌, arith, if◌then◌else◌, ltb, ◌==◌,
  Text, text_less_total, text_less_through, Time, inl, inr, Bool-cases, Option-cases, ℤ, ltb_ℤ,
  eq_ℤ, sub_ℤ,
}
use mossward.WorkerJobs.Jobs.{JobRow, WorkerJob}
use mossward.WorkerJobs.Validation.{Addresses, ScannerWorker}
use mossward.WorkerJobs.Dispatch.{
  WorkerJobLoad, job_load, better, is_candidate, select_from, seen_or_zero,
}

pub data Listed : ScannerWorker → List ScannerWorker → Type 0 where
  here : {w : ScannerWorker} {ws : List ScannerWorker} → Listed w (w ∷ ws)
  there : {v w : ScannerWorker} {ws : List ScannerWorker} → Listed w ws → Listed w (v ∷ ws)

abbrev pub at_load : Time → List JobRow → ScannerWorker → ScannerWorker × WorkerJobLoad
at_load now rows w = (w, job_load w.id now rows)

-- A worker that may have the job, with its load.
pub record IsCandidate {A P : Type 0} (net : Addresses A P) (j : WorkerJob) (excluded : Text)
    (now : Time) (rows : List JobRow) (ws : List ScannerWorker) (c : ScannerWorker × WorkerJobLoad)
    : Type 0 where
  pub listed : Listed c.0 ws
  pub loaded : c.1 ≡ job_load c.0.id now rows
  pub candidate : is_candidate net j excluded now c.0 c.1 ≡ true

module _ {A P : Type 0} (net : Addresses A P) (j : WorkerJob) (excluded : Text) (now : Time)
    (rows : List JobRow) where
  IsCandidate-there :
      (v : ScannerWorker) (ws : List ScannerWorker) (c : ScannerWorker × WorkerJobLoad)
      → IsCandidate net j excluded now rows ws c
      → IsCandidate net j excluded now rows (v ∷ ws) c
  IsCandidate-there v ws c h = record {
    listed = there h.listed;
    loaded = h.loaded;
    candidate = h.candidate;
  }

  IsCandidate-here :
      (w : ScannerWorker) (ws : List ScannerWorker)
      → is_candidate net j excluded now w (job_load w.id now rows) ≡ true
      → IsCandidate net j excluded now rows (w ∷ ws) (at_load now rows w)
  IsCandidate-here w ws e = record { listed = here; loaded = refl; candidate = e }

  pub select_from-IsCandidate :
      (ws : List ScannerWorker) (c : ScannerWorker × WorkerJobLoad)
      → select_from net j excluded now rows ws ≡ some c
      → IsCandidate net j excluded now rows ws c
  unfolding select_from
  select_from-IsCandidate [] c e = ground arith
  select_from-IsCandidate (w ∷ ws) c e =
      elim (Bool-cases (is_candidate net j excluded now w (job_load w.id now rows))) [
        | inr n ↦ IsCandidate-there w ws c (select_from-IsCandidate ws c (ground (arith, n)))
        | inl b ↦ elim (Option-cases (select_from net j excluded now rows ws)) [
          | inl m ↦
              subst (IsCandidate net j excluded now rows (w ∷ ws)) (ground (arith, b, m, e))
                (IsCandidate-here w ws b)
          | inr (d, m) ↦ elim (Bool-cases (better d (at_load now rows w))) [
            | inl g ↦
                subst (IsCandidate net j excluded now rows (w ∷ ws)) (ground (arith, b, m, g, e))
                  (IsCandidate-there w ws d (select_from-IsCandidate ws d m))
            | inr g ↦
                subst (IsCandidate net j excluded now rows (w ∷ ws)) (ground (arith, b, m, g, e))
                  (IsCandidate-here w ws b)
          ]
        ]
      ]

-- The order of the candidates is a strict weak order.
better-asym : (c d : ScannerWorker × WorkerJobLoad) → better c d ≡ true → better d c ≡ false
better-asym (v, k) (w, l) h = ground (arith, text_less_total v.id w.id)

better_irrefl : (c : ScannerWorker × WorkerJobLoad) → better c c ≡ false
better_irrefl c = elim (Bool-cases (better c c)) [ inl e ↦ better-asym c c e | inr n ↦ n ]

rising_through :
    (a b c : ℕ) (x y z : Bool)
    → (x ≡ false → y ≡ false → z ≡ false)
    → (if not (a == b) then ltb a b else x) ≡ false
    → (if not (b == c) then ltb b c else y) ≡ false
    → (if not (a == c) then ltb a c else z) ≡ false
rising_through a b c x y z f p q = ground arith

falling_through :
    (a b c : ℕ) (x y z : Bool)
    → (x ≡ false → y ≡ false → z ≡ false)
    → (if not (a == b) then ltb b a else x) ≡ false
    → (if not (b == c) then ltb c b else y) ≡ false
    → (if not (a == c) then ltb c a else z) ≡ false
falling_through a b c x y z f p q = ground arith

falling_through_ℤ :
    (a b c : ℤ) (x y z : Bool)
    → (x ≡ false → y ≡ false → z ≡ false)
    → (if not (eq_ℤ a b) then ltb_ℤ b a else x) ≡ false
    → (if not (eq_ℤ b c) then ltb_ℤ c b else y) ≡ false
    → (if not (eq_ℤ a c) then ltb_ℤ c a else z) ≡ false
falling_through_ℤ a b c x y z f p q = ground arith

better_through :
    (b c d : ScannerWorker × WorkerJobLoad)
    → better b c ≡ false
    → better c d ≡ false
    → better b d ≡ false
better_through (u, i) (v, k) (w, l) h g =
    rising_through i.active_jobs k.active_jobs l.active_jobs _ _ _
      (falling_through_ℤ (sub_ℤ u.available_concurrency i.reserved_concurrency)
        (sub_ℤ v.available_concurrency k.reserved_concurrency)
        (sub_ℤ w.available_concurrency l.reserved_concurrency) _ _ _
        (falling_through (seen_or_zero u.last_seen_at) (seen_or_zero v.last_seen_at)
          (seen_or_zero w.last_seen_at) _ _ _ (text_less_through u.id v.id w.id)))
      h g

module _ {A P : Type 0} (net : Addresses A P) (j : WorkerJob) (excluded : Text) (now : Time)
    (rows : List JobRow) where
  -- No candidate is better than the one that is chosen, and where there is one, one is chosen.
  pub select_from-best :
      (ws : List ScannerWorker) (v : ScannerWorker)
      → Listed v ws
      → is_candidate net j excluded now v (job_load v.id now rows) ≡ true
      → (c : ScannerWorker × WorkerJobLoad) × (select_from net j excluded now rows ws ≡ some c)
        × (better (at_load now rows v) c ≡ false)
  unfolding select_from
  select_from-best [] v l e = elim l [ ]
  select_from-best (w ∷ ws) v here e =
      elim (Option-cases (select_from net j excluded now rows ws)) [
        | inl m ↦ (at_load now rows v, ground (arith, e, m), better_irrefl (at_load now rows v))
        | inr (d, m) ↦ elim (Bool-cases (better d (at_load now rows v))) [
          | inl g ↦ (d, ground (arith, e, m, g), better-asym d (at_load now rows v) g)
          | inr g ↦
              (at_load now rows v, ground (arith, e, m, g), better_irrefl (at_load now rows v))
        ]
      ]
  select_from-best (w ∷ ws) v (there l) e =
      let (d, m, g) = select_from-best ws v l e in
      elim (Bool-cases (is_candidate net j excluded now w (job_load w.id now rows))) [
        | inr n ↦ (d, ground (arith, n, m), g)
        | inl b ↦ elim (Bool-cases (better d (at_load now rows w))) [
          | inl k ↦ (d, ground (arith, b, m, k), g)
          | inr k ↦ (
            at_load now rows w,
            ground (arith, b, m, k),
            better_through (at_load now rows v) d (at_load now rows w) g k,
          )
        ]
      ]
