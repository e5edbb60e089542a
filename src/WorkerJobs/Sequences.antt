-- ===== src/WorkerJobs/Sequences.antt =====
-- internal/store/worker_evidence.go: the sequence numbers of the evidence of a job over a history.
use mossward.Common.{
  ℕ, zero, suc, ◌+◌, ◌≡◌, refl, ◌∙◌, ap, true, ◌&&◌, not, List, [], ◌∷◌, ◌++◌, arith, if◌then◌else◌,
  ltb, Text, text_eq, text_eq_iff, Time, inl, inr, Bool-cases, ok, Result-cases,
}
use mossward.WorkerJobs.Jobs.{JobStore, BatchRow, Calls}
use mossward.WorkerJobs.Evidence.{
  EvidenceBatch, record_evidence, evidence_rows, validate_evidence_sequence, batch_row, last_batch,
  sequence_of,
}
use mossward.WorkerJobs.Validation.{Addresses}
use mossward.WorkerJobs.History.{
  Op, dispatches, leases, renews, records_evidence, completes, reassigns, apply, run, no_jobs,
}
use mossward.WorkerJobs.Refinement.{history}
use mossward.WorkerJobs.Batches.{
  lease-batches, renew-batches, complete-batches, dispatch-batches, reassign_expired-batches,
}

-- The sequence numbers of a job's batches, in the order in which they were stored.
unfoldable pub job_sequences : Text → List BatchRow → List ℕ
job_sequences job [] = []
job_sequences job (b ∷ bs) =
    let rest = job_sequences job bs in if text_eq b.job_id job then b.sequence ∷ rest else rest

-- 1, 2, ..., n
unfoldable pub numbered : ℕ → List ℕ
numbered zero = []
numbered (suc n) = numbered n ++ suc n ∷ []

record Numbered (job : Text) (bs : List BatchRow) : Type 0 where
  count : ℕ
  sequences : job_sequences job bs ≡ numbered count
  last : sequence_of (last_batch job bs) ≡ count

job_sequences-append :
    (job : Text) (bs : List BatchRow) (b : BatchRow)
    → job_sequences job (bs ++ b ∷ []) ≡ (
        if text_eq b.job_id job
        then job_sequences job bs ++ b.sequence ∷ []
        else job_sequences job bs)
unfolding job_sequences
job_sequences-append job [] b = ground arith
job_sequences-append job (c ∷ bs) b = ground (arith, job_sequences-append job bs b)

last_batch-append :
    (job : Text) (bs : List BatchRow) (b : BatchRow)
    → sequence_of (last_batch job (bs ++ b ∷ [])) ≡ (
        if text_eq b.job_id job && not (ltb b.sequence (sequence_of (last_batch job bs)))
        then b.sequence
        else sequence_of (last_batch job bs))
unfolding last_batch
last_batch-append job [] b = ground arith
last_batch-append job (c ∷ bs) b = ground (arith, last_batch-append job bs b)

numbered_next :
    (job : Text) (bs : List BatchRow) (b : BatchRow) (n : ℕ)
    → text_eq b.job_id job ≡ true
    → b.sequence ≡ suc n
    → job_sequences job bs ≡ numbered n
    → (if text_eq b.job_id job
        then job_sequences job bs ++ b.sequence ∷ []
        else job_sequences job bs)
      ≡ numbered (suc n)
unfolding numbered
numbered_next job bs b n k i e = ground (arith, k, i, e)

Numbered-append :
    (job : Text) (bs : List BatchRow) (b : BatchRow)
    → Numbered job bs
    → b.sequence ≡ sequence_of (last_batch b.job_id bs) + 1
    → Numbered job (bs ++ b ∷ [])
Numbered-append job bs b h e = elim (Bool-cases (text_eq b.job_id job)) [
  | inr n ↦ record {
    count = h.count;
    sequences = ground (arith, job_sequences-append job bs b, n, h.sequences);
    last = ground (arith, last_batch-append job bs b, n, h.last);
  }
  | inl k ↦
      (let i : b.sequence ≡ suc h.count = ground (
        arith,
        e,
        ap (λ j. sequence_of (last_batch j bs)) ((text_eq_iff b.job_id job).0 k),
        h.last,
      ) in
        record {
          count = suc h.count;
          sequences =
              job_sequences-append job bs b ∙ numbered_next job bs b h.count k i h.sequences;
          last = last_batch-append job bs b ∙ ground (arith, k, i, h.last);
        })
]

validate_evidence_sequence-next :
    (calls : Calls) (s : JobStore) (b : EvidenceBatch) (now : Time)
    → validate_evidence_sequence calls s b now ≡ ok tt
    → b.sequence ≡ sequence_of (last_batch b.job_id s.batches) + 1
unfolding validate_evidence_sequence
validate_evidence_sequence-next calls s b now e = ground arith

evidence_rows-batches :
    (calls : Calls) (s t : JobStore) (b : EvidenceBatch) (now : Time)
    → evidence_rows calls s b now ≡ ok (tt, t)
    → (t.batches ≡ s.batches ++ batch_row b ∷ [])
      × (validate_evidence_sequence calls s b now ≡ ok tt)
unfolding evidence_rows
evidence_rows-batches calls s t b now e = (ground arith, ground arith)

record_evidence-Numbered :
    (calls : Calls) (s : JobStore) (b : EvidenceBatch) (now : Time) (job : Text)
    → Numbered job s.batches
    → Numbered job (record_evidence calls s b now).0.batches
unfolding record_evidence
record_evidence-Numbered calls s b now job h = elim (Result-cases (evidence_rows calls s b now)) [
  | inr (e, f) ↦ rw f h
  | inl ((u, t), f) ↦
      (let (a, v) = evidence_rows-batches calls s t b now f in
        rw (f, a)
          (Numbered-append job s.batches (batch_row b) h
            (validate_evidence_sequence-next calls s b now v)))
]

module _ {A P : Type 0} (net : Addresses A P) where
  apply-Numbered :
      (o : Op) (s : JobStore) (job : Text)
      → Numbered job s.batches
      → Numbered job (apply net o s).batches
  unfolding apply
  apply-Numbered (dispatches calls fleet j now) s job h =
      rw (dispatch-batches net calls fleet s j now) h
  apply-Numbered (leases calls dispatching worker hash now until) s job h =
      rw (lease-batches calls dispatching s worker hash now until) h
  apply-Numbered (renews calls worker id hash now until) s job h =
      rw (renew-batches calls s worker id hash now until) h
  apply-Numbered (records_evidence calls b now) s job h =
      record_evidence-Numbered calls s b now job h
  apply-Numbered (completes calls receipt hash now) s job h =
      rw (complete-batches calls s receipt hash now) h
  apply-Numbered (reassigns reads writes fleet id now) s job h =
      rw (reassign_expired-batches net reads writes fleet s id now) h

  run-Numbered :
      (os : List Op) (s : JobStore) (job : Text)
      → Numbered job s.batches
      → Numbered job (run net os s).batches
  unfolding run
  run-Numbered [] s job h = h
  run-Numbered (o ∷ os) s job h = run-Numbered os (apply net o s) job (apply-Numbered o s job h)

  no_batches : (job : Text) → Numbered job []
  unfolding job_sequences numbered last_batch
  no_batches job = record { count = 0; sequences = refl; last = refl }

  -- After any history, the batches of evidence that were stored for a job have the sequence numbers 1, 2
  -- and so on, in the order in which they came, whichever workers sent them.
  pub history-sequences :
      (os : List Op) (job : Text)
      → (n : ℕ) × (job_sequences job (history net os).batches ≡ numbered n)
  history-sequences os job =
      let h = run-Numbered os no_jobs job (no_batches job) in (h.count, h.sequences)
