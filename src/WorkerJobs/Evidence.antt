-- ===== src/WorkerJobs/Evidence.antt =====
-- internal/store/worker_evidence.go: the evidence batches of a job with their checkpoints.
use mossward.Common.{
  ℕ, ◌+◌, Bool, false, ◌||◌, ◌&&◌, not, Option, none, some, List, [], ◌∷◌, ◌++◌, ltb, ◌==◌,
  if◌then◌else◌, Text, text_eq, Time, Result, ok, err, ◌>>=◌, ◌>>◌, reject_if, ℤ, pos, ltb_ℤ, eq_ℤ,
}
use mossward.WorkerJobs.Stamp.{stamp_less}
use mossward.WorkerJobs.Jobs.{
  WorkerCheckpoint, JobRow, BatchRow, CheckpointRow, JobStore, StoreError, invalid_lease,
  evidence_accepted, evidence_replay, evidence_sequence, database, begin, marshal, query_job,
  query_batch, query_last, insert_batch, insert_checkpoint, commit, Calls, step, settle, or_error,
  is_leased, lease_runs, find_job,
}

-- The fields of a signed batch that the store reads; `encoded` is the JSON text of the envelope.
pub record EvidenceBatch : Type 0 where
  pub id : Text
  pub job_id : Text
  pub worker_id : Text
  pub scan_id : Text
  pub sequence : ℕ
  pub final : Bool
  pub checkpoints : List WorkerCheckpoint
  pub encoded : Text

unfoldable pub find_batch : Text → List BatchRow → Option BatchRow
find_batch id [] = none
find_batch id (b ∷ bs) = if text_eq b.batch_id id then some b else find_batch id bs

-- `WHERE job_id=? ORDER BY sequence DESC LIMIT 1`
abbrev pub later_batch : BatchRow → Option BatchRow → Option BatchRow
later_batch b none = some b
later_batch b (some c) = if ltb b.sequence c.sequence then some c else some b

unfoldable pub last_batch : Text → List BatchRow → Option BatchRow
last_batch job [] = none
last_batch job (b ∷ bs) =
    let rest = last_batch job bs in if text_eq b.job_id job then later_batch b rest else rest

abbrev pub sequence_of : Option BatchRow → ℕ
sequence_of none = 0
sequence_of (some b) = b.sequence

abbrev pub is_final_of : Text → Option BatchRow → Bool
is_final_of worker none = false
is_final_of worker (some b) = b.final && text_eq b.worker_id worker

-- The job as validateEvidenceSequence wants it.
abbrev pub accepts_evidence : EvidenceBatch → Time → JobRow → Bool
accepts_evidence b now r =
    text_eq r.worker_id b.worker_id
    && text_eq r.scan_id b.scan_id
    && is_leased r.status
    && stamp_less now r.expires_at
    && lease_runs r.lease_expires_at now

unfoldable pub validate_evidence_sequence :
    Calls → JobStore → EvidenceBatch → Time → Result StoreError (Unit {0})
validate_evidence_sequence calls s b now = do
  step calls query_job
  r ← or_error (find_job b.job_id s.jobs) invalid_lease
  reject_if (not (accepts_evidence b now r)) invalid_lease
  step calls query_last
  let last = last_batch b.job_id s.batches
  reject_if (is_final_of b.worker_id last || not (b.sequence == sequence_of last + 1))
      evidence_sequence

abbrev pub batch_row : EvidenceBatch → BatchRow
batch_row b = record {
  batch_id = b.id;
  job_id = b.job_id;
  worker_id = b.worker_id;
  sequence = b.sequence;
  final = b.final;
  signed_envelope = b.encoded;
}

-- `ON CONFLICT(job_id,address,port) DO NOTHING`
unfoldable pub has_checkpoint : Text → Text → ℤ → List CheckpointRow → Bool
has_checkpoint job address port [] = false
has_checkpoint job address port (c ∷ cs) =
    (text_eq c.job_id job && text_eq c.address address && eq_ℤ c.port port)
    || has_checkpoint job address port cs

abbrev pub add_checkpoint : Text → WorkerCheckpoint → List CheckpointRow → List CheckpointRow
add_checkpoint job c rows =
    if has_checkpoint job c.address c.port rows
    then rows
    else rows
      ++ record { job_id = job; address = c.address; port = c.port; completed_at = c.completed_at }
        ∷ []

-- recordWorkerCheckpoints, with `CHECK(port BETWEEN 1 AND 65535)`
unfoldable pub record_checkpoints :
    Calls
    → Text
    → List WorkerCheckpoint
    → List CheckpointRow
    → Result StoreError (List CheckpointRow)
record_checkpoints calls job [] rows = ok rows
record_checkpoints calls job (c ∷ cs) rows = do
  step calls insert_checkpoint
  reject_if (ltb_ℤ c.port (pos 1) || ltb_ℤ (pos 65535) c.port) database
  record_checkpoints calls job cs (add_checkpoint job c rows)

-- A batch ID that is there already: the same envelope was accepted before.
abbrev pub check_replay : Text → Option BatchRow → Result StoreError (Unit {0})
check_replay encoded none = ok tt
check_replay encoded (some b) =
    err (if text_eq b.signed_envelope encoded then evidence_accepted else evidence_replay)

unfoldable pub evidence_rows :
    Calls → JobStore → EvidenceBatch → Time → Result StoreError (Unit {0} × JobStore)
unfolding validate_evidence_sequence record_checkpoints
evidence_rows calls s b now = do
  step calls marshal
  step calls begin
  step calls query_batch
  check_replay b.encoded (find_batch b.id s.batches)
  validate_evidence_sequence calls s b now
  step calls insert_batch
  rows ← record_checkpoints calls b.job_id b.checkpoints s.checkpoints
  step calls commit
  ok (tt, record s { batches = s.batches ++ batch_row b ∷ []; checkpoints = rows })

-- RecordScannerWorkerEvidenceBatch
unfoldable pub record_evidence :
    Calls → JobStore → EvidenceBatch → Time → JobStore × Result StoreError (Unit {0})
unfolding evidence_rows
record_evidence calls s b now = settle s (evidence_rows calls s b now)
