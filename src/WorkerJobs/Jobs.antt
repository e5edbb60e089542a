-- ===== src/WorkerJobs/Jobs.antt =====
-- internal/model/worker_job.go and the tables of worker jobs in internal/store: their rows, with the
-- primary key of each table, and the statements that read and change them. A column with the JSON text
-- of a job is the job, as encoding/json reads back what it wrote; a column of time texts is the
-- instants, compared by `stamp_less`. The mark of a token is the bytes of its SHA-256.
use mossward.Common.{
  ℕ, Bool, true, false, not, Option, none, some, List, [], ◌∷◌, if◌then◌else◌, Text, text_eq, Time,
  Result, ok, err, reject_if, ℤ,
}
use mossward.WorkerJobs.Stamp.{stamp_less}

pub data WorkerJobStatus : Type 0 where
  pending leased completed canceled expired : WorkerJobStatus
  unknown : Text → WorkerJobStatus

pub record WorkerCheckpoint : Type 0 where
  pub address : Text
  pub port : ℤ
  pub completed_at : Time

pub record WorkerJobResume : Type 0 where
  pub previous_worker_id : Text
  pub completed : List WorkerCheckpoint
  pub next_evidence_sequence : ℕ

-- Of a target only the address is read.
pub record WorkerJob : Type 0 where
  pub schema_version : ℤ
  pub id : Text
  pub worker_id : Text
  pub scan_id : Text
  pub site_id : Text
  pub issued_at : Time
  pub expires_at : Time
  pub targets : List Text
  pub ports : List ℤ
  pub max_concurrent : ℤ
  pub rate_limit_per_second : ℤ
  pub required_capabilities : List Text
  pub resume : Option WorkerJobResume
  pub status : WorkerJobStatus

pub data ResultOutcome : Type 0 where
  succeeded failed was_canceled : ResultOutcome
  other_outcome : Text → ResultOutcome

pub record JobRow : Type 0 where
  pub id : Text
  pub worker_id : Text
  pub scan_id : Text
  pub status : WorkerJobStatus
  pub job : WorkerJob
  pub expires_at : Time
  pub created_at : Time
  pub lease_token_hash : Option Text
  pub lease_expires_at : Option Time
  pub lease_attempt : ℕ
  pub result_id : Option Text
  pub result_outcome : ResultOutcome
  pub completed_at : Time

pub record DeadLetter : Type 0 where
  pub job_id : Text
  pub scan_id : Text
  pub worker_id : Text
  pub failure_count : ℕ
  pub quarantined_at : Time

pub data ScanStatus : Type 0 where
  queued running scan_completed scan_failed paused scan_canceled : ScanStatus

pub record ScanRow : Type 0 where
  pub id : Text
  pub status : ScanStatus
  pub error : Text
  pub done_checks : ℕ
  pub started_at : Option Time
  pub completed_at : Option Time

pub record BatchRow : Type 0 where
  pub batch_id : Text
  pub job_id : Text
  pub worker_id : Text
  pub sequence : ℕ
  pub final : Bool
  pub signed_envelope : Text

pub record CheckpointRow : Type 0 where
  pub job_id : Text
  pub address : Text
  pub port : ℤ
  pub completed_at : Time

pub record AssignmentRow : Type 0 where
  pub job_id : Text
  pub attempt : ℕ
  pub worker_id : Text

pub record JobStore : Type 0 where
  pub jobs : List JobRow
  pub dead_letters : List DeadLetter
  pub scans : List ScanRow
  pub batches : List BatchRow
  pub checkpoints : List CheckpointRow
  pub assignments : List AssignmentRow

pub data StoreError : Type 0 where
  job_replay not_found invalid_lease lease_conflict already_accepted result_replay : StoreError
  evidence_accepted evidence_replay evidence_sequence not_resumable quarantined database :
      StoreError

-- The calls of the database and of encoding/json that can fail.
pub data StoreCall : Type 0 where
  begin query_job insert_job insert_assignment quarantine_jobs fail_scans stop_jobs expire_jobs :
      StoreCall
  release_jobs query_pending lease_job rows_affected marshal unmarshal commit rollback : StoreCall
  renew_job query_lease query_batch query_last insert_batch insert_checkpoint count_checkpoints :
      StoreCall
  query_result complete_job project query_candidate query_checkpoints reassign_job query_attempt :
      StoreCall

abbrev pub Calls : Type 0
Calls = StoreCall → Bool

abbrev pub step : Calls → StoreCall → Result StoreError (Unit {0})
step calls c = reject_if (not (calls c)) database

abbrev pub settle {ℓ} :
    {A : Type ℓ} → JobStore → Result StoreError (A × JobStore) → JobStore × Result StoreError A
settle s (ok (a, s')) = (s', ok a)
settle s (err e) = (s, err e)

abbrev pub or_error {ℓ} : {A : Type ℓ} → Option A → StoreError → Result StoreError A
or_error none e = err e
or_error (some a) e = ok a

abbrev pub is_pending : WorkerJobStatus → Bool
is_pending pending = true
is_pending _ = false

abbrev pub is_leased : WorkerJobStatus → Bool
is_leased leased = true
is_leased _ = false

-- `lease_expires_at<=?`, which a NULL does not satisfy, and `lease_expires_at>?`
abbrev pub lease_over : Option Time → Time → Bool
lease_over none now = false
lease_over (some t) now = not (stamp_less now t)

abbrev pub lease_runs : Option Time → Time → Bool
lease_runs none now = false
lease_runs (some t) now = stamp_less now t

-- `lease_token_hash=?`
abbrev pub hash_is : Option Text → Text → Bool
hash_is none h = false
hash_is (some g) h = text_eq g h

-- `SELECT ... WHERE id=?`
unfoldable pub find_job : Text → List JobRow → Option JobRow
find_job id [] = none
find_job id (r ∷ rs) = if text_eq r.id id then some r else find_job id rs

-- `UPDATE ... SET change WHERE id=? AND p`: the primary key leaves one row at most, and `none` stands
-- for no row changed.
abbrev pub keep_row : JobRow → Option (List JobRow) → Option (List JobRow)
keep_row r none = none
keep_row r (some rs) = some (r ∷ rs)

unfoldable pub update_job :
    Text → (JobRow → Bool) → (JobRow → JobRow) → List JobRow → Option (List JobRow)
update_job id p change [] = none
update_job id p change (r ∷ rs) =
    let rest = update_job id p change rs in
    if text_eq r.id id then (if p r then some (change r ∷ rs) else none) else keep_row r rest

-- `UPDATE ... SET change WHERE p`
unfoldable pub update_jobs : (JobRow → Bool) → (JobRow → JobRow) → List JobRow → List JobRow
update_jobs p change [] = []
update_jobs p change (r ∷ rs) = (if p r then change r else r) ∷ update_jobs p change rs
