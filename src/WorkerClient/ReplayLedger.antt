-- ===== src/WorkerClient/ReplayLedger.antt =====
-- internal/workerclient/replay_ledger.go: the ledger of jobs that a worker has claimed. `digest` is
-- SHA-256, and `db` says which calls of the database succeed.
use mossward.Common.{
  ℕ, ◌≡◌, Bool, true, false, ◌||◌, not, List, [], ◌∷◌, ◌++◌, arith, if◌then◌else◌, Text, text_eq,
  text_eq_refl, is_empty, Time, is_zero, before, Result, ok, err, ◌>>◌, reject_if, ◌≢◌, ◌↔◌,
}

-- The fields of model.SignedWorkerJob that the ledger reads.
pub record SignedWorkerJob : Type 0 where
  pub job_id : Text
  pub worker_id : Text
  pub expires_at : Time
  pub key_id : Text
  pub signature : Text

pub record ClaimedJob : Type 0 where
  pub job_id : Text
  pub worker_id : Text
  pub signing_key_id : Text
  pub signature_digest : List ℕ
  pub expires_at : Time
  pub claimed_at : Time

pub data LedgerError : Type 0 where
  incomplete replay database : LedgerError

pub data DbCall : Type 0 where
  insert rows_affected : DbCall

unfoldable pub has_job : Text → List ClaimedJob → Bool
has_job id [] = false
has_job id (j ∷ js) = text_eq j.job_id id || has_job id js

abbrev pub is_incomplete : SignedWorkerJob → Time → Bool
is_incomplete e claimed_at =
    is_empty e.job_id
    || is_empty e.worker_id
    || is_empty e.key_id
    || is_empty e.signature
    || is_zero e.expires_at
    || is_zero claimed_at
    || not (before claimed_at e.expires_at)

abbrev pub claimed_job : (Text → List ℕ) → SignedWorkerJob → Time → ClaimedJob
claimed_job digest e claimed_at = record {
  job_id = e.job_id;
  worker_id = e.worker_id;
  signing_key_id = e.key_id;
  signature_digest = digest e.signature;
  expires_at = e.expires_at;
  claimed_at = claimed_at;
}

-- Claim: INSERT OR IGNORE adds no row where the job ID, the primary key, is there already. The row
-- stays also when the count of rows cannot be read.
unfoldable pub claim :
    (Text → List ℕ)
    → (DbCall → Bool)
    → List ClaimedJob
    → SignedWorkerJob
    → Time
    → List ClaimedJob × Result LedgerError (Unit {0})
claim digest db jobs e claimed_at =
    if is_incomplete e claimed_at
    then (jobs, err incomplete)
    else if not (db insert)
    then (jobs, err database)
    else (
      (if has_job e.job_id jobs then jobs else jobs ++ claimed_job digest e claimed_at ∷ []),
      do reject_if (not (db rows_affected)) database; reject_if (has_job e.job_id jobs) replay,
    )

-- The ledgers reached from `jobs` by claims.
pub data Later (digest : Text → List ℕ) (jobs : List ClaimedJob) : List ClaimedJob → Type 0 where
  same : Later digest jobs jobs
  after_claim :
      {js : List ClaimedJob} (db : DbCall → Bool) (e : SignedWorkerJob) (at : Time)
      → Later digest jobs js
      → Later digest jobs (claim digest db js e at).0

has_job-append :
    (id : Text) (j : ClaimedJob) (js : List ClaimedJob)
    → has_job id (js ++ j ∷ []) ≡ (has_job id js || text_eq j.job_id id)
unfolding has_job
has_job-append id j [] = ground arith
has_job-append id j (k ∷ js) = ground (arith, has_job-append id j js)

-- A claim keeps the jobs of the ledger, and one that succeeds adds its own.
claim_keeps :
    (digest : Text → List ℕ) (db : DbCall → Bool) (jobs : List ClaimedJob) (e : SignedWorkerJob)
    (at : Time) (id : Text)
    → has_job id jobs ≡ true
    → has_job id (claim digest db jobs e at).0 ≡ true
unfolding claim
claim_keeps digest db jobs e at id h =
    ground (arith, has_job-append id (claimed_job digest e at) jobs)

claim_adds :
    (digest : Text → List ℕ) (db : DbCall → Bool) (jobs : List ClaimedJob) (e : SignedWorkerJob)
    (at : Time)
    → (claim digest db jobs e at).1 ≡ ok tt
    → has_job e.job_id (claim digest db jobs e at).0 ≡ true
unfolding claim
claim_adds digest db jobs e at h =
    ground (arith, has_job-append e.job_id (claimed_job digest e at) jobs, text_eq_refl e.job_id)

Later_keeps :
    {digest : Text → List ℕ} {jobs js : List ClaimedJob} (id : Text)
    → Later digest jobs js
    → has_job id jobs ≡ true
    → has_job id js ≡ true
Later_keeps id same h = h
Later_keeps {digest = digest} id (after_claim {js = js} db e at l) h =
    claim_keeps digest db js e at id (Later_keeps id l h)

-- A claim succeeds exactly when it is complete and not expired, the database answers, and no row of
-- the job ID is there.
claim_iff :
    (digest : Text → List ℕ) (db : DbCall → Bool) (jobs : List ClaimedJob) (e : SignedWorkerJob)
    (at : Time)
    → ((claim digest db jobs e at).1 ≡ ok tt) ↔ (
        (is_incomplete e at ≡ false)
        × (db insert ≡ true)
        × (db rows_affected ≡ true)
        × (has_job e.job_id jobs ≡ false))
unfolding claim
claim_iff digest db jobs e at = (
  (λ h. (ground (arith, h), ground (arith, h), ground (arith, h), ground (arith, h))),
  (λ h. ground (arith, h)),
)

-- A job ID is claimed once: after a claim that succeeded, no claim of that job ID succeeds in any
-- later ledger, whatever envelope carries it and whichever calls of the database fail.
pub claim_once :
    (digest : Text → List ℕ) (db db' : DbCall → Bool) (jobs later : List ClaimedJob)
    (e e' : SignedWorkerJob) (at at' : Time)
    → (claim digest db jobs e at).1 ≡ ok tt
    → Later digest (claim digest db jobs e at).0 later
    → e'.job_id ≡ e.job_id
    → (claim digest db' later e' at').1 ≢ ok tt
claim_once digest db db' jobs later e e' at at' h l same_id again =
    let (_, _, _, fresh) = (claim_iff digest db' later e' at').0 again in
    absurd
      (ground (arith, fresh, same_id, Later_keeps e.job_id l (claim_adds digest db jobs e at h)))
