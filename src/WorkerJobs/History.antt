-- ===== src/WorkerJobs/History.antt =====
-- The transactions on the jobs as internal/workerjob and the API call them, in the order in which the
-- database commits them.
use mossward.Common.{Bool, Option, none, some, List, [], ◌∷◌, Text, Time}
use mossward.WorkerJobs.Jobs.{WorkerJob, JobStore, Calls}
use mossward.WorkerJobs.Leases.{lease}
use mossward.WorkerJobs.Renewal.{renew}
use mossward.WorkerJobs.Evidence.{EvidenceBatch, record_evidence}
use mossward.WorkerJobs.Results.{Receipt, complete}
use mossward.WorkerJobs.Validation.{Addresses}
use mossward.WorkerJobs.Dispatch.{Fleet, dispatch, reassign_expired}

pub data Op : Type 0 where
  dispatches : Calls → Fleet → WorkerJob → Time → Op
  leases : Calls → Bool → Text → Text → Time → Time → Op
  renews : Calls → Text → Text → Text → Time → Time → Op
  records_evidence : Calls → EvidenceBatch → Time → Op
  completes : Calls → Receipt → Text → Time → Op
  reassigns : Calls → Calls → Fleet → Text → Time → Op

module _ {A P : Type 0} (net : Addresses A P) where
  unfoldable pub apply : Op → JobStore → JobStore
  apply (dispatches calls fleet j now) s = (dispatch net calls fleet s j now).0
  apply (leases calls dispatching worker hash now until) s =
      (lease calls dispatching s worker hash now until).0
  apply (renews calls worker id hash now until) s = (renew calls s worker id hash now until).0
  apply (records_evidence calls b now) s = (record_evidence calls s b now).0
  apply (completes calls receipt hash now) s = (complete calls s receipt hash now).0
  apply (reassigns reads writes fleet id now) s =
      (reassign_expired net reads writes fleet s id now).0

  unfoldable pub run : List Op → JobStore → JobStore
  run [] s = s
  run (o ∷ os) s = run os (apply o s)

-- The store of a new database.
abbrev pub no_jobs : JobStore
no_jobs = record {
  jobs = [];
  dead_letters = [];
  scans = [];
  batches = [];
  checkpoints = [];
  assignments = [];
}

-- The instant that an operation reads from the clock, and the hash of the token that it presents.
abbrev pub now_of : Op → Time
now_of (dispatches calls fleet j now) = now
now_of (leases calls dispatching worker hash now until) = now
now_of (renews calls worker id hash now until) = now
now_of (records_evidence calls b now) = now
now_of (completes calls receipt hash now) = now
now_of (reassigns reads writes fleet id now) = now

abbrev pub token_of : Op → Option Text
token_of (dispatches calls fleet j now) = none
token_of (leases calls dispatching worker hash now until) = none
token_of (renews calls worker id hash now until) = some hash
token_of (records_evidence calls b now) = none
token_of (completes calls receipt hash now) = some hash
token_of (reassigns reads writes fleet id now) = none
