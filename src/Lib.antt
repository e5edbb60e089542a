-- ===== src/Lib.antt =====
-- Mossward: a network scanner with agents, relays and workers. This library models the parts of the
-- Go code that decide what is kept, handed on, retried or refused.
--
-- The parts and the files that model them:
-- - internal/relaytransport: an endpoint that cannot reach the server sends encrypted frames through a
--   relay. RelayTransport/Protocol is protocol.go: a frame and the checks of ValidateFrame.
--   RelayTransport/Queue is queue.go: Rows is the table relay_frames with what its SQL statements
--   do, Defs has an operation for each method of Queue (enqueue, peek, claim, acknowledge, release,
--   purge_expired, stats), and its other files prove what the operations promise.
--   RelayTransport/Failover is failover.go: Defs has the policy, availableRouteIDs and the methods
--   of FailoverController (select, record_delivery, select_approved_route).
--   RelayTransport/Delayed is delayed.go: the payload of a delayed heartbeat and
--   DecodeDelayedTelemetry on the server.
-- - internal/workerclient: a scanner worker keeps results in an encrypted outbox until the server took
--   them. WorkerClient/Outbox is outbox.go, Backpressure is backpressure.go (from the outbox's
--   statistics), Retry is retry.go, ReplayLedger is replay_ledger.go.
-- - internal/relaywindow: when a relay may connect to the server. RelayWindow/Window is window.go (a
--   weekly window, Validate and Open), RelayWindow/Gate is gate.go (Evaluate over all the windows,
--   and Connect).
-- - internal/relayheartbeat: RelayHeartbeat/Policy is policy.go, the merge of the policies on late
--   heartbeats.
-- - internal/intelligence: Intelligence/Version is version.go, the order of versions and the ranges
--   of advisories.
-- - internal/agentupdate: AgentUpdate/Version is version.go, which version is an upgrade of which;
--   AgentUpdate/Transaction is transaction.go, the file of a running update and ConfirmHealthy.
-- - internal/networkpolicy: NetworkPolicy/Exclusions is policy.go, Normalize and Filter.
-- - internal/store (worker_*.go) and internal/workerjob: the jobs that the server gives to its scanner
--   workers. WorkerJobs/Jobs has the tables and the statements on them, Stamp the texts of their times
--   (formatTime of sqlite.go), Leases the creation, lease, quarantine and renewal of a job, Evidence
--   its batches and its result, Reassignment what the store does for a new worker; Validation is
--   validate.go and Dispatch is dispatcher.go. History puts the transactions in the order of their
--   commits; Moves is the machine of one job, which the other files show that every transaction keeps.
-- - internal/coveragepolicy: CoveragePolicy/Normalization is policy.go, the networks that a policy of
--   coverage discovery may name.
-- - internal/checkpolicy: CheckPolicy/Policy is policy.go, who may run an intrusive check, and
--   CheckPolicy/Stored the row of the policy in internal/store/check_policy.go.
-- - internal/auth: LoginThrottle/Attempts is the table login_attempts of internal/store/identity.go, and
--   LoginThrottle/Login is AuthenticateLocal of service.go.
-- Common has what they share: Boolean tests on the native numbers, Go's signed integers, texts as
-- lists of code points, results with an error, and instants.
--
-- State and effects. A method that changes its receiver takes the state and returns it with its
-- result. A table is the list of its rows in the order of their rowid. A function `db` from the calls
-- of the database to Booleans says which calls succeed, and a transaction that fails leaves the table
-- as it was; a theorem without a hypothesis on `db` holds whatever fails. Random bytes are an argument,
-- `none` when the source fails. Encoding, encryption, time zones, net/netip, SHA-256, float64 division
-- and the limit on what is read of a file are parameters: records of functions with the laws that the code relies on.
--
-- Bounds. Instants are nanoseconds since the zero time as natural numbers; durations and ints are ℤ,
-- and sums and products of int64 that may wrap are written with `int64`, as are the columns of times of
-- the relay queue, which hold UnixNano. SUM and the sum compared
-- with a byte limit wrap only beyond 2^63, which the soundness of a queue excludes by a limit below
-- 2^62. No function here runs on fuel: loops are structural on a list, on the count of attempts, or on
-- the maximum of ForwardPending, which bounds the source's own loop.
--
-- In WorkerJobs a transaction of the SQLite store is one step, and ReassignExpired, with its two
-- transactions under one mutex, is one step too. Its texts of times are those of the years 0 to 9999.
--
-- Not modelled: the PostgreSQL store, opening and migrating the SQLite files, keys and certificates, HTTP, the rest of the
-- store, the scanner's probes, and the agents' collection from the operating system, which are I/O or calls of
-- other libraries; and of the server its scheduling and the rest of its accounts (sessions, passwords and the
-- second factor). Texts are code points of valid UTF-8, and instants before year 1 are left out. In
-- Intelligence/Version letters are lowered as ASCII. Of the scan that a worker's result is projected
-- on, WorkerJobs has the status, the error, the start, the end and the count of done checks; its observations, findings,
-- checkpoints and matches are left out.
pub mod Common
pub mod AgentUpdate
pub mod CheckPolicy
pub mod CoveragePolicy
pub mod Intelligence
pub mod LoginThrottle
pub mod NetworkPolicy
pub mod RelayHeartbeat
pub mod RelayTransport
pub mod RelayWindow
pub mod WorkerClient
pub mod WorkerJobs
