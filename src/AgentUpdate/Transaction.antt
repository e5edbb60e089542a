-- ===== src/AgentUpdate/Transaction.antt =====
-- internal/agentupdate/transaction.go: the transaction of an update and the file that keeps it. The
-- package path/filepath and encoding/json are the record `Files`.
use mossward.Common.{
  ℕ, ◌+◌, ◌≤◌, ◌≡◌, Bool, true, false, ◌||◌, ◌&&◌, not, Option, some, none, List, ltb, leb, ◌==◌,
  if◌then◌else◌, length, Text, text_eq, Time, before, Result, ok, err, ◌>>=◌, ◌>>◌, reject_if, ℤ,
  pos, ltb_ℤ, eq_ℤ,
}
use mossward.RelayTransport.Protocol.{hex_decode}
use mossward.AgentUpdate.Version.{version_pattern}

-- `other` is any string that is none of the constants.
pub data TransactionState : Type 0 where
  prepared awaiting_health committed rollback_required rolled_back : TransactionState
  other : Text → TransactionState

pub record KnownGood : Type 0 where
  pub version : Text
  pub sha256 : Text
  pub size : ℤ
  pub file : Text

pub record Transaction : Type 0 where
  pub schema_version : ℤ
  pub state : TransactionState
  pub previous : KnownGood
  pub target_version : Text
  pub target_sha256 : Text
  pub target_size : ℤ
  pub started_at : Time
  pub health_deadline : Time

pub data UpdateError : Type 0 where
  invalid not_exist unreadable undecodable version_mismatch missed_deadline not_saved : UpdateError

-- 16 << 10
abbrev pub maximum_transaction_bytes : ℕ
maximum_transaction_bytes = 16384

-- filepath.Base, the JSON texts `J` with their sizes in bytes, and what io.LimitReader leaves of one;
-- a text that was encoded is read back, and one that is not over the limit is left whole.
pub record Files (J : Type 0) : Type 0 where
  pub base : Text → Text
  pub encode : Transaction → J
  pub decode : J → Option Transaction
  pub size : J → ℕ
  pub limit : ℕ → J → J
  pub limit-whole : (n : ℕ) (j : J) → size j ≤ n → limit n j ≡ j
  pub decode-encode : (t : Transaction) → decode (encode t) ≡ some t

-- What `os.Open` finds under the name of the transaction.
pub data Stored (J : Type 0) : Type 0 where
  absent closed : Stored J
  content : J → Stored J

abbrev pub known_state : TransactionState → Bool
known_state (other s) = false
known_state _ = true

-- 256 << 20
abbrev pub out_of_size : ℤ → Bool
out_of_size n = ltb_ℤ n (pos 1) || ltb_ℤ (pos 268_435_456) n

abbrev pub wrong_digest : Option (List ℕ) → Bool
wrong_digest none = true
wrong_digest (some d) = not (length d == 32)

unfoldable pub validate : {J : Type 0} → Files J → Transaction → Result UpdateError (Unit {0})
validate files t =
    reject_if
      (not (eq_ℤ t.schema_version (pos 1))
        || not (known_state t.state)
        || not (version_pattern t.previous.version)
        || not (version_pattern t.target_version)
        || not (text_eq (files.base t.previous.file) t.previous.file)
        || wrong_digest (hex_decode t.previous.sha256)
        || wrong_digest (hex_decode t.target_sha256)
        || out_of_size t.previous.size
        || out_of_size t.target_size
        || leb t.health_deadline t.started_at
        || ltb (t.started_at + 600_000_000_000) t.health_deadline)
      invalid

abbrev pub is_rollback : TransactionState → Bool
is_rollback rollback_required = true
is_rollback _ = false

abbrev pub is_awaiting : TransactionState → Bool
is_awaiting awaiting_health = true
is_awaiting _ = false

unfoldable pub requires_rollback : Transaction → Time → Bool
requires_rollback t now =
    is_rollback t.state || (is_awaiting t.state && not (before now t.health_deadline))

abbrev pub decoded : Option Transaction → Result UpdateError Transaction
decoded none = err undecodable
decoded (some t) = ok t

abbrev pub read_content : {J : Type 0} → Files J → Stored J → Result UpdateError Transaction
read_content files absent = err not_exist
read_content files closed = err unreadable
read_content files (content bytes) =
    decoded (files.decode (files.limit maximum_transaction_bytes bytes))

unfoldable pub load_transaction : {J : Type 0} → Files J → Stored J → Result UpdateError Transaction
unfolding validate
load_transaction files stored = do t ← read_content files stored; validate files t; ok t

-- SaveTransaction: `writes` says whether the transaction is encoded, the directory protected and the
-- file written. The file is written aside and renamed, so a failure leaves what was there.
abbrev pub store_when :
    {J : Type 0}
    → Bool
    → Files J
    → Stored J
    → Transaction
    → Stored J × Result UpdateError (Unit {0})
store_when true files stored t = (content (files.encode t), ok tt)
store_when false files stored t = (stored, err not_saved)

abbrev pub save_valid :
    {J : Type 0}
    → Result UpdateError (Unit {0})
    → Bool
    → Files J
    → Stored J
    → Transaction
    → Stored J × Result UpdateError (Unit {0})
save_valid (err e) writes files stored t = (stored, err e)
save_valid (ok u) writes files stored t = store_when writes files stored t

unfoldable pub save_transaction :
    {J : Type 0}
    → Bool
    → Files J
    → Stored J
    → Transaction
    → Stored J × Result UpdateError (Unit {0})
save_transaction writes files stored t = save_valid (validate files t) writes files stored t

abbrev pub is_not_exist : UpdateError → Bool
is_not_exist not_exist = true
is_not_exist _ = false

abbrev pub confirm_loaded :
    {J : Type 0}
    → Bool
    → Files J
    → Stored J
    → Text
    → Time
    → Result UpdateError Transaction
    → Stored J × Result UpdateError (Unit {0})
confirm_loaded writes files stored running now (err e) =
    (stored, if is_not_exist e then ok tt else err e)
confirm_loaded writes files stored running now (ok t) =
    if not (is_awaiting t.state)
    then (stored, ok tt)
    else if not (text_eq t.target_version running)
    then (stored, err version_mismatch)
    else if not (before now t.health_deadline)
    then (
      (save_transaction writes files stored (record t { state = rollback_required })).0,
      err missed_deadline,
    )
    else save_transaction writes files stored (record t { state = committed })

unfoldable pub confirm_healthy :
    {J : Type 0}
    → Bool
    → Files J
    → Stored J
    → Text
    → Time
    → Stored J × Result UpdateError (Unit {0})
unfolding load_transaction save_transaction
confirm_healthy writes files stored running now =
    confirm_loaded writes files stored running now (load_transaction files stored)
