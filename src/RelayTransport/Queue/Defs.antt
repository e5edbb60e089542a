-- ===== src/RelayTransport/Queue/Defs.antt =====
-- internal/relaytransport/queue.go: the operations of the queue. Each takes the queue and returns it
-- with its result; `db` says which calls of the database succeed, and `json` is encoding/json on
-- frames. The delivery token of a claim is an argument: `none` when crypto/rand fails.
use mossward.Common.{
  ℕ, ◌+◌, ◌≡◌, Bool, true, ◌&&◌, ◌||◌, not, Option, none, some, List, [], ◌∷◌, ◌++◌, ◌==◌,
  if◌then◌else◌, length, Text, text_eq, is_blank, Time, Result, ok, err, ◌>>=◌, ◌>>◌, reject_if, ℤ,
  pos, pos_part, ltb_ℤ, leb_ℤ, int64, before_sub, unix_nano, unix_nano_sub, from_unix_nano,
}
use mossward.RelayTransport.Protocol.{
  Frame, FrameError, validate_frame, MessageKind, agent_check_in, server_reply, agent_log_batch,
  integrity_alert, tamper_alert, other,
}
use mossward.RelayTransport.Queue.Rows.{
  Row, available, exists, total_size, select_first, update_where, delete_where, count_where,
  token_is, is_none,
}

pub record QueueLimits : Type 0 where
  pub max_items : ℤ
  pub max_bytes : ℤ
  pub max_age : ℤ

pub record Queue : Type 0 where
  pub limits : QueueLimits
  pub rows : List Row

pub record Delivery : Type 0 where
  pub frame : Frame
  pub token : Text
  pub attempt : ℕ
  pub lease_until : Time

pub data QueueError : Type 0 where
  duplicate empty full ack_rejected : QueueError
  limits_invalid retention_exceeded encode_failed stored_invalid bad_lease no_token : QueueError
  bad_frame : FrameError → QueueError
  database : QueueError

-- encoding/json on frames, with what the queue relies on: a frame that was encoded is read back.
pub record Json : Type 0 where
  pub marshal : Frame → Option (List ℕ)
  pub unmarshal : List ℕ → Option Frame
  pub unmarshal-marshal : (f : Frame) (b : List ℕ) → marshal f ≡ some b → unmarshal b ≡ some f

-- The calls of the database that can fail.
pub data DbCall : Type 0 where
  begin query_exists query_capacity insert select update delete rows_affected commit : DbCall

abbrev pub Db : Type 0
Db = DbCall → Bool

abbrev pub call : Db → DbCall → Result QueueError (Unit {0})
call db c = reject_if (not (db c)) database

-- `tx.Begin()`, the statements of `body` on the table, then `tx.Commit()`; the deferred Rollback
-- leaves the table as it was on every other way out.
abbrev pub settle {ℓ} :
    {A : Type ℓ} → Queue → Result QueueError (A × List Row) → Queue × Result QueueError A
settle q (ok (a, rows)) = (record q { rows = rows }, ok a)
settle q (err e) = (q, err e)

unfoldable pub priority_for_kind : MessageKind → ℕ
priority_for_kind integrity_alert = 300
priority_for_kind tamper_alert = 300
priority_for_kind agent_check_in = 200
priority_for_kind server_reply = 200
priority_for_kind agent_log_batch = 100
priority_for_kind (other s) = 100

unfoldable pub priority_for_frame : Frame → ℕ
unfolding priority_for_kind
priority_for_frame f = priority_for_kind f.kind

-- 30 days
abbrev pub maximum_queue_age : ℤ
maximum_queue_age = pos 2_592_000_000_000_000

unfoldable pub validate_queue_limits : QueueLimits → Result QueueError (Unit {0})
validate_queue_limits l =
    reject_if
      (ltb_ℤ l.max_items (pos 1)
        || ltb_ℤ l.max_bytes (pos 1)
        || leb_ℤ l.max_age (pos 0)
        || ltb_ℤ maximum_queue_age l.max_age)
      limits_invalid

-- OpenQueue on a path that holds no table yet.
unfoldable pub open_queue : QueueLimits → Result QueueError Queue
unfolding validate_queue_limits
open_queue l = do validate_queue_limits l; ok (record { limits = l; rows = [] })

abbrev pub frame_check : Result FrameError (Unit {0}) → Result QueueError (Unit {0})
frame_check (ok u) = ok tt
frame_check (err e) = err (bad_frame e)

abbrev pub or_fail {ℓ} : {A : Type ℓ} → Option A → QueueError → Result QueueError A
or_fail none e = err e
or_fail (some a) e = ok a

unfoldable pub new_row : Frame → List ℕ → Row
new_row f encoded = record {
  message_id = f.message_id;
  frame_json = encoded;
  frame_size = length encoded;
  created_at = unix_nano f.created_at;
  priority = priority_for_frame f;
  delivery_token = none;
  lease_until = none;
  attempt_count = 0;
}

-- `CHECK(frame_size>0)` refuses an empty text.
unfoldable pub insert_row : Db → Row → List Row → Result QueueError (List Row)
insert_row db r rows = do
  call db insert
  reject_if (r.frame_size == 0) database
  ok (rows ++ r ∷ [])

-- `items >= MaxItems || bytesUsed+int64(len(encoded)) > MaxBytes`
unfoldable pub no_room : QueueLimits → List Row → ℕ → Bool
no_room l rows size =
    leb_ℤ l.max_items (pos (length rows)) || ltb_ℤ l.max_bytes (int64 (total_size rows + size))

unfoldable pub enqueue_rows :
    Json → Db → Queue → Frame → Time → Result QueueError (Unit {0} × List Row)
unfolding insert_row
enqueue_rows json db q f now = do
  frame_check (validate_frame f now)
  reject_if (before_sub f.created_at now q.limits.max_age) retention_exceeded
  encoded ← or_fail (json.marshal f) encode_failed
  reject_if (ltb_ℤ q.limits.max_bytes (pos (length encoded))) full
  call db begin
  call db query_exists
  reject_if (exists f.message_id q.rows) duplicate
  call db query_capacity
  reject_if (no_room q.limits q.rows (length encoded)) full
  rows ← insert_row db (new_row f encoded) q.rows
  call db commit
  ok (tt, rows)

unfoldable pub enqueue : Json → Db → Queue → Frame → Time → Queue × Result QueueError (Unit {0})
unfolding enqueue_rows
enqueue json db q f now = settle q (enqueue_rows json db q f now)

abbrev pub always : Row → Bool
always r = true

unfoldable pub peek : Json → Db → Queue → Time → Result QueueError Frame
peek json db q now = do
  call db select
  r ← or_fail (select_first always q.rows) empty
  f ← or_fail (json.unmarshal r.frame_json) stored_invalid
  frame_check (validate_frame f now)
  ok f

-- `WHERE message_id=? AND (delivery_token IS NULL OR lease_until<=?)`
abbrev pub claims : Text → Time → Row → Bool
claims id now r = text_eq r.message_id id && available now r

abbrev pub lease_row : Text → ℤ → ℕ → Row → Row
lease_row token until attempt r = record r {
  delivery_token = some token;
  lease_until = some until;
  attempt_count = attempt;
}

unfoldable pub claim_rows :
    Json → Db → Queue → Option Text → Time → ℤ → Result QueueError (Delivery × List Row)
claim_rows json db q random now lease = do
  reject_if (leb_ℤ lease (pos 0)) bad_lease
  token ← or_fail random no_token
  call db begin
  call db select
  r ← or_fail (select_first (available now) q.rows) empty
  let attempt = r.attempt_count + 1
  let until = now + pos_part lease
  call db update
  reject_if (not (db rows_affected) || not (count_where (claims r.message_id now) q.rows == 1))
      empty
  f ← or_fail (json.unmarshal r.frame_json) stored_invalid
  frame_check (validate_frame f now)
  call db commit
  ok (
    record { frame = f; token = token; attempt = attempt; lease_until = until },
    update_where (claims r.message_id now) (lease_row token (unix_nano until) attempt) q.rows,
  )

unfoldable pub claim :
    Json → Db → Queue → Option Text → Time → ℤ → Queue × Result QueueError Delivery
unfolding claim_rows
claim json db q random now lease = settle q (claim_rows json db q random now lease)

-- `WHERE message_id=? AND delivery_token=?`
abbrev pub holds : Text → Text → Row → Bool
holds id token r = text_eq r.message_id id && token_is r.delivery_token token

-- A statement outside a transaction has happened when its count of rows is read.
unfoldable pub acknowledge : Db → Queue → Text → Text → Queue × Result QueueError (Unit {0})
acknowledge db q id token =
    if is_blank id || is_blank token
    then (q, err ack_rejected)
    else if not (db delete)
    then (q, err database)
    else (
      record q { rows = delete_where (holds id token) q.rows },
      do
        call db rows_affected
        reject_if (not (count_where (holds id token) q.rows == 1)) ack_rejected,
    )

abbrev pub release_row : Row → Row
release_row r = record r { delivery_token = none; lease_until = none }

unfoldable pub release : Db → Queue → Text → Text → Queue × Result QueueError (Unit {0})
release db q id token = if not (db update) then (q, err database) else (
  record q { rows = update_where (holds id token) release_row q.rows },
  reject_if (not (db rows_affected) || not (count_where (holds id token) q.rows == 1)) ack_rejected,
)

-- `created_at<?` at `now.Add(-MaxAge).UTC().UnixNano()`
abbrev pub past_retention : QueueLimits → Time → Row → Bool
past_retention l now r = ltb_ℤ r.created_at (unix_nano_sub now l.max_age)

unfoldable pub purge_expired : Db → Queue → Time → Queue × Result QueueError ℕ
purge_expired db q now = if not (db delete) then (q, err database) else (
  record q { rows = delete_where (past_retention q.limits now) q.rows },
  do call db rows_affected; ok (count_where (past_retention q.limits now) q.rows),
)

pub record QueueStats : Type 0 where
  pub items : ℕ
  pub bytes : ℕ
  pub routine_items : ℕ
  pub elevated_items : ℕ
  pub critical_items : ℕ
  pub leased_items : ℕ
  pub oldest_frame : Option Time

abbrev pub has_priority : ℕ → Row → Bool
has_priority n r = r.priority == n

abbrev pub is_leased : Row → Bool
is_leased r = not (is_none r.delivery_token)

abbrev pub earlier_of : ℤ → Option ℤ → Option ℤ
earlier_of t none = some t
earlier_of t (some u) = some (if ltb_ℤ t u then t else u)

abbrev pub as_time : Option ℤ → Option Time
as_time none = none
as_time (some n) = some (from_unix_nano n)

-- `MIN(created_at)`, which is NULL on an empty table
unfoldable pub oldest : List Row → Option ℤ
oldest [] = none
oldest (r ∷ rs) = earlier_of r.created_at (oldest rs)

unfoldable pub stats : Db → Queue → Result QueueError QueueStats
stats db q = do
  call db select
  ok (record {
    items = length q.rows;
    bytes = total_size q.rows;
    routine_items = count_where (has_priority 100) q.rows;
    elevated_items = count_where (has_priority 200) q.rows;
    critical_items = count_where (has_priority 300) q.rows;
    leased_items = count_where is_leased q.rows;
    oldest_frame = as_time (oldest q.rows);
  })
