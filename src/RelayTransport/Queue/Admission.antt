-- ===== src/RelayTransport/Queue/Admission.antt =====
-- internal/relaytransport/queue.go: when Enqueue takes a frame in.
use mossward.Common.{
  ℕ, ◌<◌, ◌≡◌, refl, true, false, some, List, [], ◌∷◌, ◌++◌, arith, length, Time, Result, ok, err,
  pos, ◌≤ℤ◌, before_sub,
}
use mossward.RelayTransport.Protocol.{Frame, validate_frame}
use mossward.RelayTransport.Queue.Rows.{Row, exists}
use mossward.RelayTransport.Queue.Defs.{
  Queue, QueueError, Json, Db, DbCall, begin, query_exists, query_capacity, insert, commit, new_row,
  no_room, enqueue_rows, enqueue, settle,
}
use mossward.RelayTransport.Queue.Effects.{Enqueued, enqueue_rows-Enqueued}

-- When every call of the database succeeds, a frame that passes ValidateFrame, is inside the queue's
-- retention limit, has an encoding that is not empty and not over the byte limit, is not queued
-- under its ID and finds room, is appended as a row that nobody has claimed.
enqueue_accepts :
    (json : Json) (db : Db) (q : Queue) (f : Frame) (now : Time) (encoded : List ℕ)
    → ((c : DbCall) → db c ≡ true)
    → validate_frame f now ≡ ok tt
    → before_sub f.created_at now q.limits.max_age ≡ false
    → json.marshal f ≡ some encoded
    → 0 < length encoded
    → pos (length encoded) ≤ℤ q.limits.max_bytes
    → exists f.message_id q.rows ≡ false
    → no_room q.limits q.rows (length encoded) ≡ false
    → enqueue json db q f now ≡ (record q { rows = q.rows ++ new_row f encoded ∷ [] }, ok tt)
unfolding enqueue new_row
enqueue_accepts json db q f now encoded up v age e size fits fresh room =
    ground (arith, up begin, up query_exists, up query_capacity, up insert, up commit)

-- A frame that was enqueued was not in the table, and its row is the only change.
enqueue_appends :
    (json : Json) (db : Db) (q : Queue) (f : Frame) (now : Time)
    → (enqueue json db q f now).1 ≡ ok tt
    → Enqueued json q f (enqueue json db q f now).0.rows
unfolding enqueue
enqueue_appends json db q f now h = go (enqueue_rows json db q f now) refl h
  where
    go :
        (r : Result QueueError (Unit {0} × List Row))
        → enqueue_rows json db q f now ≡ r
        → (settle q r).1 ≡ ok tt
        → Enqueued json q f (settle q r).0.rows
    go (err e) h k = absurd (ground arith)
    go (ok (u, rows)) h k = enqueue_rows-Enqueued json db q f now rows h
