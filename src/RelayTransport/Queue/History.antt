-- ===== src/RelayTransport/Queue/History.antt =====
-- internal/relaytransport/queue.go: the queue over any sequence of its operations.
use mossward.Common.{◌≡◌, subst, Option, [], arith, Text, Time, ok, ℤ, pos, ◌≤ℤ◌}
use mossward.RelayTransport.Protocol.{Frame}
use mossward.RelayTransport.Queue.Rows.{total_size}
use mossward.RelayTransport.Queue.Defs.{
  Queue, QueueLimits, Json, Db, open_queue, enqueue, claim, acknowledge, release, purge_expired,
}
use mossward.RelayTransport.Queue.Invariant.{
  IsSound, enqueue-IsSound, claim-IsSound, acknowledge-IsSound, release-IsSound,
  purge_expired-IsSound,
}

-- The queues reached from a new one, with any calls of the database failing in each operation.
pub data History (json : Json) (l : QueueLimits) : Queue → Type 0 where
  opened : {q : Queue} → open_queue l ≡ ok q → History json l q
  enqueues :
      {q : Queue} (db : Db) (f : Frame) (now : Time)
      → History json l q
      → History json l (enqueue json db q f now).0
  claims :
      {q : Queue} (db : Db) (random : Option Text) (now : Time) (lease : ℤ)
      → History json l q
      → History json l (claim json db q random now lease).0
  acknowledges :
      {q : Queue} (db : Db) (id token : Text)
      → History json l q
      → History json l (acknowledge db q id token).0
  releases :
      {q : Queue} (db : Db) (id token : Text)
      → History json l q
      → History json l (release db q id token).0
  purges :
      {q : Queue} (db : Db) (now : Time)
      → History json l q
      → History json l (purge_expired db q now).0

open_queue-IsSound :
    (json : Json) (l : QueueLimits) (q : Queue)
    → l.max_bytes ≤ℤ pos 4_611_686_018_427_387_903
    → open_queue l ≡ ok q
    → IsSound json q
unfolding open_queue total_size
open_queue-IsSound json l q small h =
    let e : record { limits = l; rows = [] } ≡ q = ground arith in
    subst (IsSound json) e (record {
      distinct = tt;
      stored = tt;
      items = ground arith;
      bytes = ground arith;
      small = small;
    })

-- With a byte limit below 2^62 every queue that is reached from a new one is sound: no message ID
-- stands in two rows, every row decodes to the frame that its columns describe, has a lease exactly
-- when it has a token, and the rows stay within the item and byte limits.
pub History-IsSound :
    {json : Json} {l : QueueLimits} {q : Queue}
    → l.max_bytes ≤ℤ pos 4_611_686_018_427_387_903
    → History json l q
    → IsSound json q
History-IsSound {json = json} {l = l} small (opened {q = q} h) = open_queue-IsSound json l q small h
History-IsSound {json = json} small (enqueues {q = q} db f now h) =
    enqueue-IsSound json db q f now (History-IsSound small h)
History-IsSound {json = json} small (claims {q = q} db random now lease h) =
    claim-IsSound json db q random now lease (History-IsSound small h)
History-IsSound {json = json} small (acknowledges {q = q} db id token h) =
    acknowledge-IsSound json db q id token (History-IsSound small h)
History-IsSound {json = json} small (releases {q = q} db id token h) =
    release-IsSound json db q id token (History-IsSound small h)
History-IsSound {json = json} small (purges {q = q} db now h) =
    purge_expired-IsSound json db q now (History-IsSound small h)
