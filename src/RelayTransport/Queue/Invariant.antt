-- ===== src/RelayTransport/Queue/Invariant.antt =====
-- internal/relaytransport/queue.go: what holds of the table between two operations.
use mossward.Common.{
  ℕ, ◌≡◌, refl, Bool, Option, none, some, List, [], ◌∷◌, arith, length, length-append, All,
  All-append, Text, Time, unix_nano, Result, ok, err, ℤ, pos, ◌≤ℤ◌,
}
use mossward.RelayTransport.Protocol.{Frame}
use mossward.RelayTransport.Queue.Rows.{Row, is_none, total_size, update_where, delete_where}
use mossward.RelayTransport.Queue.Defs.{
  Queue, QueueError, Delivery, Json, Db, priority_for_frame, settle, new_row, no_room, enqueue_rows,
  enqueue, claims, lease_row, claim_rows, claim, holds, acknowledge, release_row, release,
  past_retention, purge_expired,
}
use mossward.RelayTransport.Queue.Effects.{Enqueued, enqueue_rows-Enqueued, claim_rows-Claimed}
use mossward.RelayTransport.Queue.Table.{
  Distinct, Distinct-append, Distinct-delete_where, Distinct-update_where, total_size-append,
  total_size-delete_where-le, total_size-update_where, length-delete_where, length-update_where,
  All-delete_where, All-update_where,
}

-- The columns of a row agree with the frame that it stores, and it has a lease as long as a token.
pub record IsStored (json : Json) (r : Row) : Type 0 where
  pub frame : Frame
  pub decodes : json.unmarshal r.frame_json ≡ some frame
  pub same_id : r.message_id ≡ frame.message_id
  pub same_time : r.created_at ≡ unix_nano frame.created_at
  pub by_kind : r.priority ≡ priority_for_frame frame
  pub sized : r.frame_size ≡ length r.frame_json
  pub leased : is_none r.delivery_token ≡ is_none r.lease_until

-- The byte limit is below 2^62, so that no sum of two sizes in it wraps.
pub record IsSound (json : Json) (q : Queue) : Type 0 where
  pub distinct : Distinct q.rows
  pub stored : All (IsStored json) q.rows
  pub items : pos (length q.rows) ≤ℤ q.limits.max_items
  pub bytes : pos (total_size q.rows) ≤ℤ q.limits.max_bytes
  pub small : q.limits.max_bytes ≤ℤ pos 4_611_686_018_427_387_903

new_row-IsStored :
    (json : Json) (f : Frame) (b : List ℕ) → json.marshal f ≡ some b → IsStored json (new_row f b)
unfolding new_row
new_row-IsStored json f b e = record {
  frame = f;
  decodes = json.unmarshal-marshal f b e;
  same_id = refl;
  same_time = refl;
  by_kind = refl;
  sized = refl;
  leased = refl;
}

append-IsSound :
    (json : Json) (q : Queue) (f : Frame) (rows : List Row)
    → Enqueued json q f rows
    → IsSound json q
    → IsSound json (record q { rows = rows })
unfolding no_room new_row
append-IsSound json q f rows e s = record {
  distinct = rw e.appended (Distinct-append (new_row f e.encoded) q.rows e.fresh s.distinct);
  stored = rw e.appended (
      All-append (IsStored json) q.rows _ s.stored
        (new_row-IsStored json f e.encoded e.encodes, tt));
  items =
      rw e.appended
        (ground (arith, e.room, length-append q.rows (new_row f e.encoded ∷ []), s.items));
  bytes = rw e.appended (
      ground
        (arith, e.room, e.fits, s.small, s.bytes, total_size-append (new_row f e.encoded) q.rows));
  small = s.small;
}

pub enqueue-IsSound :
    (json : Json) (db : Db) (q : Queue) (f : Frame) (now : Time)
    → IsSound json q
    → IsSound json (enqueue json db q f now).0
unfolding enqueue
enqueue-IsSound json db q f now s = go (enqueue_rows json db q f now) refl
  where
    go :
        (r : Result QueueError (Unit {0} × List Row))
        → enqueue_rows json db q f now ≡ r
        → IsSound json (settle q r).0
    go (err e) h = s
    go (ok (u, rows)) h =
        append-IsSound json q f rows (enqueue_rows-Enqueued json db q f now rows h) s

-- The lease columns are written together.
relet-IsStored :
    (json : Json) (r : Row) (token : Option Text) (until : Option ℤ) (attempt : ℕ)
    → is_none token ≡ is_none until
    → IsStored json r
    → IsStored json
        (record r { delivery_token = token; lease_until = until; attempt_count = attempt })
relet-IsStored json r token until attempt e k = record {
  frame = k.frame;
  decodes = k.decodes;
  same_id = k.same_id;
  same_time = k.same_time;
  by_kind = k.by_kind;
  sized = k.sized;
  leased = e;
}

update-IsSound :
    (json : Json) (q : Queue) (p : Row → Bool) (change : Row → Row)
    → ((r : Row) → (change r).message_id ≡ r.message_id)
    → ((r : Row) → (change r).frame_size ≡ r.frame_size)
    → ((r : Row) → IsStored json r → IsStored json (change r))
    → IsSound json q
    → IsSound json (record q { rows = update_where p change q.rows })
update-IsSound json q p change same_id same_size keeps s = record {
  distinct = Distinct-update_where p change q.rows same_id s.distinct;
  stored = All-update_where p change (IsStored json) q.rows keeps s.stored;
  items = rw (length-update_where p change q.rows) s.items;
  bytes = rw (total_size-update_where p change q.rows same_size) s.bytes;
  small = s.small;
}

delete-IsSound :
    (json : Json) (q : Queue) (p : Row → Bool)
    → IsSound json q
    → IsSound json (record q { rows = delete_where p q.rows })
delete-IsSound json q p s = record {
  distinct = Distinct-delete_where p q.rows s.distinct;
  stored = All-delete_where p (IsStored json) q.rows s.stored;
  items = omega (arith, length-delete_where p q.rows, s.items);
  bytes = omega (arith, total_size-delete_where-le p q.rows, s.bytes);
  small = s.small;
}

pub claim-IsSound :
    (json : Json) (db : Db) (q : Queue) (random : Option Text) (now : Time) (lease : ℤ)
    → IsSound json q
    → IsSound json (claim json db q random now lease).0
unfolding claim
claim-IsSound json db q random now lease s = go (claim_rows json db q random now lease) refl
  where
    go :
        (r : Result QueueError (Delivery × List Row))
        → claim_rows json db q random now lease ≡ r
        → IsSound json (settle q r).0
    go (err e) h = s
    go (ok (d, rows)) h =
        let c = claim_rows-Claimed json db q random now lease d rows h in
        rw c.updated (
          update-IsSound json q (claims c.row.message_id now)
            (lease_row d.token (unix_nano d.lease_until) d.attempt) (λ r. refl) (λ r. refl)
            (λ r. relet-IsStored json r _ _ _ refl) s)

pub acknowledge-IsSound :
    (json : Json) (db : Db) (q : Queue) (id token : Text)
    → IsSound json q
    → IsSound json (acknowledge db q id token).0
unfolding acknowledge
acknowledge-IsSound json db q id token s = ground (arith, delete-IsSound json q (holds id token) s)

pub release-IsSound :
    (json : Json) (db : Db) (q : Queue) (id token : Text)
    → IsSound json q
    → IsSound json (release db q id token).0
unfolding release
release-IsSound json db q id token s = ground (
  arith,
  update-IsSound json q (holds id token) release_row (λ r. refl) (λ r. refl)
      (λ r. relet-IsStored json r none none r.attempt_count refl) s,
)

pub purge_expired-IsSound :
    (json : Json) (db : Db) (q : Queue) (now : Time)
    → IsSound json q
    → IsSound json (purge_expired db q now).0
unfolding purge_expired
purge_expired-IsSound json db q now s =
    ground (arith, delete-IsSound json q (past_retention q.limits now) s)
