-- ===== src/RelayTransport/Queue/Effects.antt =====
-- internal/relaytransport/queue.go: what an operation that succeeds has done.
use mossward.Common.{
  ℕ, ◌+◌, ◌<◌, ◌≡◌, false, Option, Option-cases, inl, inr, some, List, [], ◌∷◌, ◌++◌, arith, length,
  Text, Time, unix_nano, ok, ℤ, pos, pos_part, ◌≤ℤ◌,
}
use mossward.RelayTransport.Protocol.{Frame}
use mossward.RelayTransport.Queue.Rows.{
  Row, available, select_first, exists, update_where, count_where,
}
use mossward.RelayTransport.Queue.Defs.{
  Queue, Delivery, Json, Db, new_row, no_room, enqueue_rows, claims, lease_row, claim_rows,
}

-- What a frame had to pass for its row to be appended.
pub record Enqueued (json : Json) (q : Queue) (f : Frame) (rows : List Row) : Type 0 where
  pub encoded : List ℕ
  pub encodes : json.marshal f ≡ some encoded
  pub fresh : exists f.message_id q.rows ≡ false
  pub room : no_room q.limits q.rows (length encoded) ≡ false
  pub fits : pos (length encoded) ≤ℤ q.limits.max_bytes
  pub appended : rows ≡ q.rows ++ new_row f encoded ∷ []

pub enqueue_rows-Enqueued :
    (json : Json) (db : Db) (q : Queue) (f : Frame) (now : Time) (rows : List Row)
    → enqueue_rows json db q f now ≡ ok (tt, rows)
    → Enqueued json q f rows
unfolding enqueue_rows
enqueue_rows-Enqueued json db q f now rows h = elim (Option-cases (json.marshal f)) [
  | inl e ↦ absurd (ground (arith, e))
  | inr (b, e) ↦ record {
    encoded = b;
    encodes = e;
    fresh = ground (arith, e);
    room = ground (arith, e);
    fits = ground (arith, e);
    appended = ground (arith, e);
  }
]

-- What a claim did: the row that it chose, and the lease that it wrote.
pub record Claimed (json : Json) (q : Queue) (now : Time) (lease : ℤ) (d : Delivery)
    (rows : List Row) : Type 0 where
  pub row : Row
  pub chosen : select_first (available now) q.rows ≡ some row
  pub single : count_where (claims row.message_id now) q.rows ≡ 1
  pub decodes : json.unmarshal row.frame_json ≡ some d.frame
  pub positive : 0 < pos_part lease
  pub until : d.lease_until ≡ now + pos_part lease
  pub attempt : d.attempt ≡ row.attempt_count + 1
  pub updated :
      rows
      ≡ update_where
          (claims row.message_id now)
          (lease_row d.token (unix_nano d.lease_until) d.attempt)
          q.rows

pub claim_rows-Claimed :
    (json : Json) (db : Db) (q : Queue) (random : Option Text) (now : Time) (lease : ℤ)
    (d : Delivery) (rows : List Row)
    → claim_rows json db q random now lease ≡ ok (d, rows)
    → Claimed json q now lease d rows
unfolding claim_rows
claim_rows-Claimed json db q random now lease d rows h =
    elim (Option-cases (select_first (available now) q.rows)) [
      | inl e ↦ absurd (ground (arith, e))
      | inr (r, e) ↦ record {
        row = r;
        chosen = e;
        single = ground (arith, e);
        decodes = ground (arith, e);
        positive = ground (arith, e);
        until = ground (arith, e);
        attempt = ground (arith, e);
        updated = ground (arith, e);
      }
    ]
