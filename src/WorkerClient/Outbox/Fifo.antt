-- ===== src/WorkerClient/Outbox/Fifo.antt =====
-- internal/workerclient/outbox.go: the sealed table as a queue of messages.
use mossward.Common.{
  ℕ, ◌+◌, ◌≡◌, refl, inl, inr, false, ◌||◌, Option, some, none, List, [], ◌∷◌, ◌++◌, arith,
  if◌then◌else◌, length, length-append, Text, text_eq, text_eq_iff, Result, Result-cases, ok, err,
  pos, ◌≤ℤ◌,
}
use mossward.WorkerClient.Outbox.Defs.{
  OutboxMessage, Outbox, OutboxError, empty, Row, Sealing, Db, settle, outbox_aad, exists,
  total_size, new_row, no_room, enqueue_rows, enqueue, open_row, first, peek, select, database,
  validate_outbox_message,
}

-- The row opens to the message.
pub record IsSealed (s : Sealing) (r : Row) (m : OutboxMessage) : Type 0 where
  pub opens : open_row s r ≡ ok m
  pub same_id : r.id ≡ m.id
  pub sized : r.plaintext_size ≡ length m.payload

abbrev pub Contents : Sealing → List Row → List OutboxMessage → Type 0
Contents s [] [] = Unit {0}
Contents s [] (m ∷ ms) = ⊥
Contents s (r ∷ rs) [] = ⊥
Contents s (r ∷ rs) (m ∷ ms) = IsSealed s r m × Contents s rs ms

abbrev pub Distinct : List Row → Type 0
Distinct [] = Unit {0}
Distinct (r ∷ rs) = (exists r.id rs ≡ false) × Distinct rs

-- The outbox stands for the queue `ms`: its rows open to the messages in their order, no message ID
-- stands twice, and the limits are kept. The byte limit is below 2^62, so that no sum wraps.
pub record IsOutbox (s : Sealing) (o : Outbox) (ms : List OutboxMessage) : Type 0 where
  pub contents : Contents s o.rows ms
  pub distinct : Distinct o.rows
  pub items : pos (length o.rows) ≤ℤ o.limits.max_items
  pub bytes : pos (total_size o.rows) ≤ℤ o.limits.max_bytes
  pub small : o.limits.max_bytes ≤ℤ pos 4_611_686_018_427_387_903

Contents-append :
    (s : Sealing) (rs : List Row) (ms : List OutboxMessage) (r : Row) (m : OutboxMessage)
    → Contents s rs ms
    → IsSealed s r m
    → Contents s (rs ++ r ∷ []) (ms ++ m ∷ [])
Contents-append s [] [] r m c i = (i, tt)
Contents-append s [] (x ∷ ms) r m c i = elim c [ ]
Contents-append s (x ∷ rs) [] r m c i = elim c [ ]
Contents-append s (x ∷ rs) (y ∷ ms) r m c i = (c.0, Contents-append s rs ms r m c.1 i)

exists-append :
    (id : Text) (r : Row) (rs : List Row)
    → exists id (rs ++ r ∷ []) ≡ (exists id rs || text_eq r.id id)
unfolding exists
exists-append id r [] = ground arith
exists-append id r (s ∷ rs) = ground (arith, exists-append id r rs)

Distinct-append :
    (r : Row) (rs : List Row) → exists r.id rs ≡ false → Distinct rs → Distinct (rs ++ r ∷ [])
unfolding exists
Distinct-append r [] new d = (refl, tt)
Distinct-append r (x ∷ rs) new d = (
  ground (arith, exists-append x.id r rs, text_eq_iff r.id x.id, text_eq_iff x.id r.id),
  Distinct-append r rs (ground arith) d.1,
)

total_size-append :
    (r : Row) (rs : List Row) → total_size (rs ++ r ∷ []) ≡ total_size rs + r.plaintext_size
unfolding total_size
total_size-append r [] = omega arith
total_size-append r (x ∷ rs) = omega (arith, total_size-append r rs)

-- A new row opens to its message.
new_row-IsSealed :
    (s : Sealing) (m : OutboxMessage) (nonce ad : List ℕ)
    → outbox_aad s m.id m.kind m.created_at ≡ ok ad
    → IsSealed s (new_row s m nonce ad) m
unfolding new_row open_row
new_row-IsSealed s m nonce ad e = record {
  opens = ground (arith, s.parse-format m.created_at, s.open-seal nonce m.payload ad);
  same_id = refl;
  sized = refl;
}

record Enqueued (s : Sealing) (o : Outbox) (m : OutboxMessage) (rows : List Row) : Type 0 where
  nonce : List ℕ
  ad : List ℕ
  additional : outbox_aad s m.id m.kind m.created_at ≡ ok ad
  fresh : exists m.id o.rows ≡ false
  room : no_room o.limits o.rows (length m.payload) ≡ false
  fits : pos (length m.payload) ≤ℤ o.limits.max_bytes
  appended : rows ≡ o.rows ++ new_row s m nonce ad ∷ []

enqueue_rows-Enqueued :
    (s : Sealing) (db : Db) (o : Outbox) (random : Option (List ℕ)) (m : OutboxMessage)
    (rows : List Row)
    → enqueue_rows s db o random m ≡ ok rows
    → Enqueued s o m rows
unfolding enqueue_rows validate_outbox_message
enqueue_rows-Enqueued s db o none m rows h = absurd (ground arith)
enqueue_rows-Enqueued s db o (some nonce) m rows h =
    elim (Result-cases (outbox_aad s m.id m.kind m.created_at)) [
      | inr (e, k) ↦ absurd (ground (arith, k, h))
      | inl (ad, k) ↦ record {
        nonce = nonce;
        ad = ad;
        additional = k;
        fresh = ground (arith, k, h);
        room = ground (arith, k, h);
        fits = ground (arith, k, h);
        appended = ground (arith, k, h);
      }
    ]

append-IsOutbox :
    (s : Sealing) (o : Outbox) (ms : List OutboxMessage) (m : OutboxMessage) (rows : List Row)
    → Enqueued s o m rows
    → IsOutbox s o ms
    → IsOutbox s (record o { rows = rows }) (ms ++ m ∷ [])
unfolding no_room new_row
append-IsOutbox s o ms m rows e v = record {
  contents = rw e.appended (
      Contents-append s o.rows ms (new_row s m e.nonce e.ad) m v.contents
        (new_row-IsSealed s m e.nonce e.ad e.additional));
  distinct = rw e.appended (Distinct-append (new_row s m e.nonce e.ad) o.rows e.fresh v.distinct);
  items =
      rw e.appended
        (ground (arith, e.room, length-append o.rows (new_row s m e.nonce e.ad ∷ []), v.items));
  bytes = rw e.appended (
      ground (
        arith,
        e.room,
        e.fits,
        v.small,
        v.bytes,
        total_size-append (new_row s m e.nonce e.ad) o.rows,
      ));
  small = v.small;
}

-- What Enqueue may do to the queue of messages.
abbrev pub EnqueueView :
    Sealing
    → Outbox
    → List OutboxMessage
    → OutboxMessage
    → Outbox × Result OutboxError (Unit {0})
    → Type 0
EnqueueView s o ms m (o', ok u) = IsOutbox s o' (ms ++ m ∷ [])
EnqueueView s o ms m (o', err e) = o' ≡ o

-- Enqueue on an outbox that stands for a queue puts the message at its end, within the limits, or
-- fails and leaves the outbox as it was.
pub enqueue-View :
    (s : Sealing) (db : Db) (o : Outbox) (random : Option (List ℕ)) (m : OutboxMessage)
    (ms : List OutboxMessage)
    → IsOutbox s o ms
    → EnqueueView s o ms m (enqueue s db o random m)
unfolding enqueue
enqueue-View s db o random m ms v = go (enqueue_rows s db o random m) refl
  where
    go :
        (r : Result OutboxError (List Row))
        → enqueue_rows s db o random m ≡ r
        → EnqueueView s o ms m (settle o r)
    go (err e) h = refl
    go (ok rows) h = append-IsOutbox s o ms m rows (enqueue_rows-Enqueued s db o random m rows h) v

-- The oldest message, as Peek answers.
abbrev pub oldest : List OutboxMessage → Result OutboxError OutboxMessage
oldest [] = err empty
oldest (m ∷ ms) = ok m

oldest_row :
    (s : Sealing) (rs : List Row) (ms : List OutboxMessage)
    → Contents s rs ms
    → (elim (first rs) [ none ↦ err empty | some r ↦ open_row s r ]) ≡ oldest ms
oldest_row s [] [] c = refl
oldest_row s [] (m ∷ ms) c = elim c [ ]
oldest_row s (r ∷ rs) [] c = elim c [ ]
oldest_row s (r ∷ rs) (m ∷ ms) c = c.0.opens

-- Peek gives the oldest message as it was enqueued, and says that the outbox is empty when it is.
pub peek_lem :
    (s : Sealing) (db : Db) (o : Outbox) (ms : List OutboxMessage)
    → IsOutbox s o ms
    → peek s db o ≡ (if db select then oldest ms else err database)
unfolding peek
peek_lem s db o ms v = ground (arith, oldest_row s o.rows ms v.contents)
