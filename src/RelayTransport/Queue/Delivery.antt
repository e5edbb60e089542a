-- ===== src/RelayTransport/Queue/Delivery.antt =====
-- internal/relaytransport/queue.go: what Claim hands out, and what Acknowledge does with it.
use mossward.Common.{
  ◌+◌, ◌≡◌, refl, subst, ◌∙◌, true, false, Option, some, List, [], ◌∷◌, ◌++◌, Bool-cases, inl, inr,
  arith, All, Text, text_eq, text_eq_iff, text_eq_refl, is_blank, Time, unix_nano, ok, ℤ, pos_part,
  length, ◌≢◌,
}
use mossward.RelayTransport.Protocol.{Frame}
use mossward.RelayTransport.Queue.Rows.{
  Row, available, delete_where, count_where, update_where, exists,
}
use mossward.RelayTransport.Queue.Defs.{
  Queue, Delivery, Json, Db, claim, claims, lease_row, holds, acknowledge, delete, rows_affected,
}
use mossward.RelayTransport.Queue.Table.{Distinct, length-delete_where, exists-update_where}
use mossward.RelayTransport.Queue.Effects.{Claimed}
use mossward.RelayTransport.Queue.Invariant.{IsSound, IsStored}
use mossward.RelayTransport.Queue.Order.{FirstBy, select_first-FirstBy}
use mossward.RelayTransport.Queue.Leases.{Held, update-Held, Held-holds, claim-Claimed}

All-middle {κ} :
    (P : Row → Type κ) (xs : List Row) (r : Row) (ys : List Row) → All P (xs ++ r ∷ ys) → P r
All-middle P [] r ys h = h.0
All-middle P (x ∷ xs) r ys h = All-middle P xs r ys h.1

exists_middle :
    (xs : List Row) (r : Row) (ys : List Row) → exists r.message_id (xs ++ r ∷ ys) ≡ true
unfolding exists
exists_middle [] r ys = ground (arith, text_eq_refl r.message_id)
exists_middle (x ∷ xs) r ys = ground (arith, exists_middle xs r ys)

same_frame :
    (o : Option Frame) (a b : Frame) → o ≡ some a → o ≡ some b → a.message_id ≡ b.message_id
same_frame o a b h k = ground arith

-- The row that a delivery comes from, and the lease under which it is left.
pub record Handed (json : Json) (q : Queue) (now : Time) (lease : ℤ) (d : Delivery) (q' : Queue)
    : Type 0 where
  pub effect : Claimed json q now lease d q'.rows
  pub first : FirstBy (available now) q.rows effect.row
  pub same_id : effect.row.message_id ≡ d.frame.message_id
  pub counted : d.attempt ≡ effect.row.attempt_count + 1
  pub until : d.lease_until ≡ now + pos_part lease
  pub held : Held d.frame.message_id d.token (unix_nano d.lease_until) q'.rows
  pub present : exists d.frame.message_id q'.rows ≡ true

-- A claim on a sound queue that succeeds hands out the first row of the highest priority among the
-- available ones, counts the attempt, gives the delivery `now` plus the lease as its end, and leaves
-- every row of that message ID under the token of the delivery, with the int64 of UnixNano of that
-- end, which wraps for an end before 1677 or after 2262, as the end of its lease.
pub claim-Handed :
    (json : Json) (db : Db) (q : Queue) (random : Option Text) (now : Time) (lease : ℤ)
    (d : Delivery)
    → IsSound json q
    → (claim json db q random now lease).1 ≡ ok d
    → Handed json q now lease d (claim json db q random now lease).0
claim-Handed json db q random now lease d s h = record {
  effect = c;
  first = first;
  same_id = same;
  counted = c.attempt;
  until = c.until;
  held = rw c.updated (
      subst (λ id. Held id d.token (unix_nano d.lease_until) updated) same
        (update-Held c.row.message_id now d.token (unix_nano d.lease_until) d.attempt q.rows
          s.distinct c.single));
  present = rw c.updated (
      exists-update_where (claims c.row.message_id now)
        (lease_row d.token (unix_nano d.lease_until) d.attempt) d.frame.message_id q.rows
        (λ r. refl)
      ∙ rw first.split (
          subst (λ id. exists id (first.earlier ++ c.row ∷ first.later) ≡ true) same
            (exists_middle first.earlier c.row first.later)));
}
  where
    c : Claimed json q now lease d (claim json db q random now lease).0.rows
    c = claim-Claimed json db q random now lease d h

    first : FirstBy (available now) q.rows c.row
    first = select_first-FirstBy (available now) q.rows c.row c.chosen

    stored : IsStored json c.row
    stored = All-middle (IsStored json) first.earlier c.row first.later (rw first.split at s.stored)

    updated : List Row
    updated =
        update_where (claims c.row.message_id now)
          (lease_row d.token (unix_nano d.lease_until) d.attempt) q.rows

    same : c.row.message_id ≡ d.frame.message_id
    same = stored.same_id ∙ same_frame _ _ _ stored.decodes c.decodes

-- Acknowledging a held row with any token but its own changes nothing and is refused.
pub acknowledge_stale :
    (db : Db) (q : Queue) (id token stale : Text) (until : ℤ)
    → Held id token until q.rows
    → text_eq token stale ≡ false
    → ((acknowledge db q id stale).0.rows ≡ q.rows) × ((acknowledge db q id stale).1 ≢ ok tt)
unfolding acknowledge
acknowledge_stale db q id token stale until h ne = (
  ground (arith, Held-holds id token stale until q.rows h ne),
  λ e. ground (arith, Held-holds id token stale until q.rows h ne, e),
)

exists-delete-holds :
    (id token : Text) (until : ℤ) (rs : List Row)
    → Held id token until rs
    → exists id (delete_where (holds id token) rs) ≡ false
unfolding exists delete_where
exists-delete-holds id token until [] h = refl
exists-delete-holds id token until (r ∷ rs) h = elim (Bool-cases (text_eq r.message_id id)) [
  | inl same ↦
      ground (arith, exists-delete-holds id token until rs h.1, same, h.0 same, text_eq_refl token)
  | inr other ↦ ground (arith, exists-delete-holds id token until rs h.1, other)
]

count-holds_absent :
    (id token : Text) (rs : List Row) → exists id rs ≡ false → count_where (holds id token) rs ≡ 0
unfolding exists count_where
count-holds_absent id token [] h = refl
count-holds_absent id token (r ∷ rs) h = ground (arith, count-holds_absent id token rs)

count-holds :
    (id token : Text) (until : ℤ) (rs : List Row)
    → Distinct rs
    → Held id token until rs
    → exists id rs ≡ true
    → count_where (holds id token) rs ≡ 1
unfolding exists count_where
count-holds id token until [] d h e = absurd (ground arith)
count-holds id token until (r ∷ rs) d h e = elim (Bool-cases (text_eq r.message_id id)) [
  | inl same ↦ ground (
    arith,
    same,
    h.0 same,
    text_eq_refl token,
    text_eq_iff r.message_id id,
    d.0,
    count-holds_absent id token rs,
  )
  | inr other ↦ ground (arith, count-holds id token until rs d.1 h.1, other)
]

-- In a sound queue, acknowledging a message that is present with the token of its lease succeeds
-- when neither text is blank and the database answers; it removes one row, and no row of that
-- message ID is left.
pub acknowledge_delivered :
    (json : Json) (db : Db) (q : Queue) (id token : Text) (until : ℤ)
    → IsSound json q
    → Held id token until q.rows
    → exists id q.rows ≡ true
    → is_blank id ≡ false
    → is_blank token ≡ false
    → db delete ≡ true
    → db rows_affected ≡ true
    → let after = acknowledge db q id token in
      (after.1 ≡ ok tt)
      × (exists id after.0.rows ≡ false)
      × (length q.rows ≡ length after.0.rows + 1)
unfolding acknowledge
acknowledge_delivered json db q id token until s h e b b' c c' = ground (
  arith,
  count-holds id token until q.rows s.distinct h e,
  exists-delete-holds id token until q.rows h,
  length-delete_where (holds id token) q.rows,
)
