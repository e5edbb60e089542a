-- ===== src/RelayTransport/Queue/Exclusion.antt =====
-- internal/relaytransport/queue.go: nobody else is handed a message while its lease runs.
use mossward.Common.{
  ◌<◌, ◌≡◌, refl, ◌∙◌, Bool, true, false, Option, some, inl, inr, List, [], ◌∷◌, ◌++◌, arith,
  Bool-cases, Text, text_eq, text_eq_iff, Time, leb_ℤ, unix_nano, unix_nano-less, first_unix_nano,
  last_unix_nano, ◌≤◌, Result, ok, err, ℤ,
}
use mossward.RelayTransport.Protocol.{Frame}
use mossward.RelayTransport.Queue.Rows.{Row, exists, update_where, delete_where}
use mossward.RelayTransport.Queue.Defs.{
  Queue, QueueError, Delivery, Json, Db, new_row, enqueue_rows, enqueue, claims, lease_row,
  claim_rows, claim, holds, acknowledge, release_row, release, settle,
}
use mossward.RelayTransport.Queue.Effects.{enqueue_rows-Enqueued, Claimed, claim_rows-Claimed}
use mossward.RelayTransport.Queue.Invariant.{
  IsSound, enqueue-IsSound, claim-IsSound, acknowledge-IsSound, release-IsSound,
}
use mossward.RelayTransport.Queue.Leases.{Held, Held-count}
use mossward.RelayTransport.Queue.Delivery.{Handed, claim-Handed}

-- The message is in the table, and under this lease.
pub record IsLeased (id token : Text) (until : ℤ) (rows : List Row) : Type 0 where
  pub held : Held id token until rows
  pub present : exists id rows ≡ true

module _ (id token : Text) (until : ℤ) where
  update-IsLeased :
      (p : Row → Bool) (change : Row → Row) (rs : List Row)
      → ((r : Row)
          → text_eq r.message_id id ≡ true
          → r.delivery_token ≡ some token
          → r.lease_until ≡ some until
          → p r ≡ false)
      → ((r : Row) → (change r).message_id ≡ r.message_id)
      → Held id token until rs
      → Held id token until (update_where p change rs)
        × (exists id (update_where p change rs) ≡ exists id rs)
  unfolding update_where exists
  update-IsLeased p change [] miss k h = (tt, refl)
  update-IsLeased p change (r ∷ rs) miss k h =
      let (held, present) = update-IsLeased p change rs miss k h.1 in
      elim (Bool-cases (p r)) [
        | inl hit ↦ (
          (rw hit (λ e. absurd (ground (arith, k r, hit, h.0, e, miss r))), held),
          ground (arith, hit, k r, present),
        )
        | inr pass ↦ ((rw pass h.0, held), ground (arith, pass, present))
      ]

  delete-IsLeased :
      (p : Row → Bool) (rs : List Row)
      → ((r : Row)
          → text_eq r.message_id id ≡ true
          → r.delivery_token ≡ some token
          → r.lease_until ≡ some until
          → p r ≡ false)
      → Held id token until rs
      → Held id token until (delete_where p rs) × (exists id (delete_where p rs) ≡ exists id rs)
  unfolding delete_where exists
  delete-IsLeased p [] miss h = (tt, refl)
  delete-IsLeased p (r ∷ rs) miss h =
      let (held, present) = delete-IsLeased p rs miss h.1 in
      elim (Bool-cases (p r)) [
        | inl hit ↦ (rw hit held, ground (arith, hit, h.0, present, miss r))
        | inr pass ↦ (rw pass (h.0, held), ground (arith, pass, present))
      ]

  append-Held :
      (r : Row) (rs : List Row)
      → text_eq r.message_id id ≡ false
      → Held id token until rs
      → Held id token until (rs ++ r ∷ [])
  append-Held r [] other h = (λ e. absurd (ground arith), tt)
  append-Held r (s ∷ rs) other h = (h.0, append-Held r rs other h.1)

  append-exists : (r : Row) (rs : List Row) → exists id rs ≡ true → exists id (rs ++ r ∷ []) ≡ true
  unfolding exists
  append-exists r [] h = absurd (ground arith)
  append-exists r (s ∷ rs) h = ground (arith, append-exists r rs)

  enqueue-IsLeased :
      (json : Json) (db : Db) (q : Queue) (f : Frame) (now : Time)
      → IsLeased id token until q.rows
      → IsLeased id token until (enqueue json db q f now).0.rows
  unfolding enqueue new_row
  enqueue-IsLeased json db q f now l = go (enqueue_rows json db q f now) refl
    where
      go :
          (r : Result QueueError (Unit {0} × List Row))
          → enqueue_rows json db q f now ≡ r
          → IsLeased id token until (settle q r).0.rows
      go (err e) h = l
      go (ok (u, rows)) h =
          let e = enqueue_rows-Enqueued json db q f now rows h in
          rw e.appended (record {
            held =
                append-Held (new_row f e.encoded) q.rows
                  (ground (arith, text_eq_iff f.message_id id, e.fresh, l.present)) l.held;
            present = append-exists (new_row f e.encoded) q.rows l.present;
          })

  -- A claim that succeeds while the lease runs is of another message.
  claim_other :
      (json : Json) (db : Db) (q : Queue) (random : Option Text) (now : Time) (lease : ℤ)
      (d : Delivery) (rows : List Row)
      → Held id token until q.rows
      → leb_ℤ until (unix_nano now) ≡ false
      → (c : Claimed json q now lease d rows) → text_eq c.row.message_id id ≡ false
  claim_other json db q random now lease d rows h lt c =
      ground (
        arith,
        Held-count id token until now q.rows h lt,
        text_eq_iff c.row.message_id id,
        c.single,
      )

  claim-IsLeased :
      (json : Json) (db : Db) (q : Queue) (random : Option Text) (now : Time) (lease : ℤ)
      → leb_ℤ until (unix_nano now) ≡ false
      → IsLeased id token until q.rows
      → IsLeased id token until (claim json db q random now lease).0.rows
  unfolding claim
  claim-IsLeased json db q random now lease lt l = go (claim_rows json db q random now lease) refl
    where
      go :
          (r : Result QueueError (Delivery × List Row))
          → claim_rows json db q random now lease ≡ r
          → IsLeased id token until (settle q r).0.rows
      go (err e) h = l
      go (ok (d, rows)) h =
          let c = claim_rows-Claimed json db q random now lease d rows h in
          let other = claim_other json db q random now lease d rows l.held lt c in
          let (held, present) =
            update-IsLeased (claims c.row.message_id now)
              (lease_row d.token (unix_nano d.lease_until) d.attempt) q.rows
              (λ r same _ _. ground (
                arith,
                other,
                text_eq_iff r.message_id id,
                text_eq_iff r.message_id c.row.message_id,
                same,
              ))
              (λ r. refl) l.held in
          rw c.updated (record { held = held; present = present ∙ l.present })

  acknowledge-IsLeased :
      (db : Db) (q : Queue) (other_id stale : Text)
      → text_eq token stale ≡ false
      → IsLeased id token until q.rows
      → IsLeased id token until (acknowledge db q other_id stale).0.rows
  unfolding acknowledge
  acknowledge-IsLeased db q other_id stale ne l =
      let (held, present) =
        delete-IsLeased (holds other_id stale) q.rows (λ r _ t _. ground (arith, ne, t)) l.held in
      ground (arith, held, present, l.held, l.present)

  release-IsLeased :
      (db : Db) (q : Queue) (other_id stale : Text)
      → text_eq token stale ≡ false
      → IsLeased id token until q.rows
      → IsLeased id token until (release db q other_id stale).0.rows
  unfolding release
  release-IsLeased db q other_id stale ne l =
      let (held, present) =
        update-IsLeased (holds other_id stale) release_row q.rows (λ r _ t _. ground (arith, ne, t))
          (λ r. refl) l.held in
      ground (arith, held, present, l.held, l.present)

-- The queues reached from `q` by enqueues, by claims before `until` and from the first instant of UnixNano on, and by acknowledgements and
-- releases with other tokens, each with any calls of the database failing.
pub data During (json : Json) (token : Text) (until : Time) (q : Queue) : Queue → Type 0 where
  start : During json token until q q
  enqueued :
      {r : Queue} (db : Db) (f : Frame) (now : Time)
      → During json token until q r
      → During json token until q (enqueue json db r f now).0
  claimed :
      {r : Queue} (db : Db) (random : Option Text) (now : Time) (lease : ℤ)
      → first_unix_nano ≤ now
      → now < until
      → During json token until q r
      → During json token until q (claim json db r random now lease).0
  acknowledged :
      {r : Queue} (db : Db) (id stale : Text)
      → text_eq token stale ≡ false
      → During json token until q r
      → During json token until q (acknowledge db r id stale).0
  released :
      {r : Queue} (db : Db) (id stale : Text)
      → text_eq token stale ≡ false
      → During json token until q r
      → During json token until q (release db r id stale).0

During-keeps :
    {json : Json} {token : Text} {until : Time} {q r : Queue} (id : Text)
    → until ≤ last_unix_nano
    → During json token until q r
    → IsSound json q
    → IsLeased id token (unix_nano until) q.rows
    → IsSound json r × IsLeased id token (unix_nano until) r.rows
During-keeps id e start s l = (s, l)
During-keeps {json = json} {token = token} {until = until} id e (enqueued {r = r} db f now h) s l =
    let (s', l') = During-keeps id e h s l in
    (
      enqueue-IsSound json db r f now s',
      enqueue-IsLeased id token (unix_nano until) json db r f now l',
    )
During-keeps {json = json} {token = token} {until = until} id e
      (claimed {r = r} db random now lease low lt h) s l =
    let (s', l') = During-keeps id e h s l in
    (
      claim-IsSound json db r random now lease s',
      claim-IsLeased id token (unix_nano until) json db r random now lease
          (unix_nano-less now until low lt e) l',
    )
During-keeps {json = json} {token = token} {until = until} id e
      (acknowledged {r = r} db other stale ne h) s l =
    let (s', l') = During-keeps id e h s l in
    (
      acknowledge-IsSound json db r other stale s',
      acknowledge-IsLeased id token (unix_nano until) db r other stale ne l',
    )
During-keeps {json = json} {token = token} {until = until} id e
      (released {r = r} db other stale ne h) s l =
    let (s', l') = During-keeps id e h s l in
    (
      release-IsSound json db r other stale s',
      release-IsLeased id token (unix_nano until) db r other stale ne l',
    )

-- Once a claim on a sound queue has handed out a message under a lease that ends by the last instant
-- of UnixNano, in the year 2262, no claim between the first such instant and the end of the lease hands
-- out that message again, whatever enqueues, claims in that time, and acknowledgements and releases
-- with other tokens come in between.
pub lease_excludes :
    (json : Json) (db db' : Db) (q r : Queue) (random random' : Option Text) (now now' : Time)
    (lease lease' : ℤ) (d d' : Delivery)
    → IsSound json q
    → (claim json db q random now lease).1 ≡ ok d
    → During json d.token d.lease_until (claim json db q random now lease).0 r
    → d.lease_until ≤ last_unix_nano
    → first_unix_nano ≤ now'
    → now' < d.lease_until
    → (claim json db' r random' now' lease').1 ≡ ok d'
    → text_eq d'.frame.message_id d.frame.message_id ≡ false
lease_excludes json db db' q r random random' now now' lease lease' d d' s h during end low lt h' =
    rw (← again.same_id) (
      claim_other d.frame.message_id d.token (unix_nano d.lease_until) json db' r random' now'
        lease' d' _ l.held (unix_nano-less now' d.lease_until low lt end) again.effect)
  where
    first : Handed json q now lease d (claim json db q random now lease).0
    first = claim-Handed json db q random now lease d s h

    kept : IsSound json r × IsLeased d.frame.message_id d.token (unix_nano d.lease_until) r.rows
    kept =
        During-keeps d.frame.message_id end during (claim-IsSound json db q random now lease s)
          (record { held = first.held; present = first.present })

    l : IsLeased d.frame.message_id d.token (unix_nano d.lease_until) r.rows
    l = kept.1

    again : Handed json r now' lease' d' (claim json db' r random' now' lease').0
    again = claim-Handed json db' r random' now' lease' d' kept.0 h'
