-- ===== src/WorkerClient/Outbox/Forwarding.antt =====
-- internal/workerclient/outbox.go: ForwardPending on the queue of messages.
use Prim.Native.Nat.{min}
use mossward.Common.{
  drop, ℕ, zero, suc, ◌+◌, ◌<◌, ◌≡◌, refl, ap, sym, subst, ◌⊎◌, inl, inr, true, false, Option, some,
  none, List, [], ◌∷◌, arith, if◌then◌else◌, Bool-cases, length, Text, text_eq_refl, ok, err,
}
use mossward.WorkerClient.Outbox.Defs.{
  OutboxMessage, Outbox, OutboxError, Row, Sealing, Db, DbCall, exists, total_size, delete_id,
  count_id, acknowledge, select, delete, rows_affected, database, Round, Forwarded, Outcome,
  goes_on, returns, after_acknowledge, after_peek, forward_one, forward_loop, forward_pending,
}
use mossward.WorkerClient.Outbox.Fifo.{Contents, Distinct, IsOutbox, oldest, peek_lem}

delete_absent :
    (id : Text) (rs : List Row)
    → exists id rs ≡ false
    → (delete_id id rs ≡ rs) × (count_id id rs ≡ 0)
unfolding exists delete_id count_id
delete_absent id [] h = (refl, refl)
delete_absent id (r ∷ rs) h = ground (arith, delete_absent id rs)

-- Deleting the first row of a table with distinct IDs.
delete_first :
    (r : Row) (rs : List Row)
    → Distinct (r ∷ rs)
    → (delete_id r.id (r ∷ rs) ≡ rs) × (count_id r.id (r ∷ rs) ≡ 1)
unfolding delete_id count_id
delete_first r rs d = ground (arith, text_eq_refl r.id, delete_absent r.id rs d.0)

tail-IsOutbox :
    (s : Sealing) (o : Outbox) (r : Row) (rs : List Row) (m : OutboxMessage)
    (ms : List OutboxMessage)
    → o.rows ≡ r ∷ rs
    → IsOutbox s o (m ∷ ms)
    → IsOutbox s (record o { rows = rs }) ms
unfolding total_size
tail-IsOutbox s o r rs m ms e v = record {
  contents = (subst (λ x. Contents s x (m ∷ ms)) e v.contents).1;
  distinct = (subst Distinct e v.distinct).1;
  items = omega (arith, v.items, ap length e);
  bytes = omega (arith, v.bytes, ap total_size e);
  small = v.small;
}

-- Acknowledging the oldest message: it is gone, unless the database refused the deletion.
acknowledge_oldest :
    (s : Sealing) (db : Db) (o : Outbox) (rows : List Row) (m : OutboxMessage)
    (ms : List OutboxMessage)
    → o.rows ≡ rows
    → IsOutbox s o (m ∷ ms)
    → ((o' : Outbox) × IsOutbox s o' ms
        × (db delete ≡ true)
        × (acknowledge db o m.id ≡ (o', if db rows_affected then ok tt else err database)))
      ⊎ ((acknowledge db o m.id ≡ (o, err database)) × (db delete ≡ false))
unfolding acknowledge
acknowledge_oldest s db o [] m ms e v = absurd (subst (λ x. Contents s x (m ∷ ms)) e v.contents)
acknowledge_oldest s db o (r ∷ rs) m ms e v =
    let same = (subst (λ x. Contents s x (m ∷ ms)) e v.contents).0.same_id in
    let (deleted, counted) = delete_first r rs (subst Distinct e v.distinct) in
    let gone : delete_id m.id o.rows ≡ rs = rw (e, ← same) deleted in
    let one : count_id m.id o.rows ≡ 1 = rw (e, ← same) counted in
    elim (Bool-cases (db delete)) [
      | inl up ↦ inl (
        record o { rows = rs },
        tail-IsOutbox s o r rs m ms e v,
        up,
        ground (arith, up, one, gone),
      )
      | inr down ↦ inr (ground (arith, down), down)
    ]

-- Which messages left the outbox, in the order of the queue: the sender took each of them. The last
-- one may have left it without being counted, when the count of deleted rows could not be read.
pub data Left (rounds : ℕ → Round) : ℕ → List OutboxMessage → ℕ → List OutboxMessage → Type 0 where
  rest : {n : ℕ} {ms : List OutboxMessage} → Left rounds n ms n ms
  sent :
      {n k : ℕ} {m : OutboxMessage} {ms left : List OutboxMessage}
      → (rounds n).delivers m ≡ true
      → Left rounds (n + 1) ms k left
      → Left rounds n (m ∷ ms) k left
  uncounted :
      {n : ℕ} {m : OutboxMessage} {ms : List OutboxMessage}
      → (rounds n).delivers m ≡ true
      → Left rounds n (m ∷ ms) n ms

-- What one round does to the queue.
data RoundView (s : Sealing) (round : Round) (ms : List OutboxMessage) : Outcome → Type 0 where
  stays :
      (o : Outbox) (e : Option OutboxError) → IsOutbox s o ms → RoundView s round ms (returns o e)
  forwards :
      (o : Outbox) (m : OutboxMessage) (rest : List OutboxMessage)
      → ms ≡ m ∷ rest
      → round.delivers m ≡ true
      → IsOutbox s o rest
      → RoundView s round ms (goes_on o)
  loses :
      (o : Outbox) (e : Option OutboxError) (m : OutboxMessage) (rest : List OutboxMessage)
      → ms ≡ m ∷ rest
      → round.delivers m ≡ true
      → IsOutbox s o rest
      → RoundView s round ms (returns o e)

acknowledge-RoundView :
    (s : Sealing) (round : Round) (o : Outbox) (m : OutboxMessage) (ms : List OutboxMessage)
    → IsOutbox s o (m ∷ ms)
    → round.delivers m ≡ true
    → RoundView s round (m ∷ ms) (after_acknowledge (acknowledge round.db o m.id))
acknowledge-RoundView s round o m ms v d =
    elim (acknowledge_oldest s round.db o o.rows m ms refl v) [
      | inr (e, down) ↦ rw e (stays o (some database) v)
      | inl (o', v', up, e) ↦ elim (Bool-cases (round.db rows_affected)) [
        | inl counted ↦ rw (e, counted) (forwards o' m ms refl d v')
        | inr failed ↦ rw (e, failed) (loses o' (some database) m ms refl d v')
      ]
    ]

forward_one-RoundView :
    (s : Sealing) (round : Round) (o : Outbox) (ms : List OutboxMessage)
    → IsOutbox s o ms
    → RoundView s round ms (forward_one s round o)
unfolding forward_one
forward_one-RoundView s round o ms v = elim (Bool-cases round.is_cancelled) [
  | inl stop ↦ simp stop (stays o _ v)
  | inr run ↦ simp (run, peek_lem s round.db o ms v) (opened ms v)
]
  where
    opened :
        (ms : List OutboxMessage)
        → IsOutbox s o ms
        → RoundView s round ms
            (after_peek round o (if round.db select then oldest ms else err database))
    opened [] v = elim (Bool-cases (round.db select)) [
      | inl up ↦ rw up (stays o none v)
      | inr down ↦ rw down (stays o (some database) v)
    ]
    opened (m ∷ ms) v = elim (Bool-cases (round.db select)) [
      | inr down ↦ rw down (stays o (some database) v)
      | inl up ↦ elim (Bool-cases (round.delivers m)) [
        | inl d ↦ rw (up, d) (acknowledge-RoundView s round o m ms v d)
        | inr failed ↦ rw (up, failed) (stays o _ v)
      ]
    ]

abbrev after_round : Sealing → (ℕ → Round) → ℕ → ℕ → Outcome → Forwarded
after_round s rounds n forwarded (goes_on o) = forward_loop s rounds n (forwarded + 1) o
after_round s rounds n forwarded (returns o e) = (o, forwarded, e)

abbrev LoopView : Sealing → (ℕ → Round) → ℕ → List OutboxMessage → Forwarded → Type 0
LoopView s rounds n ms out =
    (left : List OutboxMessage) × Left rounds n ms out.1 left × IsOutbox s out.0 left

round-LoopView :
    (s : Sealing) (rounds : ℕ → Round) (n forwarded : ℕ) (ms : List OutboxMessage) (out : Outcome)
    → ((o : Outbox) (ms : List OutboxMessage)
        → IsOutbox s o ms
        → LoopView s rounds (forwarded + 1) ms (forward_loop s rounds n (forwarded + 1) o))
    → RoundView s (rounds forwarded) ms out
    → LoopView s rounds forwarded ms (after_round s rounds n forwarded out)
round-LoopView s rounds n forwarded ms out ih (stays o e v) = (ms, rest, v)
round-LoopView s rounds n forwarded ms out ih (forwards o m tail e d v) =
    let (left, sends, v') = ih o tail v in
    (
      left,
      subst (λ x. Left rounds forwarded x (forward_loop s rounds n (forwarded + 1) o).1 left)
          (sym e) (sent d sends),
      v',
    )
round-LoopView s rounds n forwarded ms out ih (loses o e m tail h d v) =
    (tail, subst (λ x. Left rounds forwarded x forwarded tail) (sym h) (uncounted d), v)

forward_loop-LoopView :
    (s : Sealing) (rounds : ℕ → Round) (n forwarded : ℕ) (o : Outbox) (ms : List OutboxMessage)
    → IsOutbox s o ms
    → LoopView s rounds forwarded ms (forward_loop s rounds n forwarded o)
unfolding forward_loop
forward_loop-LoopView s rounds zero forwarded o ms v = (ms, rest, v)
forward_loop-LoopView s rounds (suc n) forwarded o ms v =
    (elim (forward_one s (rounds forwarded) o)
        as (λ out.
          RoundView s (rounds forwarded) ms out
          → LoopView s rounds forwarded ms (elim out as (λ _. Forwarded) [
            | goes_on o' ↦ forward_loop s rounds n (forwarded + 1) o'
            | returns o' e ↦ (o', forwarded, e)
          ])) [
            | goes_on o' ↦
                round-LoopView s rounds n forwarded ms (goes_on o')
                  (λ p qs w. forward_loop-LoopView s rounds n (forwarded + 1) p qs w)
            | returns o' e ↦
                round-LoopView s rounds n forwarded ms (returns o' e)
                  (λ p qs w. forward_loop-LoopView s rounds n (forwarded + 1) p qs w)
          ])
      (forward_one-RoundView s (rounds forwarded) o ms v)

-- Whatever fails on the way, ForwardPending takes messages out of the outbox in the order of the
-- queue, only ones that the sender took, and the outbox stands for the rest.
pub forward_pending-Left :
    (s : Sealing) (rounds : ℕ → Round) (maximum : ℕ) (o : Outbox) (ms : List OutboxMessage)
    → IsOutbox s o ms
    → (left : List OutboxMessage) × Left rounds 0 ms (forward_pending s rounds maximum o).1 left
      × IsOutbox s (forward_pending s rounds maximum o).0 left
unfolding forward_pending
forward_pending-Left s rounds zero o ms v = (ms, rest, v)
forward_pending-Left s rounds (suc n) o ms v = forward_loop-LoopView s rounds (suc n) 0 o ms v

-- A round in which nothing fails.
pub record IsGood (round : Round) : Type 0 where
  pub runs : round.is_cancelled ≡ false
  pub up : (c : DbCall) → round.db c ≡ true
  pub takes : (m : OutboxMessage) → round.delivers m ≡ true

good_round :
    (s : Sealing) (round : Round) (o : Outbox) (m : OutboxMessage) (ms : List OutboxMessage)
    → IsGood round
    → IsOutbox s o (m ∷ ms)
    → (o' : Outbox) × (forward_one s round o ≡ goes_on o') × IsOutbox s o' ms
unfolding forward_one
good_round s round o m ms g v = elim (acknowledge_oldest s round.db o o.rows m ms refl v) [
  | inr (e, down) ↦ absurd (ground (arith, g.up delete, down))
  | inl (o', v', up, e) ↦ (
    o',
    ground (
      arith,
      g.runs,
      g.up select,
      g.up rows_affected,
      g.takes m,
      e,
      peek_lem s round.db o (m ∷ ms) v,
    ),
    v',
  )
]

good_end :
    (s : Sealing) (round : Round) (o : Outbox)
    → IsGood round
    → IsOutbox s o []
    → forward_one s round o ≡ returns o none
unfolding forward_one
good_end s round o g v = ground (arith, g.runs, g.up select, peek_lem s round.db o [] v)

forward_loop_all :
    (s : Sealing) (rounds : ℕ → Round) (n forwarded : ℕ) (o : Outbox) (ms : List OutboxMessage)
    → ((k : ℕ) → IsGood (rounds k))
    → IsOutbox s o ms
    → let out = forward_loop s rounds n forwarded o in
      (out.1 ≡ forwarded + min n (length ms)) × (out.2 ≡ none) × IsOutbox s out.0 (drop n ms)
unfolding forward_loop
forward_loop_all s rounds zero forwarded o ms g v = (omega arith, refl, v)
forward_loop_all s rounds (suc n) forwarded o [] g v =
    rw (good_end s (rounds forwarded) o (g forwarded) v, forward_loop) (omega arith, refl, v)
forward_loop_all s rounds (suc n) forwarded o (m ∷ ms) g v =
    let (o', e, v') = good_round s (rounds forwarded) o m ms (g forwarded) v in
    let (count, none', left) = forward_loop_all s rounds n (forwarded + 1) o' ms g v' in
    rw (e, forward_loop) (omega (arith, count), none', left)

-- When nothing fails in any round, ForwardPending forwards the oldest messages up to the maximum,
-- returns their count without an error, and leaves the outbox standing for the rest.
pub forward_pending_all :
    (s : Sealing) (rounds : ℕ → Round) (maximum : ℕ) (o : Outbox) (ms : List OutboxMessage)
    → ((k : ℕ) → IsGood (rounds k))
    → 0 < maximum
    → IsOutbox s o ms
    → let out = forward_pending s rounds maximum o in
      (out.1 ≡ min maximum (length ms)) × (out.2 ≡ none) × IsOutbox s out.0 (drop maximum ms)
unfolding forward_pending
forward_pending_all s rounds zero o ms g h v = absurd (omega arith)
forward_pending_all s rounds (suc n) o ms g h v =
    let (count, none', left) = forward_loop_all s rounds (suc n) 0 o ms g v in
    (omega (arith, count), none', left)
