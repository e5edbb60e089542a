-- ===== src/RelayTransport/Queue/Leases.antt =====
-- internal/relaytransport/queue.go: a claimed row under its lease.
use mossward.Common.{
  ℕ, ◌≡◌, refl, ap, ◌∙◌, Bool, true, false, Option, some, inl, inr, List, [], ◌∷◌, arith, All,
  Bool-cases, Text, text_eq, text_eq_iff, Time, leb_ℤ, unix_nano, Result, ok, err, ℤ,
}
use mossward.RelayTransport.Queue.Rows.{Row, exists, update_where, delete_where, count_where}
use mossward.RelayTransport.Queue.Defs.{
  Queue, QueueError, Delivery, Json, Db, claim_rows, claim, claims, lease_row, holds, settle,
}
use mossward.RelayTransport.Queue.Table.{Distinct}
use mossward.RelayTransport.Queue.Effects.{Claimed, claim_rows-Claimed}

-- Every row with this ID is leased under the token until the time.
abbrev pub Held : Text → Text → ℤ → List Row → Type 0
Held id token until = All λ r.
    text_eq r.message_id id ≡ true → (r.delivery_token ≡ some token) × (r.lease_until ≡ some until)

module _ (id : Text) (now : Time) where
  count-claims_absent : (rs : List Row) → exists id rs ≡ false → count_where (claims id now) rs ≡ 0
  unfolding exists count_where
  count-claims_absent [] h = refl
  count-claims_absent (r ∷ rs) h = ground (arith, count-claims_absent rs)

  Held-absent :
      (token : Text) (until : ℤ) (p : Row → Bool) (change : Row → Row) (rs : List Row)
      → exists id rs ≡ false
      → ((r : Row) → (change r).message_id ≡ r.message_id)
      → Held id token until (update_where p change rs)
  unfolding exists update_where
  Held-absent token until p change [] h k = tt
  Held-absent token until p change (r ∷ rs) h k =
      (λ e. absurd (ground (arith, k r)), Held-absent token until p change rs (ground arith) k)

  pub update-Held :
      (token : Text) (until : ℤ) (attempt : ℕ) (rs : List Row)
      → Distinct rs
      → count_where (claims id now) rs ≡ 1
      → Held id token until (update_where (claims id now) (lease_row token until attempt) rs)
  unfolding count_where update_where
  update-Held token until attempt [] d c = tt
  update-Held token until attempt (r ∷ rs) d c = elim (Bool-cases (claims id now r)) [
    | inl hit ↦ (
      rw hit (λ _. (refl, refl)),
      Held-absent token until (claims id now) (lease_row token until attempt) rs
          (ground (arith, hit, text_eq_iff r.message_id id, d.0)) (λ s. refl),
    )
    | inr miss ↦ (
      rw miss (λ same. absurd (
          ground (arith, miss, same, text_eq_iff r.message_id id, d.0, c, count-claims_absent rs))),
      update-Held token until attempt rs d.1 (ground (arith, miss, c)),
    )
  ]

-- A held row is not available before its lease is over.
pub Held-count :
    (id token : Text) (until : ℤ) (now : Time) (rs : List Row)
    → Held id token until rs
    → leb_ℤ until (unix_nano now) ≡ false
    → count_where (claims id now) rs ≡ 0
unfolding count_where
Held-count id token until now [] h lt = refl
Held-count id token until now (r ∷ rs) h lt = elim (Bool-cases (text_eq r.message_id id)) [
  | inl same ↦ ground (arith, Held-count id token until now rs h.1, h.0 same)
  | inr other ↦ ground (arith, other, Held-count id token until now rs h.1)
]

-- Another token holds no row with this ID.
pub Held-holds :
    (id token stale : Text) (until : ℤ) (rs : List Row)
    → Held id token until rs
    → text_eq token stale ≡ false
    → (count_where (holds id stale) rs ≡ 0) × (delete_where (holds id stale) rs ≡ rs)
unfolding count_where delete_where
Held-holds id token stale until [] h ne = (refl, refl)
Held-holds id token stale until (r ∷ rs) h ne = elim (Bool-cases (text_eq r.message_id id)) [
  | inl same ↦ ground (arith, Held-holds id token stale until rs h.1, h.0 same)
  | inr other ↦ ground (arith, other, Held-holds id token stale until rs h.1)
]

pub claim-Claimed :
    (json : Json) (db : Db) (q : Queue) (random : Option Text) (now : Time) (lease : ℤ)
    (d : Delivery)
    → (claim json db q random now lease).1 ≡ ok d
    → Claimed json q now lease d (claim json db q random now lease).0.rows
unfolding claim
claim-Claimed json db q random now lease d h = go (claim_rows json db q random now lease) refl h
  where
    go :
        (r : Result QueueError (Delivery × List Row))
        → claim_rows json db q random now lease ≡ r
        → (settle q r).1 ≡ ok d
        → Claimed json q now lease d (settle q r).0.rows
    go (err e) h k = absurd (ground arith)
    go (ok (d', rows)) h k =
        claim_rows-Claimed json db q random now lease d rows
          (h ∙ ap (λ x. ok (x, rows)) (ground arith))
