-- ===== src/RelayTransport/Queue/Table.antt =====
-- What the statements of internal/relaytransport/queue.go keep of the table.
use mossward.Common.{
  ◌+◌, ◌≤◌, ◌≡◌, refl, Bool, false, ◌||◌, inl, inr, List, [], ◌∷◌, ◌++◌, arith, length, Text,
  text_eq, text_eq_iff, All, Bool-cases,
}
use mossward.RelayTransport.Queue.Rows.{
  Row, exists, total_size, update_where, delete_where, count_where,
}

-- No two rows have one message ID.
abbrev pub Distinct : List Row → Type 0
Distinct [] = Unit {0}
Distinct (r ∷ rs) = (exists r.message_id rs ≡ false) × Distinct rs

-- A change of a row that keeps its message ID.
abbrev pub KeepsId : (Row → Row) → Type 0
KeepsId change = (r : Row) → (change r).message_id ≡ r.message_id

abbrev pub KeepsSize : (Row → Row) → Type 0
KeepsSize change = (r : Row) → (change r).frame_size ≡ r.frame_size

exists_swap :
    (id : Text) (r : Row) (rs : List Row)
    → exists id (rs ++ r ∷ []) ≡ (exists id rs || text_eq r.message_id id)
unfolding exists
exists_swap id r [] = ground arith
exists_swap id r (s ∷ rs) = ground (arith, exists_swap id r rs)

pub Distinct-append :
    (r : Row) (rs : List Row)
    → exists r.message_id rs ≡ false
    → Distinct rs
    → Distinct (rs ++ r ∷ [])
unfolding exists
Distinct-append r [] new d = (refl, tt)
Distinct-append r (s ∷ rs) new d = (
  ground (
    arith,
    exists_swap s.message_id r rs,
    text_eq_iff r.message_id s.message_id,
    text_eq_iff s.message_id r.message_id,
  ),
  Distinct-append r rs (ground arith) d.1,
)

module _ (p : Row → Bool) where
  pub exists-delete_where :
      (id : Text) (rs : List Row) → exists id rs ≡ false → exists id (delete_where p rs) ≡ false
  unfolding exists delete_where
  exists-delete_where id [] h = h
  exists-delete_where id (r ∷ rs) h = ground (arith, exists-delete_where id rs)

  pub Distinct-delete_where : (rs : List Row) → Distinct rs → Distinct (delete_where p rs)
  unfolding delete_where
  Distinct-delete_where [] d = tt
  Distinct-delete_where (r ∷ rs) d =
      ground (arith, Distinct-delete_where rs d.1, exists-delete_where r.message_id rs d.0)

  pub total_size-delete_where-le : (rs : List Row) → total_size (delete_where p rs) ≤ total_size rs
  unfolding total_size delete_where
  total_size-delete_where-le [] = omega arith
  total_size-delete_where-le (r ∷ rs) = ground (arith, total_size-delete_where-le rs)

  -- A row is deleted or kept.
  pub length-delete_where :
      (rs : List Row) → length (delete_where p rs) + count_where p rs ≡ length rs
  unfolding delete_where count_where
  length-delete_where [] = omega arith
  length-delete_where (r ∷ rs) = ground (arith, length-delete_where rs)

  pub All-delete_where {κ} :
      (P : Row → Type κ) (rs : List Row) → All P rs → All P (delete_where p rs)
  unfolding delete_where
  All-delete_where P [] h = h
  All-delete_where P (r ∷ rs) h = elim (Bool-cases (p r)) [
    | inl e ↦ rw (e, delete_where) (All-delete_where P rs h.1)
    | inr e ↦ rw (e, delete_where) (h.0, All-delete_where P rs h.1)
  ]

  module _ (change : Row → Row) where
    pub exists-update_where :
        (id : Text) (rs : List Row)
        → KeepsId change
        → exists id (update_where p change rs) ≡ exists id rs
    unfolding exists update_where
    exists-update_where id [] k = refl
    exists-update_where id (r ∷ rs) k = ground (arith, exists-update_where id rs k, k r)

    pub Distinct-update_where :
        (rs : List Row) → KeepsId change → Distinct rs → Distinct (update_where p change rs)
    unfolding update_where
    Distinct-update_where [] k d = tt
    Distinct-update_where (r ∷ rs) k d = ground (
      arith,
      Distinct-update_where rs k d.1,
      exists-update_where r.message_id rs k,
      exists-update_where (change r).message_id rs k,
      k r,
    )

    pub total_size-update_where :
        (rs : List Row) → KeepsSize change → total_size (update_where p change rs) ≡ total_size rs
    unfolding total_size update_where
    total_size-update_where [] k = refl
    total_size-update_where (r ∷ rs) k = ground (arith, total_size-update_where rs k, k r)

    pub length-update_where : (rs : List Row) → length (update_where p change rs) ≡ length rs
    unfolding update_where
    length-update_where [] = refl
    length-update_where (r ∷ rs) = ground (arith, length-update_where rs)

    pub All-update_where {κ} :
        (P : Row → Type κ) (rs : List Row)
        → ((r : Row) → P r → P (change r))
        → All P rs
        → All P (update_where p change rs)
    unfolding update_where
    All-update_where P [] k h = h
    All-update_where P (r ∷ rs) k h = elim (Bool-cases (p r)) [
      | inl e ↦ rw (e, update_where) (k r h.0, All-update_where P rs k h.1)
      | inr e ↦ rw (e, update_where) (h.0, All-update_where P rs k h.1)
    ]

pub total_size-append :
    (r : Row) (rs : List Row) → total_size (rs ++ r ∷ []) ≡ total_size rs + r.frame_size
unfolding total_size
total_size-append r [] = omega arith
total_size-append r (s ∷ rs) = omega (arith, total_size-append r rs)
