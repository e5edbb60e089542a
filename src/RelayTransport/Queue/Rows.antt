-- ===== src/RelayTransport/Queue/Rows.antt =====
-- internal/relaytransport/queue.go: the table relay_frames and what its SQL statements do. A table
-- is the list of its rows in the order of their rowid; SQLite gives a new row the greatest rowid. The columns
-- of times hold what UnixNano gives.
use mossward.Common.{
  ℕ, ◌+◌, Bool, true, false, ◌||◌, Option, none, some, List, [], ◌∷◌, ltb, if◌then◌else◌, Text,
  text_eq, Time, ℤ, leb_ℤ, unix_nano,
}

pub record Row : Type 0 where
  pub message_id : Text
  pub frame_json : List ℕ
  pub frame_size : ℕ
  pub created_at : ℤ
  pub priority : ℕ
  pub delivery_token : Option Text
  pub lease_until : Option ℤ
  pub attempt_count : ℕ

abbrev pub is_none {ℓ} : {A : Type ℓ} → Option A → Bool
is_none none = true
is_none (some a) = false

-- `lease_until<=?`, which a NULL does not satisfy
abbrev pub lease_over : Option ℤ → ℤ → Bool
lease_over none now = false
lease_over (some t) now = leb_ℤ t now

-- `delivery_token=?`, which a NULL does not satisfy
abbrev pub token_is : Option Text → Text → Bool
token_is none token = false
token_is (some t) token = text_eq t token

-- `delivery_token IS NULL OR lease_until<=?`
abbrev pub available : Time → Row → Bool
available now r = is_none r.delivery_token || lease_over r.lease_until (unix_nano now)

-- `SELECT 1 ... WHERE message_id=?`
unfoldable pub exists : Text → List Row → Bool
exists id [] = false
exists id (r ∷ rs) = text_eq r.message_id id || exists id rs

-- `COALESCE(SUM(frame_size),0)`
unfoldable pub total_size : List Row → ℕ
total_size [] = 0
total_size (r ∷ rs) = r.frame_size + total_size rs

abbrev pub better : Row → Option Row → Option Row
better r none = some r
better r (some s) = if ltb r.priority s.priority then some s else some r

-- `WHERE p ORDER BY priority DESC,rowid LIMIT 1`
unfoldable pub select_first : (Row → Bool) → List Row → Option Row
select_first p [] = none
select_first p (r ∷ rs) = let rest = select_first p rs in if p r then better r rest else rest

-- `UPDATE ... SET change WHERE p`, and `DELETE ... WHERE p`; each with the number of rows affected.
unfoldable pub update_where : (Row → Bool) → (Row → Row) → List Row → List Row
update_where p change [] = []
update_where p change (r ∷ rs) = (if p r then change r else r) ∷ update_where p change rs

unfoldable pub delete_where : (Row → Bool) → List Row → List Row
delete_where p [] = []
delete_where p (r ∷ rs) = let rest = delete_where p rs in if p r then rest else r ∷ rest

unfoldable pub count_where : (Row → Bool) → List Row → ℕ
count_where p [] = 0
count_where p (r ∷ rs) = (if p r then 1 else 0) + count_where p rs
