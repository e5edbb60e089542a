-- ===== src/WorkerClient/Outbox/Defs.antt =====
-- internal/workerclient/outbox.go: messages, the table outbox_messages in the order of its rowids,
-- and the operations. `db` says which calls of the database succeed. AES-GCM, encoding/json and the
-- time format are the record `Sealing`; the nonce is an argument, `none` when crypto/rand fails.
use mossward.Common.{
  ℕ, zero, suc, ◌+◌, ◌≡◌, Bool, true, false, ◌||◌, not, Option, some, none, List, [], ◌∷◌, ◌++◌,
  ltb, ◌==◌, if◌then◌else◌, length, Text, text_eq, is_blank, byte_length, Result, ok, err, ◌>>=◌,
  ◌>>◌, reject_if, Time, is_zero, ℤ, pos, ltb_ℤ, leb_ℤ, int64,
}

pub data OutboxKind : Type 0 where
  evidence completion : OutboxKind
  other : Text → OutboxKind

pub record OutboxLimits : Type 0 where
  pub max_items : ℤ
  pub max_bytes : ℤ

pub record OutboxMessage : Type 0 where
  pub id : Text
  pub kind : OutboxKind
  pub payload : List ℕ
  pub created_at : Time

pub record OutboxStats : Type 0 where
  pub items : ℕ
  pub bytes : ℕ

pub record Row : Type 0 where
  pub id : Text
  pub kind : OutboxKind
  pub ciphertext : List ℕ
  pub nonce : List ℕ
  pub plaintext_size : ℕ
  pub created_at : Text

pub record Outbox : Type 0 where
  pub limits : OutboxLimits
  pub rows : List Row

pub data OutboxError : Type 0 where
  full duplicate empty limits_invalid message_invalid kind_invalid : OutboxError
  no_nonce encode_failed bad_timestamp integrity_failed database bad_forwarding : OutboxError
  cancelled send_failed : OutboxError

-- What the outbox uses of the standard library: what is sealed under a nonce and additional data
-- opens under the same, and a formatted time is read back. `aad` is the encoding of the identity.
pub record Sealing : Type 0 where
  pub seal : List ℕ → List ℕ → List ℕ → List ℕ
  pub open_sealed : List ℕ → List ℕ → List ℕ → Option (List ℕ)
  pub format_time : Time → Text
  pub parse_time : Text → Option Time
  pub aad : Text → OutboxKind → Text → Option (List ℕ)
  pub open-seal :
      (nonce payload ad : List ℕ) → open_sealed nonce (seal nonce payload ad) ad ≡ some payload
  pub parse-format : (t : Time) → parse_time (format_time t) ≡ some t

pub data DbCall : Type 0 where
  begin query_existing query_capacity insert select delete rows_affected commit : DbCall

abbrev pub Db : Type 0
Db = DbCall → Bool

abbrev pub call : Db → DbCall → Result OutboxError (Unit {0})
call db c = reject_if (not (db c)) database

abbrev pub or_fail {ℓ} : {A : Type ℓ} → Option A → OutboxError → Result OutboxError A
or_fail none e = err e
or_fail (some a) e = ok a

abbrev pub settle : Outbox → Result OutboxError (List Row) → Outbox × Result OutboxError (Unit {0})
settle o (ok rows) = (record o { rows = rows }, ok tt)
settle o (err e) = (o, err e)

-- The limits that OpenOutbox accepts, and the outbox on a path that holds no table yet.
unfoldable pub open_outbox : OutboxLimits → Result OutboxError Outbox
open_outbox l = do
  reject_if (ltb_ℤ l.max_items (pos 1) || ltb_ℤ l.max_bytes (pos 1)) limits_invalid
  ok (record { limits = l; rows = [] })

abbrev pub known_kind : OutboxKind → Bool
known_kind evidence = true
known_kind completion = true
known_kind (other k) = false

unfoldable pub validate_outbox_message :
    OutboxMessage → OutboxLimits → Result OutboxError (Unit {0})
validate_outbox_message m l = do
  reject_if
      (is_blank m.id
        || ltb 200 (byte_length m.id)
        || length m.payload == 0
        || ltb_ℤ l.max_bytes (pos (length m.payload))
        || is_zero m.created_at)
      message_invalid
  reject_if (not (known_kind m.kind)) kind_invalid

unfoldable pub outbox_aad : Sealing → Text → OutboxKind → Time → Result OutboxError (List ℕ)
outbox_aad s id kind t = or_fail (s.aad id kind (s.format_time t)) encode_failed

-- `SELECT id ... WHERE id=?`
unfoldable pub exists : Text → List Row → Bool
exists id [] = false
exists id (r ∷ rs) = text_eq r.id id || exists id rs

-- `COALESCE(SUM(plaintext_size),0)`
unfoldable pub total_size : List Row → ℕ
total_size [] = 0
total_size (r ∷ rs) = r.plaintext_size + total_size rs

unfoldable pub new_row : Sealing → OutboxMessage → List ℕ → List ℕ → Row
new_row s m nonce ad = record {
  id = m.id;
  kind = m.kind;
  ciphertext = s.seal nonce m.payload ad;
  nonce = nonce;
  plaintext_size = length m.payload;
  created_at = s.format_time m.created_at;
}

unfoldable pub no_room : OutboxLimits → List Row → ℕ → Bool
no_room l rows size =
    leb_ℤ l.max_items (pos (length rows)) || ltb_ℤ l.max_bytes (int64 (total_size rows + size))

-- The two CHECKs of the table hold for every message that passed validation.
unfoldable pub enqueue_rows :
    Sealing → Db → Outbox → Option (List ℕ) → OutboxMessage → Result OutboxError (List Row)
enqueue_rows s db o random m = do
  validate_outbox_message m o.limits
  nonce ← or_fail random no_nonce
  ad ← outbox_aad s m.id m.kind m.created_at
  call db begin
  call db query_existing
  reject_if (exists m.id o.rows) duplicate
  call db query_capacity
  reject_if (no_room o.limits o.rows (length m.payload)) full
  call db insert
  call db commit
  ok (o.rows ++ new_row s m nonce ad ∷ [])

unfoldable pub enqueue :
    Sealing → Db → Outbox → Option (List ℕ) → OutboxMessage → Outbox × Result OutboxError (Unit {0})
enqueue s db o random m = settle o (enqueue_rows s db o random m)

-- What Peek makes of a row.
unfoldable pub open_row : Sealing → Row → Result OutboxError OutboxMessage
unfolding outbox_aad
open_row s r = do
  t ← or_fail (s.parse_time r.created_at) bad_timestamp
  ad ← outbox_aad s r.id r.kind t
  payload ← or_fail (s.open_sealed r.nonce r.ciphertext ad) integrity_failed
  ok (record { id = r.id; kind = r.kind; payload = payload; created_at = t })

-- `ORDER BY rowid LIMIT 1`
abbrev pub first : List Row → Option Row
first [] = none
first (r ∷ rs) = some r

unfoldable pub peek : Sealing → Db → Outbox → Result OutboxError OutboxMessage
peek s db o = do call db select; r ← or_fail (first o.rows) empty; open_row s r

unfoldable pub delete_id : Text → List Row → List Row
delete_id id [] = []
delete_id id (r ∷ rs) = let rest = delete_id id rs in if text_eq r.id id then rest else r ∷ rest

unfoldable pub count_id : Text → List Row → ℕ
count_id id [] = 0
count_id id (r ∷ rs) = (if text_eq r.id id then 1 else 0) + count_id id rs

unfoldable pub acknowledge : Db → Outbox → Text → Outbox × Result OutboxError (Unit {0})
acknowledge db o id = if not (db delete) then (o, err database) else (
  record o { rows = delete_id id o.rows },
  do call db rows_affected; reject_if (not (count_id id o.rows == 1)) empty,
)

unfoldable pub stats : Db → Outbox → Result OutboxError OutboxStats
stats db o = do call db select; ok (record { items = length o.rows; bytes = total_size o.rows })

-- What the loop of ForwardPending meets in round `n`: the context, the database and the sender.
pub record Round : Type 0 where
  pub is_cancelled : Bool
  pub db : Db
  pub delivers : OutboxMessage → Bool

-- The count of messages forwarded, and the error that ended the loop, if one did.
abbrev pub Forwarded : Type 0
Forwarded = Outbox × ℕ × Option OutboxError

abbrev pub is_empty_error : OutboxError → Bool
is_empty_error empty = true
is_empty_error _ = false

-- What a round leaves: the loop goes on, or it returns.
pub data Outcome : Type 0 where
  goes_on : Outbox → Outcome
  returns : Outbox → Option OutboxError → Outcome

abbrev pub after_acknowledge : Outbox × Result OutboxError (Unit {0}) → Outcome
after_acknowledge (o, ok u) = goes_on o
after_acknowledge (o, err e) = returns o (some e)

abbrev pub after_peek : Round → Outbox → Result OutboxError OutboxMessage → Outcome
after_peek round o (err e) = returns o (if is_empty_error e then none else some e)
after_peek round o (ok m) =
    if round.delivers m
    then after_acknowledge (acknowledge round.db o m.id)
    else returns o (some send_failed)

unfoldable pub forward_one : Sealing → Round → Outbox → Outcome
forward_one s round o =
    if round.is_cancelled
    then returns o (some cancelled)
    else after_peek round o (peek s round.db o)

-- The loop, with `n` rounds left; `rounds` gives what each round meets.
unfoldable pub forward_loop : Sealing → (ℕ → Round) → ℕ → ℕ → Outbox → Forwarded
forward_loop s rounds zero forwarded o = (o, forwarded, none)
forward_loop s rounds (suc n) forwarded o = elim (forward_one s (rounds forwarded) o) [
  | goes_on o' ↦ forward_loop s rounds n (forwarded + 1) o'
  | returns o' e ↦ (o', forwarded, e)
]

-- ForwardPending, for a maximum that is not negative and a sender that is not nil.
unfoldable pub forward_pending : Sealing → (ℕ → Round) → ℕ → Outbox → Forwarded
forward_pending s rounds zero o = (o, 0, some bad_forwarding)
forward_pending s rounds (suc n) o = forward_loop s rounds (suc n) 0 o
