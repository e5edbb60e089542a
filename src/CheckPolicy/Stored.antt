-- ===== src/CheckPolicy/Stored.antt =====
-- internal/store/check_policy.go: the row of the policy. encoding/json on a list of texts is the
-- record `Json`; the time is kept as the instant that its text names.
use mossward.Common.{
  ℕ, ◌≡◌, Bool, true, false, Option, some, List, ◌==◌, Text, codes, Time, Result, ok, err, not,
  ◌>>=◌, ◌>>◌, reject_if,
}
use mossward.CheckPolicy.Policy.{
  Policy, PolicyError, encode_failed, decode_failed, database, or_policy_error, validate,
}

-- What json.Marshal writes, json.Unmarshal reads back.
pub record Json : Type 0 where
  pub marshal : List Text → Option Text
  pub unmarshal : Text → Option (List Text)
  pub unmarshal-marshal : (xs : List Text) (t : Text) → marshal xs ≡ some t → unmarshal t ≡ some xs

pub record Stored : Type 0 where
  pub enabled : ℕ
  pub allowed_check_ids_json : Text
  pub updated_at : Time

abbrev pub database_bool : Bool → ℕ
database_bool true = 1
database_bool false = 0

-- The row after the migration at `now`.
abbrev pub initial : Time → Stored
initial now = record { enabled = 0; allowed_check_ids_json = codes "[]"; updated_at = now }

-- An error leaves the row as it is.
abbrev pub after_update :
    Stored → Result PolicyError Stored → Stored × Result PolicyError (Unit {0})
after_update s (ok row) = (row, ok tt)
after_update s (err e) = (s, err e)

module _ (json : Json) where
  -- The columns that the update writes.
  abbrev pub policy_row : Policy → Text → Stored
  policy_row policy encoded = record {
    enabled = database_bool policy.enabled;
    allowed_check_ids_json = encoded;
    updated_at = policy.updated_at;
  }

  -- The row that the update writes; `succeeds` says whether the database carries it out.
  unfoldable pub saved_row : Policy → Bool → Result PolicyError Stored
  saved_row policy succeeds = do
    validate policy
    encoded ← or_policy_error (json.marshal policy.allowed_check_ids) encode_failed
    reject_if (not succeeds) database
    ok (policy_row policy encoded)

  unfoldable pub save_intrusive_check_policy :
      Policy → Bool → Stored → Stored × Result PolicyError (Unit {0})
  save_intrusive_check_policy policy succeeds s = after_update s (saved_row policy succeeds)

  -- `reads` says whether the database answers the query.
  unfoldable pub intrusive_check_policy : Bool → Stored → Result PolicyError Policy
  intrusive_check_policy reads s = do
    reject_if (not reads) database
    ids ← or_policy_error (json.unmarshal s.allowed_check_ids_json) decode_failed
    ok (record { enabled = s.enabled == 1; allowed_check_ids = ids; updated_at = s.updated_at })
