-- ===== src/LoginThrottle/Attempts.antt =====
-- internal/store/identity.go: the table login_attempts, with its primary key `key_hash`. A text of a time
-- is its instant, and `until` is kept in blocked_until.
use mossward.Common.{
  ℕ, ◌+◌, ◌-◌, ◌*◌, Bool, false, not, Option, none, some, List, [], ◌∷◌, ltb, leb, if◌then◌else◌,
  Text, text_eq, Time, zero_time, Result, ok, err, ◌>>=◌, ◌>>◌, reject_if, ℤ, pos, pos_part,
  neg_part, int64, ltb_ℤ,
}

pub record AttemptRow : Type 0 where
  pub key_hash : Text
  pub failures : ℕ
  pub window_started_at : Time
  pub blocked_until : Option Time

pub data AttemptError : Type 0 where
  bad_time database : AttemptError

pub data AttemptCall : Type 0 where
  query parse begin insert commit delete : AttemptCall

abbrev pub Calls : Type 0
Calls = AttemptCall → Bool

unfoldable pub find_attempt : Text → List AttemptRow → Option AttemptRow
find_attempt key [] = none
find_attempt key (r ∷ rs) = if text_eq r.key_hash key then some r else find_attempt key rs

-- `INSERT ... ON CONFLICT(key_hash) DO UPDATE`
unfoldable pub put_attempt : AttemptRow → List AttemptRow → List AttemptRow
put_attempt n [] = n ∷ []
put_attempt n (r ∷ rs) =
    let rest = put_attempt n rs in if text_eq r.key_hash n.key_hash then n ∷ rs else r ∷ rest

unfoldable pub delete_attempt : Text → List AttemptRow → List AttemptRow
delete_attempt key [] = []
delete_attempt key (r ∷ rs) =
    let rest = delete_attempt key rs in if text_eq r.key_hash key then rest else r ∷ rest

abbrev pub blocked_of : Option AttemptRow → Option Time
blocked_of none = none
blocked_of (some r) = r.blocked_until

abbrev pub throttle_of : Calls → Option Time → Time → Result AttemptError (Time × Bool)
throttle_of calls none now = ok (zero_time, false)
throttle_of calls (some until) now = do
  reject_if (not (calls parse)) bad_time
  ok (until, ltb now until)

-- LoginThrottle: a query that fails leaves `blocked` invalid, which is asked first.
unfoldable pub login_throttle :
    Calls → List AttemptRow → Text → Time → Result AttemptError (Time × Bool)
unfolding find_attempt
login_throttle calls rows key now =
    if calls query
    then throttle_of calls (blocked_of (find_attempt key rows)) now
    else ok (zero_time, false)

-- The failures and the start of their window, with this failure.
abbrev pub next_window : Calls → Option AttemptRow → Time → ℕ → Result AttemptError (Time × ℕ)
next_window calls none now window = ok (now, 1)
next_window calls (some r) now window = do
  reject_if (not (calls parse)) bad_time
  ok (
      if ltb (r.window_started_at + window) now
      then (now, 1)
      else (r.window_started_at, r.failures + 1))

-- `now.Add(d)`
abbrev pub add_duration : Time → ℤ → Time
add_duration now d = now + pos_part d - neg_part d

abbrev pub at_most : ℤ → ℤ → ℤ
at_most max d = if ltb_ℤ max d then max else d

abbrev pub block_end : Time → ℕ → ℕ → ℕ → ℕ → Option Time
block_end now failures threshold base max =
    if leb threshold failures
    then some (add_duration now (at_most (pos max) (int64 ((failures - threshold + 1) * base))))
    else none

abbrev pub or_zero : Option Time → Time
or_zero none = zero_time
or_zero (some t) = t

unfoldable pub failure_rows :
    Calls
    → List AttemptRow
    → Text
    → Time
    → ℕ
    → ℕ
    → ℕ
    → ℕ
    → Result AttemptError (Time × List AttemptRow)
failure_rows calls rows key now window threshold base max = do
  reject_if (not (calls begin)) database
  reject_if (not (calls query)) database
  (started, failures) ← next_window calls (find_attempt key rows) now window
  reject_if (not (calls insert)) database
  reject_if (not (calls commit)) database
  ok (
    or_zero (block_end now failures threshold base max),
    put_attempt
        (record {
          key_hash = key;
          failures = failures;
          window_started_at = started;
          blocked_until = block_end now failures threshold base max;
        })
        rows,
  )

abbrev pub settle :
    List AttemptRow
    → Result AttemptError (Time × List AttemptRow)
    → List AttemptRow × Result AttemptError Time
settle rows (ok (t, rows')) = (rows', ok t)
settle rows (err e) = (rows, err e)

-- RecordLoginFailure
unfoldable pub record_login_failure :
    Calls
    → List AttemptRow
    → Text
    → Time
    → ℕ
    → ℕ
    → ℕ
    → ℕ
    → List AttemptRow × Result AttemptError Time
unfolding failure_rows
record_login_failure calls rows key now window threshold base max =
    settle rows (failure_rows calls rows key now window threshold base max)

-- ClearLoginFailures
unfoldable pub clear_login_failures :
    Calls → List AttemptRow → List Text → List AttemptRow × Result AttemptError (Unit {0})
clear_login_failures calls rows [] = (rows, ok tt)
clear_login_failures calls rows (k ∷ ks) =
    let rest = clear_login_failures calls (delete_attempt k rows) ks in
    if calls delete then rest else (rows, err database)
