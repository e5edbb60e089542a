-- ===== src/LoginThrottle/Progression.antt =====
-- How the failures of one key add up to a block.
use mossward.Common.{
  ℕ, suc, ◌+◌, ◌-◌, ◌*◌, ◌≤◌, ◌≡◌, refl, ◌∙◌, ap, Bool, true, false, ◌&&◌, none, some, List, [],
  ◌∷◌, arith, ltb, leb, if◌then◌else◌, length, Text, text_eq_refl, Time, zero_time, ok, All,
}
use mossward.LoginThrottle.Attempts.{
  AttemptRow, AttemptCall, Calls, find_attempt, put_attempt, login_throttle, record_login_failure,
  failure_rows, block_end, throttle_of,
}

find_attempt-put_attempt :
    (n : AttemptRow) (rs : List AttemptRow) → find_attempt n.key_hash (put_attempt n rs) ≡ some n
unfolding find_attempt put_attempt
find_attempt-put_attempt n [] = ground (arith, text_eq_refl n.key_hash)
find_attempt-put_attempt n (r ∷ rs) =
    ground (arith, text_eq_refl n.key_hash, find_attempt-put_attempt n rs)

-- The row of a key after `n` failures since `started`, the last at `last`.
abbrev pub row_of : Text → ℕ → Time → Time → AttemptRow
row_of key n started last = record {
  key_hash = key;
  failures = n;
  window_started_at = started;
  blocked_until = block_end last n 5 60_000_000_000 900_000_000_000;
}

-- Failures of a key at the given instants, as recordLoginFailure stores them.
unfoldable pub fail_at : Calls → Text → List Time → List AttemptRow → List AttemptRow
fail_at calls key [] rows = rows
fail_at calls key (t ∷ ts) rows =
    fail_at calls key ts
      (record_login_failure calls rows key t 900_000_000_000 5 60_000_000_000 900_000_000_000).0

pub first_failure :
    (calls : Calls) (key : Text) (t : Time) (rows : List AttemptRow)
    → ((c : AttemptCall) → calls c ≡ true)
    → find_attempt key rows ≡ none
    → find_attempt key
        (record_login_failure calls rows key t 900_000_000_000 5 60_000_000_000 900_000_000_000).0
      ≡ some (row_of key 1 t t)
unfolding record_login_failure failure_rows
first_failure calls key t rows fine n = ground (
  arith,
  n,
  fine AttemptCall.begin,
  fine AttemptCall.query,
  fine AttemptCall.insert,
  fine AttemptCall.commit,
  find_attempt-put_attempt (row_of key 1 t t) rows,
)

pub next_failure :
    (calls : Calls) (key : Text) (n : ℕ) (started last t : Time) (rows : List AttemptRow)
    → ((c : AttemptCall) → calls c ≡ true)
    → t ≤ started + 900_000_000_000
    → find_attempt key rows ≡ some (row_of key n started last)
    → find_attempt key
        (record_login_failure calls rows key t 900_000_000_000 5 60_000_000_000 900_000_000_000).0
      ≡ some (row_of key (n + 1) started t)
unfolding record_login_failure failure_rows
next_failure calls key n started last t rows fine h f =
    let w : ltb (started + 900_000_000_000) t ≡ false = ground (arith, h) in
    ground (
      arith,
      f,
      w,
      fine AttemptCall.begin,
      fine AttemptCall.query,
      fine AttemptCall.parse,
      fine AttemptCall.insert,
      fine AttemptCall.commit,
      find_attempt-put_attempt (row_of key (n + 1) started t) rows,
    )

abbrev pub last_of : Time → List Time → Time
last_of t [] = t
last_of t (u ∷ us) = last_of u us

later_failures :
    (calls : Calls) (key : Text) (n : ℕ) (started last : Time) (ts : List Time)
    (rows : List AttemptRow)
    → ((c : AttemptCall) → calls c ≡ true)
    → All (λ t. t ≤ started + 900_000_000_000) ts
    → find_attempt key rows ≡ some (row_of key n started last)
    → find_attempt key (fail_at calls key ts rows)
      ≡ some (row_of key (n + length ts) started (last_of last ts))
unfolding fail_at
later_failures calls key n started last [] rows fine h f = let k : n + 0 ≡ n = omega arith in rw k f
later_failures calls key n started last (t ∷ ts) rows fine (h, hs) f =
    let k : n + suc (length ts) ≡ n + 1 + length ts = omega arith in
    rw k (
      later_failures calls key (n + 1) started t ts _ fine hs
        (next_failure calls key n started last t rows fine h f))

-- How long the n-th failure of a window blocks: from the fifth on, a minute for each, 15 at most.
abbrev pub block_of : ℕ → ℕ
block_of n = (if leb 19 n then 15 else n - 4) * 60_000_000_000

block_end_lem :
    (n : ℕ) (last : Time)
    → n ≤ 100_000_000
    → block_end last n 5 60_000_000_000 900_000_000_000
      ≡ (if leb 5 n then some (last + block_of n) else none)
block_end_lem n last h = ground arith

throttled :
    (calls : Calls) (b : Bool) (until now : Time)
    → calls AttemptCall.parse ≡ true
    → throttle_of calls (if b then some until else none) now
      ≡ ok ((if b then until else zero_time), b && ltb now until)
throttled calls true until now f = ground (arith, f)
throttled calls false until now f = refl

throttle_found :
    (calls : Calls) (rows : List AttemptRow) (key : Text) (now : Time) (r : AttemptRow)
    → calls AttemptCall.query ≡ true
    → find_attempt key rows ≡ some r
    → login_throttle calls rows key now ≡ throttle_of calls r.blocked_until now
unfolding login_throttle
throttle_found calls rows key now r q f = ground (arith, q, f)

-- A key with no failures yet that fails at `t` and then at `ts`, none of them later than 15 minutes after
-- `t`, is blocked at `now` exactly where it failed five times or more and `now` is before the end of its
-- block, which lasts from the last failure a minute for the fifth failure, one more for each after it, and
-- 15 at most. No call of the database fails, and the failures are at most 10^8.
pub login_throttle-fail_at :
    (calls : Calls) (key : Text) (t : Time) (ts : List Time) (rows : List AttemptRow) (now : Time)
    → ((c : AttemptCall) → calls c ≡ true)
    → find_attempt key rows ≡ none
    → All (λ u. u ≤ t + 900_000_000_000) ts
    → length (t ∷ ts) ≤ 100_000_000
    → (until : Time) × (login_throttle calls (fail_at calls key (t ∷ ts) rows) key now
        ≡ ok
            (until, leb 5 (length (t ∷ ts)) && ltb now (last_of t ts + block_of (length (t ∷ ts)))))
unfolding fail_at
login_throttle-fail_at calls key t ts rows now fine n hs l =
    let f = later_failures calls key 1 t t ts _ fine hs (first_failure calls key t rows fine n) in
    let k : 1 + length ts ≡ suc (length ts) = omega arith in
    let m = suc (length ts) in
    let b = block_end_lem m (last_of t ts) l in
    let e = throttled calls (leb 5 m) (last_of t ts + block_of m) now (fine AttemptCall.parse) in
    (
      (if leb 5 m then last_of t ts + block_of m else zero_time),
      throttle_found calls _ key now _ (fine AttemptCall.query) f
          ∙ ap
              (λ x.
                throttle_of calls (block_end (last_of t ts) x 5 60_000_000_000 900_000_000_000) now)
              k
          ∙ ap (λ x. throttle_of calls x now) b
          ∙ e,
    )
