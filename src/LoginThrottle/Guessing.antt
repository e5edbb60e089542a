-- ===== src/LoginThrottle/Guessing.antt =====
-- Logins with a wrong password, as AuthenticateLocal counts them for the account and for the source.
use mossward.Common.{
  ℕ, suc, ◌+◌, ◌≤◌, ◌<◌, ◌≡◌, refl, ◌∙◌, ap, true, false, none, some, List, [], ◌∷◌, arith, length,
  Text, text_eq, text_eq_iff, Time, ok, err, All, inl, inr, Result-cases,
}
use mossward.LoginThrottle.Attempts.{
  AttemptRow, AttemptCall, Calls, find_attempt, put_attempt, login_throttle, record_login_failure,
  failure_rows, next_window, blocked_of, block_end,
}
use mossward.LoginThrottle.Login.{
  Login, rate_limited, login_blocked, record_failures, authenticate_local,
}
use mossward.LoginThrottle.Progression.{row_of, last_of, first_failure, next_failure}
use mossward.LoginThrottle.Refusal.{blocked_first}

find_attempt-put_other :
    (k : Text) (n : AttemptRow) (rs : List AttemptRow)
    → text_eq n.key_hash k ≡ false
    → find_attempt k (put_attempt n rs) ≡ find_attempt k rs
unfolding find_attempt put_attempt
find_attempt-put_other k n [] h = ground (arith, h)
find_attempt-put_other k n (r ∷ rs) h = ground (
  arith,
  h,
  find_attempt-put_other k n rs h,
  text_eq_iff r.key_hash n.key_hash,
  text_eq_iff r.key_hash k,
  text_eq_iff n.key_hash k,
)

-- The row that a failure writes is of its own key.
failure_rows-put :
    (calls : Calls) (key : Text) (t x : Time) (rows qs : List AttemptRow)
    → failure_rows calls rows key t 900_000_000_000 5 60_000_000_000 900_000_000_000 ≡ ok (x, qs)
    → (n : AttemptRow) × (n.key_hash ≡ key) × (qs ≡ put_attempt n rows)
unfolding failure_rows
failure_rows-put calls key t x rows qs e =
    elim (Result-cases (next_window calls (find_attempt key rows) t 900_000_000_000)) [
      | inr (w, f) ↦ absurd (ground (arith, e, f))
      | inl ((started, failures), f) ↦ (
        record {
          key_hash = key;
          failures = failures;
          window_started_at = started;
          blocked_until = block_end t failures 5 60_000_000_000 900_000_000_000;
        },
        refl,
        ground (arith, e, f),
      )
    ]

-- A failure of one key leaves the row of another.
other_failure :
    (calls : Calls) (key k : Text) (t : Time) (rows : List AttemptRow)
    → text_eq key k ≡ false
    → find_attempt k
        (record_login_failure calls rows key t 900_000_000_000 5 60_000_000_000 900_000_000_000).0
      ≡ find_attempt k rows
unfolding record_login_failure
other_failure calls key k t rows h =
    elim (Result-cases
      (failure_rows calls rows key t 900_000_000_000 5 60_000_000_000 900_000_000_000)) [
        | inr (w, e) ↦ rw e refl
        | inl ((x, qs), e) ↦
            let (n, same, put) = failure_rows-put calls key t x rows qs e in
            rw (e, put) (find_attempt-put_other k n rows (rw same h))
      ]

-- The rows after logins with a wrong password at the given instants.
pub guess_at : Calls → List Text → Login → List Time → List AttemptRow → List AttemptRow
guess_at calls keys wrong [] rows = rows
guess_at calls keys wrong (t ∷ ts) rows =
    guess_at calls keys wrong ts (authenticate_local calls rows keys t wrong).0

module _ (calls : Calls) (account source : Text) (fine : (c : AttemptCall) → calls c ≡ true)
    (apart : text_eq account source ≡ false) where
  -- Both keys have failed `n` times since `started`, the last time at `last`.
  Counted : ℕ → Time → Time → List AttemptRow → Type 0
  Counted n started last rows =
      (find_attempt account rows ≡ some (row_of account n started last))
      × (find_attempt source rows ≡ some (row_of source n started last))

  apart_back : text_eq source account ≡ false
  apart_back = ground (arith, apart, text_eq_iff source account, text_eq_iff account source)

  not_blocked :
      (rows : List AttemptRow) (now : Time)
      → blocked_of (find_attempt account rows) ≡ none
      → blocked_of (find_attempt source rows) ≡ none
      → login_blocked calls rows (account ∷ source ∷ []) now ≡ ok false
  unfolding login_blocked login_throttle
  not_blocked rows now a s = ground (arith, a, s, fine AttemptCall.query)

  recorded : List AttemptRow → Time → List AttemptRow
  recorded rows t = record_failures calls rows (account ∷ source ∷ []) t

  wrong_guess :
      (rows : List AttemptRow) (t : Time) (wrong : Login)
      → wrong.verifies ≡ false
      → login_blocked calls rows (account ∷ source ∷ []) t ≡ ok false
      → (authenticate_local calls rows (account ∷ source ∷ []) t wrong).0 ≡ recorded rows t
  unfolding authenticate_local recorded
  wrong_guess rows t wrong w b = ground (arith, w, b)

  recorded_first :
      (rows : List AttemptRow) (t : Time)
      → find_attempt account rows ≡ none
      → find_attempt source rows ≡ none
      → Counted 1 t t (recorded rows t)
  unfolding recorded record_failures Counted
  recorded_first rows t a s = (
    other_failure calls source account t _ apart_back ∙ first_failure calls account t rows fine a,
    first_failure calls source t _ fine (other_failure calls account source t rows apart ∙ s),
  )

  recorded_next :
      (n : ℕ) (started last t : Time) (rows : List AttemptRow)
      → t ≤ started + 900_000_000_000
      → Counted n started last rows
      → Counted (n + 1) started t (recorded rows t)
  unfolding recorded record_failures Counted
  recorded_next n started last t rows h (a, s) = (
    other_failure calls source account t _ apart_back
        ∙ next_failure calls account n started last t rows fine h a,
    next_failure calls source n started last t _ fine h
        (other_failure calls account source t rows apart ∙ s),
  )

  -- Less than five failures do not block.
  open_while_few :
      (n : ℕ) (started last : Time) (rows : List AttemptRow) (now : Time)
      → n ≤ 4
      → Counted n started last rows
      → login_blocked calls rows (account ∷ source ∷ []) now ≡ ok false
  unfolding Counted
  open_while_few n started last rows now h (a, s) =
      not_blocked rows now (rw a (ground (arith, h))) (rw s (ground (arith, h)))

  later_guesses :
      (wrong : Login) (n : ℕ) (started last : Time) (ts : List Time) (rows : List AttemptRow)
      → wrong.verifies ≡ false
      → n + length ts ≤ 5
      → All (λ t. t ≤ started + 900_000_000_000) ts
      → Counted n started last rows
      → Counted
          (n + length ts)
          started
          (last_of last ts)
          (guess_at calls (account ∷ source ∷ []) wrong ts rows)
  unfolding guess_at
  later_guesses wrong n started last [] rows w m h c = let k : n + 0 ≡ n = omega arith in rw k c
  later_guesses wrong n started last (t ∷ ts) rows w m (h, hs) c =
      let k : n + suc (length ts) ≡ n + 1 + length ts = omega arith in
      let b = open_while_few n started last rows t (omega (arith, m)) c in
      rw (k, wrong_guess rows t wrong w b)
        (later_guesses wrong (n + 1) started t ts (recorded rows t) w (omega (arith, m)) hs
          (recorded_next n started last t rows h c))

  blocked_at :
      (started last now : Time) (rows : List AttemptRow)
      → now < last + 60_000_000_000
      → find_attempt account rows ≡ some (row_of account 5 started last)
      → login_throttle calls rows account now ≡ ok (last + 60_000_000_000, true)
  unfolding login_throttle
  blocked_at started last now rows h a =
      ground (arith, a, h, fine AttemptCall.query, fine AttemptCall.parse)

  -- Where neither the account nor the source of a login has failed yet and no call of the database
  -- fails, five logins with a wrong password within 15 minutes of the first make AuthenticateLocal
  -- refuse the next login for a minute from the fifth, whatever its password, and leave the attempts
  -- as they are.
  pub guess_at-refused :
      (wrong login : Login) (t : Time) (ts : List Time) (rows : List AttemptRow) (now : Time)
      → wrong.verifies ≡ false
      → find_attempt account rows ≡ none
      → find_attempt source rows ≡ none
      → length ts ≡ 4
      → All (λ u. u ≤ t + 900_000_000_000) ts
      → now < last_of t ts + 60_000_000_000
      → let after = guess_at calls (account ∷ source ∷ []) wrong (t ∷ ts) rows in
        authenticate_local calls after (account ∷ source ∷ []) now login ≡ (after, err rate_limited)
  unfolding guess_at Counted
  guess_at-refused wrong login t ts rows now w a s four hs h =
      let b = not_blocked rows t (rw a refl) (rw s refl) in
      let g = wrong_guess rows t wrong w b in
      let c =
        later_guesses wrong 1 t t ts (recorded rows t) w (omega (arith, four)) hs
          (recorded_first rows t a s) in
      let five : 1 + length ts ≡ 5 = omega (arith, four) in
      rw g (
        blocked_first calls _ account (source ∷ []) now (last_of t ts + 60_000_000_000) login (
          blocked_at t (last_of t ts) now _ h
            (c.0 ∙ ap (λ n. some (row_of account n t (last_of t ts))) five)))
