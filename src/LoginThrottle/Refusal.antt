-- ===== src/LoginThrottle/Refusal.antt =====
-- What a block means for a login.
use mossward.Common.{
  ◌+◌, ◌≤◌, ◌<◌, ◌≡◌, refl, Bool, some, ◌∙◌, ap, true, false, none, List, [], ◌∷◌, arith, length,
  Text, Time, Result, ok, err, All, lt→ltb, le→leb,
}
use mossward.LoginThrottle.Attempts.{
  AttemptRow, AttemptError, AttemptCall, Calls, find_attempt, login_throttle, delete_attempt,
  clear_login_failures,
}
use mossward.LoginThrottle.Login.{
  Login, rate_limited, login_blocked, authenticate_local, after_clear,
}
use mossward.LoginThrottle.Progression.{fail_at, last_of, block_of, login_throttle-fail_at}

pub blocked_first :
    (calls : Calls) (rows : List AttemptRow) (key : Text) (keys : List Text) (now until : Time)
    (login : Login)
    → login_throttle calls rows key now ≡ ok (until, true)
    → authenticate_local calls rows (key ∷ keys) now login ≡ (rows, err rate_limited)
unfolding authenticate_local login_blocked
blocked_first calls rows key keys now until login e = ground (arith, e)

-- An account that had no failures and then failed five times or more, at `t` and at `ts`, none later than 15
-- minutes after `t`, is refused until its block ends, whatever the password, and the refused login changes
-- nothing. No call of the database fails, and the failures are at most 10^8.
pub authenticate_local-refused :
    (calls : Calls) (account : Text) (keys : List Text) (t : Time) (ts : List Time)
    (rows : List AttemptRow) (now : Time) (login : Login)
    → ((c : AttemptCall) → calls c ≡ true)
    → find_attempt account rows ≡ none
    → All (λ u. u ≤ t + 900_000_000_000) ts
    → 5 ≤ length (t ∷ ts)
    → length (t ∷ ts) ≤ 100_000_000
    → now < last_of t ts + block_of (length (t ∷ ts))
    → authenticate_local calls (fail_at calls account (t ∷ ts) rows) (account ∷ keys) now login
      ≡ (fail_at calls account (t ∷ ts) rows, err rate_limited)
authenticate_local-refused calls account keys t ts rows now login fine n hs five l b =
    let (until, e) = login_throttle-fail_at calls account t ts rows now fine n hs l in
    blocked_first calls (fail_at calls account (t ∷ ts) rows) account keys now until login (
      e
      ∙ ap (λ x. ok (until, x))
          (ground (
            arith,
            le→leb 5 (length (t ∷ ts)) five,
            lt→ltb now (last_of t ts + block_of (length (t ∷ ts))) b,
          )))

login_blocked-open :
    (calls : Calls) (rows : List AttemptRow) (keys : List Text) (now : Time)
    → calls AttemptCall.query ≡ false
    → login_blocked calls rows keys now ≡ ok false
unfolding login_blocked login_throttle
login_blocked-open calls rows [] now q = refl
login_blocked-open calls rows (k ∷ ks) now q =
    ground (arith, q, login_blocked-open calls rows ks now q)

clear_login_failures-ok :
    (calls : Calls) (rows : List AttemptRow) (keys : List Text)
    → calls AttemptCall.delete ≡ true
    → (clear_login_failures calls rows keys).1 ≡ ok tt
unfolding clear_login_failures
clear_login_failures-ok calls rows [] d = refl
clear_login_failures-ok calls rows (k ∷ ks) d =
    ground (arith, d, clear_login_failures-ok calls (delete_attempt k rows) ks d)

after_clear-ok :
    (login : Login) (x : List AttemptRow × Result AttemptError (Unit {0}))
    → x.1 ≡ ok tt
    → login.creates_session ≡ true
    → (after_clear login x).1 ≡ ok tt
after_clear-ok login (rows, err e) h c = ground (arith, h)
after_clear-ok login (rows, ok u) h c = ground (arith, c)

-- Where the query of the attempts fails and the deletions succeed, a login with the right password
-- succeeds, whatever was recorded before: its account may be blocked. The policy is read, the second
-- factor is right where the policy requires one, and the session is made.
pub authenticate_local-unthrottled :
    (calls : Calls) (rows : List AttemptRow) (keys : List Text) (now : Time) (login : Login)
    (required : Bool)
    → calls AttemptCall.query ≡ false
    → calls AttemptCall.delete ≡ true
    → login.verifies ≡ true
    → login.policy ≡ some required
    → (required ≡ true → login.second_factor ≡ true)
    → login.creates_session ≡ true
    → (authenticate_local calls rows keys now login).1 ≡ ok tt
unfolding authenticate_local
authenticate_local-unthrottled calls rows keys now login required q d v p f c = ground (
  arith,
  login_blocked-open calls rows keys now q,
  after_clear-ok login (clear_login_failures calls rows keys)
      (clear_login_failures-ok calls rows keys d) c,
  v,
  p,
  f,
)
