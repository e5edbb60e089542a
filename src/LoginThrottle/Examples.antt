-- ===== src/LoginThrottle/Examples.antt =====
-- Five failures within a minute.
use mossward.Common.{
  ◌+◌, ◌≡◌, refl, some, none, err, true, false, ◌&&◌, List, [], ◌∷◌, arith, ltb, leb, length, Text,
  text_eq, codes, Time, ok,
}
use mossward.LoginThrottle.Attempts.{AttemptCall, Calls, find_attempt, login_throttle}
use mossward.LoginThrottle.Login.{Login, rate_limited, authenticate_local}
use mossward.LoginThrottle.Refusal.{authenticate_local-refused, authenticate_local-unthrottled}
use mossward.LoginThrottle.Guessing.{guess_at, guess_at-refused}
use mossward.LoginThrottle.Progression.{fail_at, block_of, login_throttle-fail_at}

abbrev all_fine : Calls
all_fine c = true

abbrev account : Text
account = codes "account"

abbrev later : List Time
later = 1_000 ∷ 2_000 ∷ 3_000 ∷ 4_000 ∷ []

none_yet : find_attempt account [] ≡ none
unfolding find_attempt
none_yet = refl

login_throttle-fail_at_example :
    (until : Time) × (login_throttle all_fine
        (fail_at all_fine account (0 ∷ later) [])
        account
        30_000_000_000
      ≡ ok (
        until,
        leb 5 (length (0 ∷ later)) && ltb 30_000_000_000 (4_000 + block_of (length (0 ∷ later))),
      ))
login_throttle-fail_at_example =
    login_throttle-fail_at all_fine account 0 later [] 30_000_000_000 (λ c. refl) none_yet
      (omega arith) (omega arith)

abbrev right_password : Login
right_password = record {
  verifies = true;
  policy = some false;
  second_factor = false;
  creates_session = true;
}

authenticate_local-refused_example :
    authenticate_local all_fine
      (fail_at all_fine account (0 ∷ later) [])
      (account ∷ codes "source" ∷ [])
      30_000_000_000
      right_password
    ≡ (fail_at all_fine account (0 ∷ later) [], err rate_limited)
authenticate_local-refused_example =
    authenticate_local-refused all_fine account (codes "source" ∷ []) 0 later [] 30_000_000_000
      right_password (λ c. refl) none_yet (omega arith) (omega arith) (omega arith) (omega arith)

abbrev no_query : Calls
no_query AttemptCall.query = false
no_query _ = true

blocked_account :
    authenticate_local all_fine
      (fail_at all_fine account (0 ∷ later) [])
      (account ∷ [])
      30_000_000_000
      right_password
    ≡ (fail_at all_fine account (0 ∷ later) [], err rate_limited)
blocked_account =
    authenticate_local-refused all_fine account [] 0 later [] 30_000_000_000 right_password
      (λ c. refl) none_yet (omega arith) (omega arith) (omega arith) (omega arith)

authenticate_local-unthrottled_example :
    (authenticate_local no_query
      (fail_at all_fine account (0 ∷ later) [])
      (account ∷ [])
      30_000_000_000
      right_password).1
    ≡ ok tt
authenticate_local-unthrottled_example =
    authenticate_local-unthrottled no_query (fail_at all_fine account (0 ∷ later) []) (account ∷ [])
      30_000_000_000 right_password false refl refl refl refl (λ e. absurd (ground arith)) refl

abbrev wrong_password : Login
wrong_password = record right_password { verifies = false }

source_none : find_attempt (codes "source") [] ≡ none
unfolding find_attempt
source_none = refl

other_key : text_eq account (codes "source") ≡ false
unfolding text_eq
other_key = refl

guess_at-refused_example :
    let after = guess_at all_fine (account ∷ codes "source" ∷ []) wrong_password (0 ∷ later) [] in
    authenticate_local all_fine after (account ∷ codes "source" ∷ []) 30_000_000_000 right_password
    ≡ (after, err rate_limited)
guess_at-refused_example =
    guess_at-refused all_fine account (codes "source") (λ c. refl) other_key wrong_password
      right_password 0 later [] 30_000_000_000 refl none_yet source_none refl (omega arith)
      (omega arith)
