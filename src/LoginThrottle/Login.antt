-- ===== src/LoginThrottle/Login.antt =====
-- internal/auth/service.go: AuthenticateLocal around the throttle. What the password, the policy and the
-- second factor say, and whether a session is made, is the record `Login`.
use mossward.Common.{
  Bool, true, false, ◌&&◌, not, Option, none, some, List, [], ◌∷◌, if◌then◌else◌, Text, Time,
  Result, ok, err,
}
use mossward.LoginThrottle.Attempts.{
  AttemptRow, AttemptError, Calls, login_throttle, record_login_failure, clear_login_failures,
}

pub record Login : Type 0 where
  pub verifies : Bool
  pub policy : Option Bool
  pub second_factor : Bool
  pub creates_session : Bool

pub data LoginError : Type 0 where
  rate_limited bad_password bad_second_factor no_policy no_session : LoginError
  throttle_error : AttemptError → LoginError

-- loginBlocked
abbrev pub or_blocked :
    Result AttemptError (Time × Bool) → Result AttemptError Bool → Result AttemptError Bool
or_blocked (err e) rest = err e
or_blocked (ok (until, blocked)) rest = if blocked then ok true else rest

unfoldable pub login_blocked : Calls → List AttemptRow → List Text → Time → Result AttemptError Bool
login_blocked calls rows [] now = ok false
login_blocked calls rows (k ∷ ks) now =
    let rest = login_blocked calls rows ks now in or_blocked (login_throttle calls rows k now) rest

-- recordLoginFailure, with 15 minutes of a window, 5 failures, and blocks of a minute to 15 minutes; its
-- errors are logged.
unfoldable pub record_failures : Calls → List AttemptRow → List Text → Time → List AttemptRow
record_failures calls rows [] now = rows
record_failures calls rows (k ∷ ks) now =
    record_failures calls
      (record_login_failure calls rows k now 900_000_000_000 5 60_000_000_000 900_000_000_000).0 ks
      now

abbrev pub after_clear :
    Login
    → List AttemptRow × Result AttemptError (Unit {0})
    → List AttemptRow × Result LoginError (Unit {0})
after_clear login (rows, err e) = (rows, err (throttle_error e))
after_clear login (rows, ok u) = (rows, (if login.creates_session then ok tt else err no_session))

abbrev pub finish_login :
    Calls → List AttemptRow → List Text → Login → List AttemptRow × Result LoginError (Unit {0})
finish_login calls rows keys login = after_clear login (clear_login_failures calls rows keys)

abbrev pub check_factor :
    Calls
    → List AttemptRow
    → List Text
    → Time
    → Login
    → Option Bool
    → List AttemptRow × Result LoginError (Unit {0})
check_factor calls rows keys now login none = (rows, err no_policy)
check_factor calls rows keys now login (some required) =
    if required && not login.second_factor
    then (record_failures calls rows keys now, err bad_second_factor)
    else finish_login calls rows keys login

abbrev pub check_login :
    Calls
    → List AttemptRow
    → List Text
    → Time
    → Login
    → Result AttemptError Bool
    → List AttemptRow × Result LoginError (Unit {0})
check_login calls rows keys now login (err e) = (rows, err (throttle_error e))
check_login calls rows keys now login (ok true) = (rows, err rate_limited)
check_login calls rows keys now login (ok false) =
    if not login.verifies
    then (record_failures calls rows keys now, err bad_password)
    else check_factor calls rows keys now login login.policy

-- AuthenticateLocal with the keys of loginThrottleKeys.
unfoldable pub authenticate_local :
    Calls
    → List AttemptRow
    → List Text
    → Time
    → Login
    → List AttemptRow × Result LoginError (Unit {0})
unfolding login_blocked record_failures clear_login_failures
authenticate_local calls rows keys now login =
    check_login calls rows keys now login (login_blocked calls rows keys now)
