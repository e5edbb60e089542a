-- ===== src/RelayWindow/Gate.antt =====
-- internal/relaywindow/gate.go: the decision whether the relay may connect to the server.
use mossward.Common.{
  ◌+◌, ◌-◌, Bool, true, false, ◌||◌, not, Option, some, none, List, [], ◌∷◌, ◌++◌, leb, ◌==◌,
  if◌then◌else◌, Text, text_eq, is_empty, Time, is_zero, Result, ok, err, ◌>>=◌, ◌>>◌, reject_if, ℤ,
  pos, negsuc, ltb_ℤ,
}
use mossward.RelayWindow.Window.{
  RelayUploadWindow, WindowError, settings_invalid, Zones, open_window,
}

pub data Reason : Type 0 where
  invalid_evaluation_time no_enabled_window clock_drift_detected : Reason
  invalid_window_policy approved_window_open outside_approved_window : Reason

pub record GateDecision : Type 0 where
  pub allowed : Bool
  pub reason : Reason
  pub window_ids : List Text
  pub evaluated_at : Time
  pub clock_drift_seconds : ℤ

-- `t.Sub(u)`: the difference in nanoseconds, held to the range of an int64.
unfoldable pub sub : Time → Time → ℤ
sub t u =
    if leb u t
    then pos (if leb 9223372036854775808 (t - u) then 9223372036854775807 else t - u)
    else negsuc (if leb 9223372036854775808 (u - t) then 9223372036854775807 else u - t - 1)

-- absoluteDuration: the negation of the least int64 is the least int64.
unfoldable pub absolute_duration : ℤ → ℤ
absolute_duration (pos n) = pos n
absolute_duration (negsuc n) = if n == 9223372036854775807 then negsuc n else pos (n + 1)

abbrev pub text_in : List Text → Text → Bool
text_in [] id = false
text_in (t ∷ ts) id = text_eq t id || text_in ts id

-- What one window adds in the loop: nothing when it is disabled, else that one is enabled, and its ID
-- when it is open.
abbrev pub note_window : RelayUploadWindow → Bool → Bool × List Text → Bool × List Text
note_window w is_open (enabled, ids) =
    if not w.enabled then (enabled, ids) else (true, if is_open then ids ++ w.id ∷ [] else ids)

-- The loop over the windows, with the map `seen` as a list; `err` is an invalid policy.
unfoldable pub scan_windows :
    Zones
    → Time
    → List Text
    → Bool × List Text
    → List RelayUploadWindow
    → Result WindowError (Bool × List Text)
scan_windows zones now seen found [] = ok found
scan_windows zones now seen found (w ∷ ws) = do
  reject_if (is_empty w.id || text_in seen w.id) settings_invalid
  is_open ← open_window zones w now
  scan_windows zones now (w.id ∷ seen) (note_window w is_open found) ws

-- The decision of this reason with no window, as every refusal but that on the times gives it.
abbrev pub refuse : Reason → Time → ℤ → GateDecision
refuse reason now seconds = record {
  allowed = false;
  reason = reason;
  window_ids = [];
  evaluated_at = now;
  clock_drift_seconds = seconds;
}

abbrev pub conclude : Time → ℤ → Result WindowError (Bool × List Text) → GateDecision
conclude now seconds (err e) = refuse invalid_window_policy now seconds
conclude now seconds (ok (enabled, [])) =
    refuse (if enabled then outside_approved_window else no_enabled_window) now seconds
conclude now seconds (ok (enabled, id ∷ ids)) = record {
  allowed = true;
  reason = approved_window_open;
  window_ids = id ∷ ids;
  evaluated_at = now;
  clock_drift_seconds = seconds;
}

unfoldable pub evaluate : Zones → List RelayUploadWindow → Time → Time → GateDecision
evaluate zones windows agent_now server_now =
    let drift = absolute_duration (sub agent_now server_now) in
    let seconds = zones.whole_seconds drift in
    if is_zero agent_now || is_zero server_now
    then refuse invalid_evaluation_time 0 (pos 0)
    else if ltb_ℤ (pos 300_000_000_000) drift
    then refuse clock_drift_detected server_now seconds
    else conclude server_now seconds (scan_windows zones server_now [] (false, []) windows)

pub data ConnectError : Type 0 where
  connector_required window_closed context_done connector_failed : ConnectError

-- Connect with a connector that is not nil: the decision, the error, and whether the connector was
-- called. `connects` is what the connector answers.
pub record Connection : Type 0 where
  pub decision : GateDecision
  pub failure : Option ConnectError
  pub called : Bool

unfoldable pub connect : Zones → List RelayUploadWindow → Time → Time → Bool → Bool → Connection
connect zones windows agent_now server_now is_done connects =
    let decision = evaluate zones windows agent_now server_now in
    if not decision.allowed
    then record { decision = decision; failure = some window_closed; called = false }
    else if is_done
    then record { decision = decision; failure = some context_done; called = false }
    else record {
      decision = decision;
      failure = if connects then none else some connector_failed;
      called = true;
    }
