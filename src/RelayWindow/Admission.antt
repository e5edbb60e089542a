-- ===== src/RelayWindow/Admission.antt =====
-- internal/relaywindow/gate.go: when the gate lets a connection through.
use mossward.Common.{
  ◌+◌, ◌≡◌, ◌≢◌, ◌↔◌, refl, sym, ◌∙◌, Bool, true, false, ◌||◌, ◌&&◌, not, List, [], ◌∷◌, ◌++◌,
  arith, leb, if◌then◌else◌, Text, is_empty, Time, is_zero, Result, Result-cases, ok, err,
  Bool-cases, inl, inr, ℤ, pos, ltb_ℤ,
}
use mathlib.Core.List.{append_assoc, append-nil}
use mossward.RelayWindow.Window.{RelayUploadWindow, WindowError, Zones, open_window}
use mossward.RelayWindow.Gate.{
  sub, absolute_duration, text_in, scan_windows, conclude, evaluate, connect,
}

-- What Open answers for each window: a policy is valid when the IDs are not empty, no two agree, and
-- every window is valid.
abbrev pub is_valid_answer : Result WindowError Bool → Bool
is_valid_answer (ok b) = true
is_valid_answer (err e) = false

abbrev pub is_open_answer : Result WindowError Bool → Bool
is_open_answer (ok b) = b
is_open_answer (err e) = false

pub is_valid_policy : Zones → Time → List Text → List RelayUploadWindow → Bool
is_valid_policy zones now seen [] = true
is_valid_policy zones now seen (w ∷ ws) =
    not (is_empty w.id)
    && not (text_in seen w.id)
    && is_valid_answer (open_window zones w now)
    && is_valid_policy zones now (w.id ∷ seen) ws

-- The IDs of the open windows, in the order of the policy.
pub open_ids : Zones → Time → List RelayUploadWindow → List Text
open_ids zones now [] = []
open_ids zones now (w ∷ ws) =
    if is_open_answer (open_window zones w now)
    then w.id ∷ open_ids zones now ws
    else open_ids zones now ws

-- A window that is disabled is not open.
open_enabled :
    (zones : Zones) (w : RelayUploadWindow) (now : Time)
    → open_window zones w now ≡ ok true
    → w.enabled ≡ true
unfolding open_window
open_enabled zones w now h = ground arith

abbrev ids_of : Result WindowError (Bool × List Text) → List Text
ids_of (ok (enabled, ids)) = ids
ids_of (err e) = []

abbrev succeeds : Result WindowError (Bool × List Text) → Bool
succeeds (ok x) = true
succeeds (err e) = false

scan_windows_lem :
    (zones : Zones) (now : Time) (seen : List Text) (enabled : Bool) (ids : List Text)
    (ws : List RelayUploadWindow)
    → let out = scan_windows zones now seen (enabled, ids) ws in
      (succeeds out ≡ is_valid_policy zones now seen ws)
      × (is_valid_policy zones now seen ws ≡ true → ids_of out ≡ ids ++ open_ids zones now ws)
unfolding scan_windows is_valid_policy open_ids
scan_windows_lem zones now seen enabled ids [] = (refl, λ _. sym (append-nil ids))
scan_windows_lem zones now seen enabled ids (w ∷ ws) =
    elim (Bool-cases (is_empty w.id || text_in seen w.id)) [
      | inl bad ↦ (ground (arith, bad), λ v. absurd (ground (arith, bad, v)))
      | inr new ↦ elim (Result-cases (open_window zones w now)) [
        | inr (e, bad) ↦ (ground (arith, new, bad), λ v. absurd (ground (arith, new, bad, v)))
        | inl (is_open, good) ↦ elim (Bool-cases w.enabled) [
          | inr off ↦
              let closed : is_open ≡ false = closed_when_off is_open good off in
              let (valid, found) = scan_windows_lem zones now (w.id ∷ seen) enabled ids ws in
              (
                ground (arith, new, good, off, valid),
                λ v. ground (arith, new, good, off, closed, v, found),
              )
          | inl on ↦ elim (Bool-cases is_open) [
            | inr shut ↦
                let (valid, found) = scan_windows_lem zones now (w.id ∷ seen) true ids ws in
                (
                  ground (arith, new, good, on, shut, valid),
                  λ v. ground (arith, new, good, on, shut, v, found),
                )
            | inl opened ↦
                let (valid, found) =
                  scan_windows_lem zones now (w.id ∷ seen) true (ids ++ w.id ∷ []) ws in
                (
                  ground (arith, new, good, on, opened, valid),
                  λ v. ground (
                    arith,
                    new,
                    good,
                    on,
                    opened,
                    v,
                    found,
                    append_assoc ids (w.id ∷ []) (open_ids zones now ws),
                  ),
                )
          ]
        ]
      ]
    ]
  where
    closed_when_off : (b : Bool) → open_window zones w now ≡ ok b → w.enabled ≡ false → b ≡ false
    closed_when_off true e off = absurd (ground (arith, open_enabled zones w now e, off))
    closed_when_off false e off = refl

-- The clocks agree within five minutes; or the agent's is behind by 2^63 nanoseconds or more, where
-- the difference of the clocks is the least int64, which absoluteDuration leaves negative.
pub passes_drift : Time → Time → Bool
passes_drift agent_now server_now =
    (leb agent_now (server_now + 300_000_000_000) && leb server_now (agent_now + 300_000_000_000))
    || leb (agent_now + 9_223_372_036_854_775_808) server_now

drift_lem :
    (agent_now server_now : Time)
    → not (ltb_ℤ (pos 300_000_000_000) (absolute_duration (sub agent_now server_now)))
      ≡ passes_drift agent_now server_now
unfolding passes_drift sub absolute_duration
drift_lem agent_now server_now = ground arith

is_some_id : List Text → Bool
is_some_id [] = false
is_some_id (id ∷ ids) = true

conclude_lem :
    (now : Time) (drift : ℤ) (r : Result WindowError (Bool × List Text))
    → ((conclude now drift r).window_ids ≡ ids_of r)
      × ((conclude now drift r).allowed ≡ (succeeds r && is_some_id (ids_of r)))
unfolding is_some_id
conclude_lem now drift (err e) = (refl, refl)
conclude_lem now drift (ok (enabled, [])) = (refl, refl)
conclude_lem now drift (ok (enabled, id ∷ ids)) = (refl, refl)

is_some_id_iff : (ids : List Text) → (is_some_id ids ≡ true) ↔ (ids ≢ [])
unfolding is_some_id
is_some_id_iff [] = ((λ e. absurd (ground arith)), (λ ne. absurd (ne refl)))
is_some_id_iff (id ∷ ids) = ((λ _. λ e. ground arith), (λ _. refl))

admits : Zones → List RelayUploadWindow → Time → Time → Bool
admits zones windows agent_now server_now =
    not (is_zero agent_now)
    && not (is_zero server_now)
    && passes_drift agent_now server_now
    && is_valid_policy zones server_now [] windows
    && is_some_id (open_ids zones server_now windows)

found_ids :
    (ids opened : List Text) (made valid : Bool)
    → made ≡ valid
    → (valid ≡ true → ids ≡ opened)
    → (made && is_some_id ids) ≡ (valid && is_some_id opened)
found_ids ids opened made true e k = rw (e, k refl)
found_ids ids opened made false e k = rw e

evaluate_value :
    (zones : Zones) (windows : List RelayUploadWindow) (agent_now server_now : Time)
    → let decision = evaluate zones windows agent_now server_now in
      (decision.allowed ≡ admits zones windows agent_now server_now)
      × (decision.allowed ≡ true → decision.window_ids ≡ open_ids zones server_now windows)
unfolding evaluate admits
evaluate_value zones windows agent_now server_now =
    elim (Bool-cases (is_zero agent_now || is_zero server_now)) [
      | inl unset ↦ (ground (arith, unset), λ e. absurd (ground (arith, unset, e)))
      | inr is_set ↦
          elim (Bool-cases
            (ltb_ℤ (pos 300_000_000_000) (absolute_duration (sub agent_now server_now)))) [
              | inl far ↦
                  (ground (arith, is_set, far, drift), λ e. absurd (ground (arith, is_set, far, e)))
              | inr near ↦ (
                ground (arith, is_set, near, drift, shown, found),
                λ e. ground (arith, is_set, near, shown, made, e),
              )
            ]
    ]
  where
    drift :
        not (ltb_ℤ (pos 300_000_000_000) (absolute_duration (sub agent_now server_now)))
        ≡ passes_drift agent_now server_now
    drift = drift_lem agent_now server_now

    out : Result WindowError (Bool × List Text)
    out = scan_windows zones server_now [] (false, []) windows

    shown :
        ((conclude server_now (absolute_duration (sub agent_now server_now)) out).window_ids
          ≡ ids_of out)
        × ((conclude server_now (absolute_duration (sub agent_now server_now)) out).allowed
            ≡ (succeeds out && is_some_id (ids_of out)))
    shown = conclude_lem server_now (absolute_duration (sub agent_now server_now)) out

    valid :
        (succeeds out ≡ is_valid_policy zones server_now [] windows)
        × (is_valid_policy zones server_now [] windows ≡ true
            → ids_of out ≡ open_ids zones server_now windows)
    valid = scan_windows_lem zones server_now [] false [] windows

    found : (succeeds out && is_some_id (ids_of out)) ≡ (
        is_valid_policy zones server_now [] windows
        && is_some_id (open_ids zones server_now windows))
    found =
        found_ids (ids_of out) (open_ids zones server_now windows) (succeeds out)
          (is_valid_policy zones server_now [] windows) valid.0 valid.1

    made : succeeds out ≡ true → ids_of out ≡ open_ids zones server_now windows
    made e = valid.1 (sym valid.0 ∙ e)

-- The gate allows a connection exactly when both times are set, the clocks pass the drift check, the
-- whole policy is valid, and some window is open; then it names the open windows in the order of the
-- policy.
pub evaluate_lem :
    (zones : Zones) (windows : List RelayUploadWindow) (agent_now server_now : Time)
    → let decision = evaluate zones windows agent_now server_now in
      ((decision.allowed ≡ true) ↔ (
        (is_zero agent_now ≡ false)
        × (is_zero server_now ≡ false)
        × (passes_drift agent_now server_now ≡ true)
        × (is_valid_policy zones server_now [] windows ≡ true)
        × (open_ids zones server_now windows ≢ [])))
      × (decision.allowed ≡ true → decision.window_ids ≡ open_ids zones server_now windows)
unfolding admits
evaluate_lem zones windows agent_now server_now =
    let (value, named) = evaluate_value zones windows agent_now server_now in
    let some_open = is_some_id_iff (open_ids zones server_now windows) in
    (
      (
        (λ e. (
          ground (arith, value, e),
          ground (arith, value, e),
          ground (arith, value, e),
          ground (arith, value, e),
          some_open.0 (ground (arith, value, e)),
        )),
        (λ h. ground (arith, value, h, some_open.1 h.4)),
      ),
      named,
    )

-- Connect calls the connector only when the gate allows the connection and the context is not done.
connect-called :
    (zones : Zones) (windows : List RelayUploadWindow) (agent_now server_now : Time)
    (is_done connects : Bool)
    → ((connect zones windows agent_now server_now is_done connects).called ≡ true)
      ↔ (((evaluate zones windows agent_now server_now).allowed ≡ true) × (is_done ≡ false))
unfolding connect
connect-called zones windows agent_now server_now is_done connects =
    ((λ e. (ground (arith, e), ground (arith, e))), (λ h. ground (arith, h)))
