-- ===== src/RelayWindow/Examples.antt =====
-- The theorems on internal/relaywindow at a window of Monday that lasts over midnight.
use mossward.Common.{
  ◌&&◌, ◌≡◌, ◌≢◌, ◌↔◌, refl, true, false, some, [], ◌∷◌, codes, arith, is_zero, ok, pos, is_blank,
  byte_length,
}
use mossward.RelayWindow.Window.{
  RelayUploadWindow, endpoint, Zones, validate, check_days, contains_day, open_at, open_window,
}
use mossward.RelayWindow.Week.{covers, open_window-covers}
use mossward.RelayWindow.Gate.{evaluate}
use mossward.RelayWindow.Admission.{passes_drift, is_valid_policy, open_ids, evaluate_lem}

-- One location, where it is always Tuesday, 01:30.
abbrev tuesday_night : Zones
tuesday_night = record {
  load_location = λ name. some 0;
  in_location = λ z t. record { weekday = 2; hour = 1; minute = 30 };
  whole_seconds = λ d. d;
  weekday_range = λ z t. omega arith;
  hour_range = λ z t. omega arith;
  minute_range = λ z t. omega arith;
}

-- From Monday 22:00 to 02:00.
abbrev monday_night : RelayUploadWindow
monday_night = record {
  id = codes "w";
  name = codes "night";
  target_type = endpoint;
  target_id = codes "e";
  timezone = codes "UTC";
  days = pos 1 ∷ [];
  start_minute = pos 1320;
  end_minute = pos 120;
  enabled = true;
  reason = [];
}

opens : open_window tuesday_night monday_night 5 ≡ ok true
unfolding open_window validate check_days contains_day open_at is_blank byte_length
opens = refl

open_window-covers_example : (open_window tuesday_night monday_night 5 ≡ ok true) ↔ (
    (validate tuesday_night monday_night ≡ ok tt)
    × (true ≡ (true && covers (pos 1 ∷ []) 1320 120 2970)))
open_window-covers_example = open_window-covers tuesday_night monday_night 5 true

evaluate_lem_example :
    let decision = evaluate tuesday_night (monday_night ∷ []) 5 6 in
    ((decision.allowed ≡ true) ↔ (
      (is_zero 5 ≡ false)
      × (is_zero 6 ≡ false)
      × (passes_drift 5 6 ≡ true)
      × (is_valid_policy tuesday_night 6 [] (monday_night ∷ []) ≡ true)
      × (open_ids tuesday_night 6 (monday_night ∷ []) ≢ [])))
    × (decision.allowed ≡ true → decision.window_ids ≡ open_ids tuesday_night 6 (monday_night ∷ []))
evaluate_lem_example = evaluate_lem tuesday_night (monday_night ∷ []) 5 6
