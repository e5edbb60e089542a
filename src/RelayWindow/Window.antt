-- ===== src/RelayWindow/Window.antt =====
-- internal/relaywindow/window.go, internal/model/relay_window.go: a window, its validation, and
-- whether it is open.
use mossward.Common.{
  ℕ, ◌+◌, ◌-◌, ◌*◌, ◌<◌, Bool, true, false, ◌||◌, ◌&&◌, not, Option, some, none, List, [], ◌∷◌,
  length, ltb, leb, ◌==◌, if◌then◌else◌, Text, is_blank, byte_length, Time, Result, ok, ◌>>◌,
  reject_if, ℤ, pos, pos_part, ltb_ℤ, leb_ℤ, eq_ℤ,
}

pub data MaintenanceTargetType : Type 0 where
  endpoint group : MaintenanceTargetType
  other : Text → MaintenanceTargetType

-- The fields that the package reads; `days` are values of time.Weekday, with Sunday 0.
pub record RelayUploadWindow : Type 0 where
  pub id : Text
  pub name : Text
  pub target_type : MaintenanceTargetType
  pub target_id : Text
  pub timezone : Text
  pub days : List ℤ
  pub start_minute : ℤ
  pub end_minute : ℤ
  pub enabled : Bool
  pub reason : Text

pub data WindowError : Type 0 where
  settings_invalid target_invalid timezone_invalid days_missing days_invalid : WindowError

-- What the package reads of an instant in a location.
pub record LocalTime : Type 0 where
  pub weekday : ℕ
  pub hour : ℕ
  pub minute : ℕ

-- time.LoadLocation, Time.In, and `int64(d.Seconds())`, which rounds in float64. A weekday is below 7, an hour below 24, a minute below 60.
pub record Zones : Type 0 where
  pub load_location : Text → Option ℕ
  pub in_location : ℕ → Time → LocalTime
  pub whole_seconds : ℤ → ℤ
  pub weekday_range : (z : ℕ) (t : Time) → (in_location z t).weekday < 7
  pub hour_range : (z : ℕ) (t : Time) → (in_location z t).hour < 24
  pub minute_range : (z : ℕ) (t : Time) → (in_location z t).minute < 60

abbrev pub known_target : MaintenanceTargetType → Bool
known_target endpoint = true
known_target group = true
known_target (other t) = false

abbrev pub known_location : Option ℕ → Bool
known_location none = false
known_location (some z) = true

-- The loop over the days, with the map `seen` as the list of days before.
unfoldable pub contains_day : List ℤ → ℤ → Bool
contains_day [] wanted = false
contains_day (d ∷ ds) wanted = eq_ℤ d wanted || contains_day ds wanted

unfoldable pub check_days : List ℤ → List ℤ → Result WindowError (Unit {0})
check_days seen [] = ok tt
check_days seen (d ∷ ds) = do
  reject_if (ltb_ℤ d (pos 0) || ltb_ℤ (pos 6) d || contains_day seen d) days_invalid
  check_days (d ∷ seen) ds

abbrev pub out_of_day : ℤ → Bool
out_of_day m = ltb_ℤ m (pos 0) || leb_ℤ (pos 1440) m

unfoldable pub validate : Zones → RelayUploadWindow → Result WindowError (Unit {0})
validate zones w = do
  reject_if
      (is_blank w.name
        || ltb 200 (byte_length w.name)
        || is_blank w.target_id
        || ltb 200 (byte_length w.target_id)
        || ltb 500 (byte_length w.reason)
        || out_of_day w.start_minute
        || out_of_day w.end_minute
        || eq_ℤ w.start_minute w.end_minute)
      settings_invalid
  reject_if (not (known_target w.target_type)) target_invalid
  reject_if (not (known_location (zones.load_location w.timezone))) timezone_invalid
  reject_if (length w.days == 0 || ltb 7 (length w.days)) days_missing
  check_days [] w.days

-- previousDay
abbrev pub previous_day : ℕ → ℕ
previous_day weekday = if weekday == 0 then 6 else weekday - 1

-- The tests of Open on the local time of a valid, enabled window.
unfoldable pub open_at : List ℤ → ℕ → ℕ → LocalTime → Bool
open_at days start end local =
    let minute = local.hour * 60 + local.minute in
    if ltb start end
    then contains_day days (pos local.weekday) && leb start minute && ltb minute end
    else if leb start minute
    then contains_day days (pos local.weekday)
    else ltb minute end && contains_day days (pos (previous_day local.weekday))

-- LoadLocation has succeeded in Validate when Open calls it again.
abbrev pub location_or_utc : Option ℕ → ℕ
location_or_utc none = 0
location_or_utc (some z) = z

unfoldable pub open_window : Zones → RelayUploadWindow → Time → Result WindowError Bool
open_window zones w now = do
  validate zones w
  ok (
      w.enabled
      && open_at w.days (pos_part w.start_minute) (pos_part w.end_minute)
          (zones.in_location (location_or_utc (zones.load_location w.timezone)) now))
