-- ===== src/RelayWindow/Week.antt =====
-- internal/relaywindow/window.go: the windows of Open as intervals on the circle of the week.
use mossward.Common.{
  ℕ, ◌+◌, ◌-◌, ◌*◌, ◌%◌, ◌≤◌, ◌<◌, ◌≡◌, ◌≢◌, ◌↔◌, Bool, false, ◌||◌, ◌&&◌, List, [], ◌∷◌, arith,
  All, ltb, leb, if◌then◌else◌, Time, Result-cases, ok, inl, inr, ℤ, pos, negsuc, pos_part, ◌≤ℤ◌,
  eq_ℤ,
}
use mossward.RelayWindow.Window.{
  LocalTime, RelayUploadWindow, Zones, contains_day, check_days, validate, previous_day, open_at,
  location_or_utc, open_window,
}

-- The minute of the week, from Sunday 00:00.
abbrev pub week_minute : LocalTime → ℕ
week_minute local = local.weekday * 1440 + (local.hour * 60 + local.minute)

-- The minutes from `start` on day `d` to the minute of the week, round the week.
abbrev pub minutes_since : ℕ → ℕ → ℕ → ℕ
minutes_since d start now = (now + 10080 - (d * 1440 + start)) % 10080

-- How long a window lasts: from `start` to `end`, over midnight where `end` comes first.
abbrev pub duration : ℕ → ℕ → ℕ
duration start end = (end + 1440 - start) % 1440

-- Some day of the window has its interval over the minute of the week.
pub covers : List ℤ → ℕ → ℕ → ℕ → Bool
covers [] start end now = false
covers (d ∷ ds) start end now =
    ltb (minutes_since (pos_part d) start now) (duration start end) || covers ds start end now

abbrev pub IsDay : ℤ → Type 0
IsDay d = (pos 0 ≤ℤ d) × (d ≤ℤ pos 6)

abbrev day_open : ℤ → ℕ → ℕ → ℕ → ℕ → Bool
day_open d start end weekday minute =
    if ltb start end
    then eq_ℤ d (pos weekday) && leb start minute && ltb minute end
    else if leb start minute
    then eq_ℤ d (pos weekday)
    else ltb minute end && eq_ℤ d (pos (previous_day weekday))

day_lem :
    (d start end weekday minute : ℕ)
    → d ≤ 6
    → start < 1440
    → end < 1440
    → start ≢ end
    → weekday < 7
    → minute < 1440
    → ltb (minutes_since d start (weekday * 1440 + minute)) (duration start end)
      ≡ day_open (pos d) start end weekday minute
day_lem d start end weekday minute hd hs he ne hw hm = ground arith

open_at-cons :
    (d : ℤ) (ds : List ℤ) (start end : ℕ) (local : LocalTime)
    → open_at (d ∷ ds) start end local ≡ (
        day_open d start end local.weekday (local.hour * 60 + local.minute)
        || open_at ds start end local)
unfolding open_at contains_day
open_at-cons d ds start end local = ground arith

open_at-covers :
    (days : List ℤ) (start end : ℕ) (local : LocalTime)
    → All IsDay days
    → start < 1440
    → end < 1440
    → start ≢ end
    → local.weekday < 7
    → local.hour < 24
    → local.minute < 60
    → open_at days start end local ≡ covers days start end (week_minute local)
unfolding covers
open_at-covers [] start end local hd hs he ne hw hh hm = empty_days
  where
    empty_days : open_at [] start end local ≡ false
    empty_days = unfold open_at contains_day in ground arith
open_at-covers (pos d ∷ ds) start end local hd hs he ne hw hh hm = ground (
  arith,
  open_at-cons (pos d) ds start end local,
  day_lem d start end local.weekday (local.hour * 60 + local.minute),
  open_at-covers ds start end local hd.1 hs he ne hw hh hm,
)
open_at-covers (negsuc d ∷ ds) start end local hd hs he ne hw hh hm = absurd (omega (arith, hd.0))

check_days-IsDay : (seen days : List ℤ) → check_days seen days ≡ ok tt → All IsDay days
unfolding check_days
check_days-IsDay seen [] h = tt
check_days-IsDay seen (d ∷ ds) h =
    (ground (arith, h), check_days-IsDay (d ∷ seen) ds (ground (arith, h)))

validate-facts :
    (zones : Zones) (w : RelayUploadWindow)
    → validate zones w ≡ ok tt
    → (pos_part w.start_minute < 1440)
      × (pos_part w.end_minute < 1440)
      × (pos_part w.start_minute ≢ pos_part w.end_minute)
      × All IsDay w.days
unfolding validate
validate-facts zones w h = (
  ground (arith, h),
  ground (arith, h),
  ground (arith, h),
  check_days-IsDay [] w.days (ground (arith, h)),
)

-- Open gives an answer exactly when the window passes Validate and the answer is this: the window is
-- enabled and, on the circle of the week's 10080 minutes in its timezone, the present minute lies
-- less than the window's duration after its start on one of its days.
pub open_window-covers :
    (zones : Zones) (w : RelayUploadWindow) (now : Time) (answer : Bool)
    → (open_window zones w now ≡ ok answer) ↔ (
        (validate zones w ≡ ok tt)
        × (answer ≡ (
            w.enabled
            && covers w.days (pos_part w.start_minute) (pos_part w.end_minute) (
                week_minute
                  (zones.in_location (location_or_utc (zones.load_location w.timezone)) now)))))
unfolding open_window
open_window-covers zones w now answer = (to, back)
  where
    local : LocalTime
    local = zones.in_location (location_or_utc (zones.load_location w.timezone)) now

    meaning :
        validate zones w ≡ ok tt
        → open_at w.days (pos_part w.start_minute) (pos_part w.end_minute) local
          ≡ covers w.days (pos_part w.start_minute) (pos_part w.end_minute) (week_minute local)
    meaning good =
        let f = validate-facts zones w good in
        open_at-covers w.days (pos_part w.start_minute) (pos_part w.end_minute) local f.3 f.0 f.1
          f.2 (zones.weekday_range _ now) (zones.hour_range _ now) (zones.minute_range _ now)

    to :
        open_window zones w now ≡ ok answer
        → (validate zones w ≡ ok tt)
          × (answer ≡ (
              w.enabled
              && covers w.days
                  (pos_part w.start_minute)
                  (pos_part w.end_minute)
                  (week_minute local)))
    to h = elim (Result-cases (validate zones w)) [
      | inr (e, bad) ↦ absurd (ground (arith, bad, h))
      | inl (u, good) ↦ (good, ground (arith, good, h, meaning good))
    ]

    back :
        (validate zones w ≡ ok tt)
          × (answer ≡ (
              w.enabled
              && covers w.days
                  (pos_part w.start_minute)
                  (pos_part w.end_minute)
                  (week_minute local)))
        → open_window zones w now ≡ ok answer
    back h = ground (arith, h.0, h.1, meaning h.0)
