-- ===== src/WorkerClient/Backpressure.antt =====
-- internal/workerclient/backpressure.go: how full the outbox is, and what the worker does about it.
use mossward.Common.{
  ℕ, zero, suc, ◌+◌, ◌-◌, ◌*◌, ◌/◌, ◌≤◌, ◌<◌, ◌≡◌, ◌↔◌, ◌≢◌, Bool, true, false, ◌||◌, arith, ltb,
  leb, ◌==◌, if◌then◌else◌, Result, ok, ◌>>◌, reject_if, ℤ, pos, pos_part, ltb_ℤ, leb_ℤ,
}
use mossward.WorkerClient.Outbox.{OutboxStats, OutboxLimits}

pub data OutboxPressure : Type 0 where
  normal elevated critical full : OutboxPressure

pub record BackpressurePolicy : Type 0 where
  pub pause_polling_at_percent : ℤ
  pub critical_at_percent : ℤ

pub record BackpressureState : Type 0 where
  pub pressure : OutboxPressure
  pub usage_percent : ℕ
  pub accept_new_jobs : Bool
  pub forward_pending : Bool

pub data BackpressureError : Type 0 where
  thresholds_invalid : BackpressureError

abbrev pub default_backpressure_policy : BackpressurePolicy
default_backpressure_policy = record {
  pause_polling_at_percent = pos 75;
  critical_at_percent = pos 90;
}

unfoldable pub validate_backpressure_policy :
    BackpressurePolicy → Result BackpressureError (Unit {0})
validate_backpressure_policy p =
    reject_if
      (ltb_ℤ p.pause_polling_at_percent (pos 1)
        || leb_ℤ p.critical_at_percent p.pause_polling_at_percent
        || ltb_ℤ (pos 100) p.critical_at_percent)
      thresholds_invalid

-- The quotient rounded up.
abbrev pub ceil_div : ℕ → ℕ → ℕ
ceil_div a m = (a + m - 1) / m

-- `int(math.Ceil(float64(value) * 100 / float64(maximum)))`. Below 2^45 the product is exact in
-- a float64 and the rounded quotient does not reach an integer that the true one does not reach.
pub record Floats : Type 0 where
  pub ceil_percent : ℕ → ℕ → ℕ
  pub ceil_percent_exact :
      (value maximum : ℕ)
      → value < 35_184_372_088_832
      → 0 < maximum
      → maximum < 35_184_372_088_832
      → ceil_percent value maximum ≡ ceil_div (value * 100) maximum

unfoldable pub rounded_up_percent : Floats → ℕ → ℕ → ℕ
rounded_up_percent fl value maximum = if value == 0 then 0 else fl.ceil_percent value maximum

unfoldable pub maximum_percentage : Floats → ℕ → ℕ → ℕ → ℕ → ℕ
unfolding rounded_up_percent
maximum_percentage fl items maximum_items bytes maximum_bytes =
    let item_percent = rounded_up_percent fl items maximum_items in
    let byte_percent = rounded_up_percent fl bytes maximum_bytes in
    if ltb item_percent byte_percent then byte_percent else item_percent

abbrev pub pressure_at : ℕ → BackpressurePolicy → OutboxPressure
pressure_at usage p =
    if leb 100 usage
    then full
    else if leb_ℤ p.critical_at_percent (pos usage)
    then critical
    else if leb_ℤ p.pause_polling_at_percent (pos usage)
    then elevated
    else normal

abbrev pub is_normal : OutboxPressure → Bool
is_normal normal = true
is_normal _ = false

-- Backpressure, on the statistics that the outbox gave. The limits of an open outbox are positive.
unfoldable pub backpressure :
    Floats
    → BackpressurePolicy
    → OutboxLimits
    → OutboxStats
    → Result BackpressureError BackpressureState
unfolding validate_backpressure_policy
backpressure fl p l stats = do
  validate_backpressure_policy p
  let usage =
      maximum_percentage fl stats.items (pos_part l.max_items) stats.bytes (pos_part l.max_bytes)
  ok (record {
    pressure = pressure_at usage p;
    usage_percent = usage;
    accept_new_jobs = is_normal (pressure_at usage p);
    forward_pending = ltb 0 stats.items;
  })

ceil_div-le : (a m k : ℕ) → 0 < m → (ceil_div a m ≤ k) ↔ (a ≤ k * m)
ceil_div-le a m k h = (λ le. grind arith, λ le. grind arith)

rounded_up_percent-le :
    (fl : Floats) (value maximum k : ℕ)
    → value < 35_184_372_088_832
    → 0 < maximum
    → maximum < 35_184_372_088_832
    → (rounded_up_percent fl value maximum ≤ k) ↔ (value * 100 ≤ k * maximum)
unfolding rounded_up_percent
rounded_up_percent-le fl zero maximum k hv hm hm' = (λ _. omega arith, λ _. omega arith)
rounded_up_percent-le fl (suc v) maximum k hv hm hm' =
    let exact = fl.ceil_percent_exact (suc v) maximum hv hm hm' in
    let bound = ceil_div-le (suc v * 100) maximum k hm in
    (λ le. bound.0 (ground (arith, exact, le)), λ le. ground (arith, exact, bound.1 le))

-- The sizes on which the percentage is exact.
pub record InRange (l : OutboxLimits) (stats : OutboxStats) : Type 0 where
  pub items_positive : 0 < pos_part l.max_items
  pub items_small : pos_part l.max_items < 35_184_372_088_832
  pub bytes_positive : 0 < pos_part l.max_bytes
  pub bytes_small : pos_part l.max_bytes < 35_184_372_088_832
  pub few_items : stats.items < 35_184_372_088_832
  pub few_bytes : stats.bytes < 35_184_372_088_832

usage-le :
    (fl : Floats) (l : OutboxLimits) (stats : OutboxStats) (k : ℕ)
    → InRange l stats
    → (maximum_percentage fl stats.items (pos_part l.max_items) stats.bytes (pos_part l.max_bytes)
        ≤ k)
      ↔ ((stats.items * 100 ≤ k * pos_part l.max_items)
          × (stats.bytes * 100 ≤ k * pos_part l.max_bytes))
unfolding maximum_percentage
usage-le fl l stats k r =
    let items =
      rounded_up_percent-le fl stats.items (pos_part l.max_items) k r.few_items r.items_positive
        r.items_small in
    let bytes =
      rounded_up_percent-le fl stats.bytes (pos_part l.max_bytes) k r.few_bytes r.bytes_positive
        r.bytes_small in
    (
      λ le. (items.0 (ground (arith, le)), bytes.0 (ground (arith, le))),
      λ both. ground (arith, items.1 both.0, bytes.1 both.1),
    )

pressure_lem :
    (p : BackpressurePolicy) (usage : ℕ)
    → validate_backpressure_policy p ≡ ok tt
    → ((is_normal (pressure_at usage p) ≡ true) ↔ (usage ≤ pos_part p.pause_polling_at_percent - 1))
      × ((pressure_at usage p ≢ full) ↔ (usage ≤ 99))
unfolding validate_backpressure_policy
pressure_lem p usage h = (
  ((λ e. ground (arith, h, e)), (λ le. ground (arith, h, le))),
  ((λ ne. ground (arith, h, ne)), (λ le e. ground (arith, h, le, e))),
)

-- Within the range of exact percentages: the worker takes new jobs exactly when both the items and
-- the bytes are below the pause threshold's share of their limits, rounded down to whole percents;
-- the outbox counts as full exactly when one of them takes more than 99 percent of its limit; and
-- it goes on forwarding exactly when it holds a message.
backpressure_lem :
    (fl : Floats) (p : BackpressurePolicy) (l : OutboxLimits) (stats : OutboxStats)
    (state : BackpressureState)
    → InRange l stats
    → backpressure fl p l stats ≡ ok state
    → ((state.accept_new_jobs ≡ true) ↔ (
        (stats.items * 100 ≤ (pos_part p.pause_polling_at_percent - 1) * pos_part l.max_items)
        × (stats.bytes * 100 ≤ (pos_part p.pause_polling_at_percent - 1) * pos_part l.max_bytes)))
      × ((state.pressure ≢ full) ↔ (
          (stats.items * 100 ≤ 99 * pos_part l.max_items)
          × (stats.bytes * 100 ≤ 99 * pos_part l.max_bytes)))
      × ((state.forward_pending ≡ true) ↔ (0 < stats.items))
unfolding backpressure
backpressure_lem fl p l stats state r h =
    let usage =
      maximum_percentage fl stats.items (pos_part l.max_items) stats.bytes (pos_part l.max_bytes) in
    let pause = usage-le fl l stats (pos_part p.pause_polling_at_percent - 1) r in
    let fill = usage-le fl l stats 99 r in
    let (calm, some_room) = pressure_lem p usage (ground (arith, h)) in
    (
      (
        (λ e. pause.0 (calm.0 (ground (arith, h, e)))),
        (λ le. ground (arith, h, calm.1 (pause.1 le))),
      ),
      (
        (λ e. fill.0 (some_room.0 (λ e'. e (ground (arith, h, e'))))),
        (λ le e. some_room.1 (fill.1 le) (ground (arith, h, e))),
      ),
      ((λ e. ground (arith, h, e)), (λ lt. ground (arith, h, lt))),
    )
