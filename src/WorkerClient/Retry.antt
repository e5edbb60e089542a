-- ===== src/WorkerClient/Retry.antt =====
-- internal/workerclient/retry.go: the delays between retries. Durations are nanoseconds.
use Prim.Native.Nat.{min}
use native.Mathlib.Nat.{pow-suc}
use mossward.Common.{
  ℕ, zero, suc, ◌+◌, ◌-◌, ◌*◌, ◌/◌, ◌^◌, ◌≤◌, ◌<◌, ◌≡◌, ◌||◌, Option, some, none, arith, ltb, leb,
  ◌==◌, if◌then◌else◌, Result, ok, err, ◌>>◌, reject_if, ℤ, pos, negsuc, pos_part, ltb_ℤ, leb_ℤ,
  int64, Bool-cases, Option-cases, inl, inr, subst,
}

pub record RetryPolicy : Type 0 where
  pub initial_delay : ℤ
  pub maximum_delay : ℤ
  pub jitter_percent : ℤ

pub data RetryError : Type 0 where
  policy_invalid state_invalid random_failed : RetryError

unfoldable pub validate_retry_policy : RetryPolicy → Result RetryError (Unit {0})
validate_retry_policy p =
    reject_if
      (leb_ℤ p.initial_delay (pos 0)
        || ltb_ℤ p.maximum_delay p.initial_delay
        || ltb_ℤ p.jitter_percent (pos 0)
        || ltb_ℤ (pos 100) p.jitter_percent)
      policy_invalid

-- A scheduler holds a policy that passed validation, whose durations are not negative.
pub record RetryScheduler : Type 0 where
  pub initial_delay : ℕ
  pub maximum_delay : ℕ
  pub jitter_percent : ℕ

unfoldable pub new_retry_scheduler : RetryPolicy → Result RetryError RetryScheduler
unfolding validate_retry_policy
new_retry_scheduler p = do
  validate_retry_policy p
  ok (record {
    initial_delay = pos_part p.initial_delay;
    maximum_delay = pos_part p.maximum_delay;
    jitter_percent = pos_part p.jitter_percent;
  })

abbrev pub min_duration : ℕ → ℕ → ℕ
min_duration left right = if ltb left right then left else right

abbrev pub min_signed : ℤ → ℤ → ℤ
min_signed left right = if ltb_ℤ left right then left else right

-- The loop of exponentialDelay with the rounds that are left. A delay is doubled only when it is at
-- most half the maximum, so the product does not wrap.
unfoldable pub double_delay : ℕ → ℕ → ℕ → ℕ
double_delay maximum zero delay = min_duration delay maximum
double_delay maximum (suc rounds) delay =
    let rest = double_delay maximum rounds (delay * 2) in
    if leb maximum delay
    then min_duration delay maximum
    else if ltb (maximum / 2) delay
    then maximum
    else rest

unfoldable pub exponential_delay : RetryScheduler → ℕ → ℕ
exponential_delay s failures = double_delay s.maximum_delay (failures - 1) s.initial_delay

-- `int64(delay) * int64(JitterPercent) / percentageScale`; division rounds towards 0.
abbrev pub jitter_limit : ℕ → ℕ → ℤ
jitter_limit delay percent = elim (int64 (delay * percent)) [
  | pos n ↦ pos (n / 100)
  | negsuc n ↦ if ltb n 99 then pos 0 else negsuc ((n + 1) / 100 - 1)
]

abbrev pub add_jitter : RetryScheduler → ℕ → Option ℕ → Result RetryError ℤ
add_jitter s delay none = err random_failed
add_jitter s delay (some jitter) = ok (min_signed (int64 (delay + jitter)) (pos s.maximum_delay))

abbrev pub with_jitter : RetryScheduler → (ℕ → Option ℕ) → ℕ → Result RetryError ℤ
with_jitter s random delay =
    if leb s.maximum_delay delay || s.jitter_percent == 0
    then ok (pos (min_duration delay s.maximum_delay))
    else if ltb_ℤ (jitter_limit delay s.jitter_percent) (pos 1)
    then ok (pos delay)
    else add_jitter s delay (random (pos_part (jitter_limit delay s.jitter_percent) + 1))

-- The longer of the exponential delay and what the server asked for.
abbrev pub base_delay : RetryScheduler → ℕ → ℕ → ℕ
base_delay s failures retry_after =
    let delay = exponential_delay s failures in if ltb delay retry_after then retry_after else delay

-- Delay. `random bound` is a value below the bound, or a failure of the random source.
unfoldable pub delay : RetryScheduler → (ℕ → Option ℕ) → ℤ → ℤ → Result RetryError ℤ
delay s random failures retry_after = do
  reject_if (ltb_ℤ failures (pos 0) || ltb_ℤ retry_after (pos 0)) state_invalid
  with_jitter s random (base_delay s (pos_part failures) (pos_part retry_after))

-- What a scheduler has when NewRetryScheduler made it.
pub record IsScheduler (s : RetryScheduler) : Type 0 where
  pub positive : 0 < s.initial_delay
  pub ordered : s.initial_delay ≤ s.maximum_delay
  pub percent : s.jitter_percent ≤ 100

pub new_retry_scheduler-IsScheduler :
    (p : RetryPolicy) (s : RetryScheduler) → new_retry_scheduler p ≡ ok s → IsScheduler s
unfolding new_retry_scheduler
new_retry_scheduler-IsScheduler p s h = ground arith

two_pow_pos : (n : ℕ) → 0 < 2 ^ n
two_pow_pos zero = omega arith
two_pow_pos (suc n) = omega (arith, two_pow_pos n, pow-suc 2 n)

doubled :
    (delay rounds : ℕ)
    → (delay * 2 ^ suc rounds ≡ delay * 2 * 2 ^ rounds) × (delay * 2 ≤ delay * 2 * 2 ^ rounds)
doubled delay rounds = (grind (arith, pow-suc 2 rounds), grind (arith, two_pow_pos rounds))

double_delay_lem :
    (maximum rounds delay : ℕ)
    → 0 < delay
    → double_delay maximum rounds delay ≡ min (delay * 2 ^ rounds) maximum
unfolding double_delay
double_delay_lem maximum zero delay h =
    let e : delay * 2 ^ 0 ≡ delay = omega arith in rw e (ground arith)
double_delay_lem maximum (suc rounds) delay h =
    let (e, le) = doubled delay rounds in
    rw e (ground (arith, le, double_delay_lem maximum rounds (delay * 2)))

-- For a scheduler that NewRetryScheduler made, the delay before jitter after `failures + 1` failures
-- is the initial delay doubled `failures` times, or the maximum where that is less; so the early
-- return at half the maximum changes nothing, and no doubling passes the maximum.
exponential_delay_lem :
    (s : RetryScheduler) (failures : ℕ)
    → IsScheduler s
    → exponential_delay s (failures + 1) ≡ min (s.initial_delay * 2 ^ failures) s.maximum_delay
unfolding exponential_delay
exponential_delay_lem s failures v =
    let e : failures + 1 - 1 ≡ failures = omega arith in
    rw e (double_delay_lem s.maximum_delay failures s.initial_delay v.positive)

-- What a delay is held to: between the base, capped at the maximum, and the maximum, with at most
-- the percentage of the base as jitter.
abbrev pub Within : RetryScheduler → ℕ → ℤ → Type 0
Within s base (pos d) =
    (min base s.maximum_delay ≤ d)
    × (d ≤ s.maximum_delay)
    × ((d - base) * 100 ≤ base * s.jitter_percent)
Within s base (negsuc d) = ⊥

module _ (s : RetryScheduler) (v : IsScheduler s)
    (small : s.maximum_delay ≤ 4_611_686_018_427_387_904) where
  limit_exact :
      (base : ℕ) → pos_part (jitter_limit base s.jitter_percent) * 100 ≤ base * s.jitter_percent
  limit_exact base = ground arith

  percent_le : (base j : ℕ) → j * 100 ≤ base * s.jitter_percent → j ≤ base
  percent_le base j h = grind (arith, v.percent)

  add_jitter-Within :
      (base j : ℕ) (d : ℤ)
      → base < s.maximum_delay
      → j * 100 ≤ base * s.jitter_percent
      → add_jitter s base (some j) ≡ ok d
      → Within s base d
  add_jitter-Within base j (pos d) lt le h =
      let small_jitter = percent_le base j le in
      let e : d ≡ min_duration (base + j) s.maximum_delay =
        ground (arith, small, h, small_jitter, lt) in
      (ground (arith, e, lt), ground (arith, e, lt), ground (arith, e, lt, le))
  add_jitter-Within base j (negsuc d) lt le h = ground (arith, small, h, percent_le base j le, lt)

  with_jitter-Within :
      (random : ℕ → Option ℕ) (base : ℕ) (d : ℤ)
      → ((bound r : ℕ) → random bound ≡ some r → r < bound)
      → with_jitter s random base ≡ ok d
      → Within s base d
  with_jitter-Within random base d below h =
      elim (Bool-cases (leb s.maximum_delay base || s.jitter_percent == 0)) [
        | inl plain ↦
            let e : pos (min_duration base s.maximum_delay) ≡ d = ground (arith, plain, h) in
            subst (Within s base) e (ground (arith, plain), ground (arith, plain), ground arith)
        | inr jittered ↦ elim (Bool-cases (ltb_ℤ (jitter_limit base s.jitter_percent) (pos 1))) [
          | inl none_left ↦
              let e : pos base ≡ d = ground (arith, jittered, none_left, h) in
              subst (Within s base) e
                (ground (arith, jittered), ground (arith, jittered), omega arith)
          | inr some_left ↦ elim (Option-cases (random bound)) [
            | inl failed ↦ absurd (ground (arith, jittered, some_left, h, failed))
            | inr (j, drawn) ↦
                add_jitter-Within base j d (ground (arith, jittered))
                  (omega (arith, below bound j drawn, limit_exact base))
                  (ground (arith, jittered, some_left, h, drawn))
          ]
        ]
      ]
    where
      bound : ℕ
      bound = pos_part (jitter_limit base s.jitter_percent) + 1

-- For a scheduler that NewRetryScheduler made, with a maximum of at most 2^62 nanoseconds, and a
-- random source that stays below its bound: every delay that Delay returns is at least the longer of
-- the exponential delay and the server's wish, capped at the maximum; it is at most the maximum; and
-- it exceeds that base by at most the jitter percentage.
pub delay-Within :
    (s : RetryScheduler) (random : ℕ → Option ℕ) (failures retry_after d : ℤ)
    → IsScheduler s
    → s.maximum_delay ≤ 4_611_686_018_427_387_904
    → ((bound r : ℕ) → random bound ≡ some r → r < bound)
    → delay s random failures retry_after ≡ ok d
    → Within s (base_delay s (pos_part failures) (pos_part retry_after)) d
unfolding delay
delay-Within s random failures retry_after d v small below h =
    elim (Bool-cases (ltb_ℤ failures (pos 0) || ltb_ℤ retry_after (pos 0))) [
      | inl bad ↦ absurd (ground (arith, bad, h))
      | inr good ↦
          with_jitter-Within s v small random
            (base_delay s (pos_part failures) (pos_part retry_after)) d below
            (ground (arith, good, h))
    ]
