-- ===== src/Common/Clock.antt =====
-- Instants are nanoseconds since Go's zero time, 1 January of year 1 UTC, so `zero_time` is the
-- value on which `IsZero` holds. Earlier instants are left out. Sums stand on the side that keeps
-- them exact: `t` is before `now - d` when `t + d` is before `now`.
use Prim.Native.Nat.{ℕ, ◌+◌, ◌-◌, ◌≤◌, ◌<◌}
use mathlib.Core.Path.{◌≡◌}
use mathlib.Core.Bool.{Bool, false}
use mossward.Common.Tests.{ltb, ◌==◌}
use mossward.Common.Signed.{ℤ, pos, negsuc, pos_part, neg_part, int64, leb_ℤ}
use native.Mathlib.Omega.{arith}

abbrev pub Time : Type 0
Time = ℕ

abbrev pub zero_time : Time
zero_time = 0

abbrev pub second : ℕ
second = 1_000_000_000

abbrev pub minute : ℕ
minute = 60_000_000_000

abbrev pub hour : ℕ
hour = 3_600_000_000_000

abbrev pub day : ℕ
day = 86_400_000_000_000

abbrev pub is_zero : Time → Bool
is_zero t = t == zero_time

-- `t.Before(u)` and `t.After(u)`
abbrev pub before : Time → Time → Bool
before t u = ltb t u

abbrev pub after : Time → Time → Bool
after t u = ltb u t

-- `t.After(now.Add(d))`
abbrev pub after_add : Time → Time → ℤ → Bool
after_add t now d = ltb (now + pos_part d) (t + neg_part d)

-- `t.Before(now.Add(-d))`
abbrev pub before_sub : Time → Time → ℤ → Bool
before_sub t now d = ltb (t + pos_part d) (now + neg_part d)

-- 1 January 1970 UTC
abbrev pub unix_epoch : Time
unix_epoch = 62_135_596_800_000_000_000

-- `now.Add(-d).UnixNano()`, an int64 that wraps. Four times 2^64 keep the difference from stopping at 0.
unfoldable pub unix_nano_sub : Time → ℤ → ℤ
unix_nano_sub now d =
    int64 (now + (73_786_976_294_838_206_464 - unix_epoch) + neg_part d - pos_part d)

-- `t.UnixNano()`
unfoldable pub unix_nano : Time → ℤ
unfolding unix_nano_sub
unix_nano t = unix_nano_sub t (pos 0)

-- `time.Unix(0, n)`
unfoldable pub from_unix_nano : ℤ → Time
from_unix_nano (pos n) = unix_epoch + n
from_unix_nano (negsuc n) = unix_epoch - n - 1

-- The instants whose UnixNano is exact, from the year 1677 to the year 2262.
abbrev pub first_unix_nano : Time
first_unix_nano = 52_912_224_763_145_224_192

abbrev pub last_unix_nano : Time
last_unix_nano = 71_358_968_836_854_775_807

-- Between them UnixNano keeps the order.
pub unix_nano-less :
    (t u : Time)
    → first_unix_nano ≤ t
    → t < u
    → u ≤ last_unix_nano
    → leb_ℤ (unix_nano u) (unix_nano t) ≡ false
unfolding unix_nano unix_nano_sub
unix_nano-less t u f l h = ground (arith, f, l, h)
