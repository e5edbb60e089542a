-- ===== src/WorkerJobs/Stamp.antt =====
-- internal/store/sqlite.go: formatTime, and the order in which SQL compares its texts. A text has the
-- date and the whole seconds in fixed width, then the fraction with no trailing zeros, then "Z"; so two
-- texts compare by their whole seconds, and within a second as the texts of their fractions. This is
-- the order of the years 0 to 9999.
use mossward.Common.{
  ℕ, zero, suc, ◌+◌, ◌*◌, ◌/◌, ◌%◌, ◌<◌, ◌≡◌, ◌≢◌, Bool, true, false, [], ◌∷◌, arith, ltb, ◌==◌,
  if◌then◌else◌, Text, text_less, text_less_trans, text_less_irrefl, text_less_within, Time,
}

-- The digits of a fraction of `n` billionths, up to the last that is not 0.
unfoldable pub fraction_digits : ℕ → ℕ → Text
fraction_digits zero n = b'Z' ∷ []
fraction_digits (suc k) n =
    let rest = fraction_digits k (n % 100_000_000 * 10) in
    if n == 0 then b'Z' ∷ [] else (b'0' + n / 100_000_000) ∷ rest

unfoldable pub fraction : ℕ → Text
unfolding fraction_digits
fraction n = if n == 0 then b'Z' ∷ [] else b'.' ∷ fraction_digits 9 n

-- `formatTime(t) < formatTime(u)`
unfoldable pub stamp_less : Time → Time → Bool
unfolding fraction
stamp_less t u =
    if t / 1_000_000_000 == u / 1_000_000_000
    then text_less (fraction (t % 1_000_000_000)) (fraction (u % 1_000_000_000))
    else ltb (t / 1_000_000_000) (u / 1_000_000_000)

abbrev fraction_of : Time → Text
fraction_of t = fraction (t % 1_000_000_000)

-- No instant is before itself.
pub stamp_less_irrefl : (t : Time) → stamp_less t t ≡ false
unfolding stamp_less
stamp_less_irrefl t = ground (arith, text_less_irrefl (fraction_of t))

lex_trans :
    (a b c : ℕ) (x y z : Bool)
    → (x ≡ true → y ≡ true → z ≡ true)
    → (if a == b then x else ltb a b) ≡ true
    → (if b == c then y else ltb b c) ≡ true
    → (if a == c then z else ltb a c) ≡ true
lex_trans a b c x y z h p q = ground arith

pub stamp_less_trans :
    (t u v : Time) → stamp_less t u ≡ true → stamp_less u v ≡ true → stamp_less t v ≡ true
unfolding stamp_less
stamp_less_trans t u v p q =
    lex_trans (t / 1_000_000_000) (u / 1_000_000_000) (v / 1_000_000_000) _ _ _
      (text_less_trans (fraction_of t) (fraction_of u) (fraction_of v)) p q

-- What comes before `u` comes before each instant that does not.
pub stamp_less_within :
    (t u v : Time) → stamp_less t u ≡ true → stamp_less v u ≡ false → stamp_less t v ≡ true
unfolding stamp_less
stamp_less_within t u v p q =
    ground (arith, text_less_within (fraction_of t) (fraction_of u) (fraction_of v))

-- Instants in different seconds are in the order of their texts. Within one second the text of the whole
-- second comes last, though the whole second is the first of its instants.
pub stamp_less_lem :
    (t u : Time)
    → (t / 1_000_000_000 ≢ u / 1_000_000_000 → stamp_less t u ≡ ltb t u)
      × (t / 1_000_000_000 ≡ u / 1_000_000_000
          → t % 1_000_000_000 ≡ 0
          → u % 1_000_000_000 ≢ 0
          → (stamp_less u t ≡ true) × (t < u))
unfolding stamp_less fraction text_less
stamp_less_lem t u = (λ n. ground arith, λ e z n. (ground arith, ground arith))
