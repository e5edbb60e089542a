-- ===== src/AgentUpdate/Upgrade.antt =====
-- internal/agentupdate/version.go: IsUpgrade is a strict order.
use mossward.Common.{
  ◌≡◌, refl, true, false, Option, some, none, [], ◌∷◌, arith, Text, text_eq, text_eq_iff,
  text_less_trans, text_less_total, is_empty,
}
use mossward.AgentUpdate.Version.{ParsedVersion, parse_version, newer, newer_parsed, is_upgrade}

newer_trans : (a b c : ParsedVersion) → newer a b ≡ true → newer b c ≡ true → newer a c ≡ true
unfolding newer
newer_trans a b c p q = ground (
  arith,
  p,
  q,
  text_less_trans a.prerelease b.prerelease c.prerelease,
  text_eq_iff a.prerelease b.prerelease,
  text_eq_iff b.prerelease c.prerelease,
  text_eq_iff a.prerelease c.prerelease,
  text_less_total a.prerelease c.prerelease,
  text_less_total a.prerelease b.prerelease,
)

-- Upgrades compose: an upgrade of an upgrade is an upgrade.
is_upgrade_trans :
    (a b c : Text) → is_upgrade a b ≡ true → is_upgrade b c ≡ true → is_upgrade a c ≡ true
unfolding is_upgrade
is_upgrade_trans a b c p q = go (parse_version a) (parse_version b) (parse_version c) p q
  where
    go :
        (x y z : Option ParsedVersion)
        → newer_parsed x y ≡ true
        → newer_parsed y z ≡ true
        → newer_parsed x z ≡ true
    go none y z h k = h
    go (some x) none z h k = absurd (ground (arith, h))
    go (some x) (some y) none h k = absurd (ground (arith, k))
    go (some x) (some y) (some z) h k = newer_trans x y z h k

newer_asym : (a b : ParsedVersion) → newer a b ≡ true → newer b a ≡ false
unfolding newer
newer_asym a b p = ground (
  arith,
  p,
  text_eq_iff a.prerelease b.prerelease,
  text_eq_iff b.prerelease a.prerelease,
  text_less_total a.prerelease b.prerelease,
)

newer_neither : (a b : ParsedVersion) → newer a b ≡ false → newer b a ≡ false → a ≡ b
unfolding newer
newer_neither a b p q =
    same a b (ground (arith, p, q)) (ground (arith, p, q)) (ground (arith, p, q)) (
      ground (
        arith,
        p,
        q,
        text_eq_iff a.prerelease b.prerelease,
        text_eq_iff b.prerelease a.prerelease,
        text_less_total a.prerelease b.prerelease,
        empty_eq a.prerelease b.prerelease,
      ))
  where
    same :
        (x y : ParsedVersion)
        → x.major ≡ y.major
        → x.minor ≡ y.minor
        → x.patch ≡ y.patch
        → x.prerelease ≡ y.prerelease
        → x ≡ y
    same x y h k l m = ground (arith, h, k, l, m)

    empty_eq : (x y : Text) → is_empty x ≡ true → is_empty y ≡ true → text_eq x y ≡ true
    empty_eq [] [] h k = unfold text_eq in refl
    empty_eq [] (d ∷ ds) h k = absurd (ground (arith, k))
    empty_eq (c ∷ cs) y h k = absurd (ground (arith, h))

-- Of two version texts that parse, at most one is an upgrade of the other, and where neither is, both
-- are the same version.
is_upgrade_total :
    (a b : Text) (x y : ParsedVersion)
    → parse_version a ≡ some x
    → parse_version b ≡ some y
    → (is_upgrade a b ≡ true → is_upgrade b a ≡ false)
      × (is_upgrade a b ≡ false → is_upgrade b a ≡ false → x ≡ y)
unfolding is_upgrade
is_upgrade_total a b x y h k = rw (h, k) (newer_asym x y, newer_neither x y)
