-- ===== src/CoveragePolicy/Examples.antt =====
-- A policy on 10.1.0.0/16 where the server allows 10.0.0.0/8.
use mossward.Common.{
  ℕ, ◌-◌, ◌≡◌, ◌≢◌, ◌≤◌, refl, Bool, false, not, ◌&&◌, Option, none, some, [], ◌∷◌, ◌==◌,
  if◌then◌else◌, length, Text, codes, text_eq, trim_space, byte_length, ok, All,
}
use mossward.CoveragePolicy.Normalization.{
  shift_right, Prefixes, CoverageDiscoveryPolicy, seen_text, parse_prefixes, is_inside,
  within_allowed_scope, normalize_cidrs, normalize,
}
use mossward.CoveragePolicy.Containment.{Within, Unique, normalize-Within}

abbrev two_networks : Text → Option (ℕ × ℕ)
two_networks t =
    if text_eq t (codes "10.0.0.0/8")
    then some (0x0A000000, 8)
    else if text_eq t (codes "10.1.0.0/16")
    then some (0x0A010000, 16)
    else none

abbrev holds : ℕ × ℕ → ℕ → Bool
holds (v, n) a = not false && 32 == 32 && shift_right (32 - n) v == shift_right (32 - n) a

abbrev ipv4 : Prefixes ℕ (ℕ × ℕ)
ipv4 = record {
  parse_prefix = two_networks;
  address = λ p. p.0;
  bits = λ p. p.1;
  masked = λ p. p;
  string = λ p. if p.1 == 8 then codes "10.0.0.0/8" else codes "10.1.0.0/16";
  contains = λ p a. holds p a;
  bit_len = λ a. 32;
  value = λ a. a;
  zoned = λ a. false;
  contains_iff = λ p a. refl;
  contains_masked = λ p a. refl;
}

abbrev office : CoverageDiscoveryPolicy
office = record { name = codes " office "; cidrs = codes "10.1.0.0/16" ∷ [] }

abbrev trimmed_office : CoverageDiscoveryPolicy
trimmed_office = record { name = codes "office"; cidrs = codes "10.1.0.0/16" ∷ [] }

normalized_office : normalize ipv4 office (codes "10.0.0.0/8" ∷ []) ≡ ok trimmed_office
unfolding normalize parse_prefixes normalize_cidrs within_allowed_scope is_inside seen_text
    shift_right text_eq trim_space byte_length
normalized_office = refl

normalize-Within_example :
    (trimmed_office.name ≢ [])
    × (byte_length trimmed_office.name ≤ 100)
    × (length trimmed_office.cidrs ≡ length office.cidrs)
    × (1 ≤ length trimmed_office.cidrs)
    × (length trimmed_office.cidrs ≤ 50)
    × Unique trimmed_office.cidrs
    × All (Within ipv4 (codes "10.0.0.0/8" ∷ [])) trimmed_office.cidrs
normalize-Within_example =
    normalize-Within ipv4 office trimmed_office (codes "10.0.0.0/8" ∷ []) normalized_office
