-- ===== src/NetworkPolicy/Examples.antt =====
-- The theorems on internal/networkpolicy at a policy on a process, a host and an address. In `numbers` the
-- addresses are the digits, and a prefix holds the address of its own number.
use mossward.Common.{
  ℕ, arith, ◌+◌, ◌-◌, ◌==◌, ◌≡◌, refl, true, false, ◌&&◌, leb, if◌then◌else◌, Option, some, none,
  [], ◌∷◌, ok, Text, codes, text_eq, byte_length, trim_space, split_dots,
}
use mossward.NetworkPolicy.Exclusions.{
  process_name, hostname, ip, NetworkTelemetryExclusions, Library, valid_hostname, normalize,
  normalize_each, normalize_list, normalize_policy,
}
use mossward.NetworkPolicy.Normalized.{IsNormalized, normalize_policy-IsNormalized}

abbrev parse_digit : Text → Option ℕ
parse_digit (c ∷ []) = if leb b'0' c && leb c b'9' then some (c - b'0') else none
parse_digit _ = none

abbrev digit : ℕ → Text
digit n = (n + b'0') ∷ []

parse-digit : (t : Text) (n : ℕ) → parse_digit t ≡ some n → parse_digit (digit n) ≡ some n
parse-digit [] n h = absurd (ground (arith, h))
parse-digit (c ∷ []) n h = ground (arith, h)
parse-digit (c ∷ d ∷ cs) n h = absurd (ground (arith, h))

abbrev numbers : Library ℕ ℕ
numbers = record {
  parse_addr = parse_digit;
  addr_string = digit;
  parse_prefix = parse_digit;
  masked = λ n. n;
  prefix_string = digit;
  contains = λ p a. p == a;
  to_lower = λ t. t;
  equal_fold = text_eq;
  parse-addr_string = parse-digit;
  parse-prefix_string = parse-digit;
  masked-masked = λ n. refl;
}

abbrev policy : NetworkTelemetryExclusions
policy = record {
  applications = record { kind = process_name; value = codes " sshd" } ∷ [];
  destinations =
      record { kind = hostname; value = codes "a.b." }
      ∷ record { kind = ip; value = codes " 7" }
      ∷ [];
}

abbrev cleaned : NetworkTelemetryExclusions
cleaned = record {
  applications = record { kind = process_name; value = codes "sshd" } ∷ [];
  destinations =
      record { kind = hostname; value = codes "a.b" }
      ∷ record { kind = ip; value = codes "7" }
      ∷ [];
}

normalizes : normalize_policy numbers policy ≡ ok cleaned
unfolding normalize_policy normalize_list normalize_each normalize valid_hostname trim_space text_eq
    split_dots byte_length
normalizes = refl

normalize_policy-IsNormalized_example :
    IsNormalized numbers true cleaned.applications × IsNormalized numbers false cleaned.destinations
normalize_policy-IsNormalized_example =
    normalize_policy-IsNormalized numbers policy cleaned normalizes
