-- ===== src/CoveragePolicy/Normalization.antt =====
-- internal/coveragepolicy/policy.go: Normalize. net/netip is the record `Prefixes`.
use mossward.Common.{
  ℕ, zero, suc, ◌-◌, ◌/◌, ◌≡◌, Bool, false, ◌||◌, ◌&&◌, not, Option, none, some, List, [], ◌∷◌, ltb,
  leb, ◌==◌, length, Text, text_eq, trim_space, is_empty, byte_length, Result, ok, err, ◌>>=◌, ◌>>◌,
  reject_if,
}

-- `x` without its last `k` bits.
unfoldable pub shift_right : ℕ → ℕ → ℕ
shift_right zero x = x
shift_right (suc k) x = shift_right k (x / 2)

-- An address is a number of `bit_len` bits, perhaps with a zone. A prefix holds the addresses of its
-- length, without a zone, that have its first bits, and masking keeps what a prefix holds.
pub record Prefixes (A P : Type 0) : Type 0 where
  pub parse_prefix : Text → Option P
  pub address : P → A
  pub bits : P → ℕ
  pub masked : P → P
  pub string : P → Text
  pub contains : P → A → Bool
  pub bit_len : A → ℕ
  pub value : A → ℕ
  pub zoned : A → Bool
  pub contains_iff :
      (p : P) (a : A)
      → contains p a ≡ (
          not (zoned a)
          && bit_len (address p) == bit_len a
          && shift_right (bit_len a - bits p) (value (address p))
            == shift_right (bit_len a - bits p) (value a))
  pub contains_masked : (p : P) (a : A) → contains (masked p) a ≡ contains p a

-- The fields that the package reads.
pub record CoverageDiscoveryPolicy : Type 0 where
  pub name : Text
  pub cidrs : List Text

pub data PolicyError : Type 0 where
  bad_name bad_count bad_allowed bad_cidr out_of_scope duplicate_cidr : PolicyError

abbrev pub or_policy_error {ℓ} : {A : Type ℓ} → Option A → PolicyError → Result PolicyError A
or_policy_error none e = err e
or_policy_error (some a) e = ok a

-- The map of the texts seen, as their list.
unfoldable pub seen_text : List Text → Text → Bool
seen_text [] t = false
seen_text (s ∷ ss) t = text_eq s t || seen_text ss t

module _ {A P : Type 0} (net : Prefixes A P) where
  unfoldable pub parse_prefixes : List Text → Result PolicyError (List P)
  parse_prefixes [] = ok []
  parse_prefixes (t ∷ ts) = do
    p ← or_policy_error (net.parse_prefix t) bad_allowed
    ps ← parse_prefixes ts
    ok (net.masked p ∷ ps)

  -- The condition of withinAllowedScope on one boundary.
  unfoldable pub is_inside : P → P → Bool
  is_inside c b =
      net.bit_len (net.address c) == net.bit_len (net.address b)
      && leb (net.bits b) (net.bits c)
      && net.contains b (net.address c)

  unfoldable pub within_allowed_scope : P → List P → Bool
  within_allowed_scope c [] = false
  within_allowed_scope c (b ∷ bs) = is_inside c b || within_allowed_scope c bs

  unfoldable pub normalize_cidrs : List P → List Text → List Text → Result PolicyError (List Text)
  normalize_cidrs allowed seen [] = ok []
  normalize_cidrs allowed seen (raw ∷ raws) = do
    p ← or_policy_error (net.parse_prefix (trim_space raw)) bad_cidr
    reject_if (not (within_allowed_scope (net.masked p) allowed)) out_of_scope
    reject_if (seen_text seen (net.string (net.masked p))) duplicate_cidr
    rest ← normalize_cidrs allowed (net.string (net.masked p) ∷ seen) raws
    ok (net.string (net.masked p) ∷ rest)

  -- Normalize; with an error the caller drops the policy.
  unfoldable pub normalize :
      CoverageDiscoveryPolicy → List Text → Result PolicyError CoverageDiscoveryPolicy
  unfolding parse_prefixes normalize_cidrs
  normalize policy allowed_cidrs = do
    reject_if (is_empty (trim_space policy.name) || ltb 100 (byte_length (trim_space policy.name)))
        bad_name
    reject_if (length policy.cidrs == 0 || ltb 50 (length policy.cidrs)) bad_count
    allowed ← parse_prefixes allowed_cidrs
    cidrs ← normalize_cidrs allowed [] policy.cidrs
    ok (record policy { name = trim_space policy.name; cidrs = cidrs })
