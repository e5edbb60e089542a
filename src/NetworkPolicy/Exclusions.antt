-- ===== src/NetworkPolicy/Exclusions.antt =====
-- internal/networkpolicy/policy.go, internal/model/endpoint.go: exclusions, Normalize and Filter. The
-- package net/netip and the case mappings of the package strings are the record `Library`.
use mossward.Common.{
  ◌≡◌, Bool, true, false, ◌||◌, ◌&&◌, not, Option, some, none, List, [], ◌∷◌, ◌++◌, ltb, leb, ◌==◌,
  if◌then◌else◌, length, Text, text_eq, is_empty, byte_length, codes, trim_space, split_dots,
  Result, ok, err, ◌>>=◌, ◌>>◌, reject_if,
}

-- `other` is any string that is none of the constants.
pub data NetworkExclusionKind : Type 0 where
  process_name executable ip cidr hostname : NetworkExclusionKind
  other : Text → NetworkExclusionKind

pub record NetworkTelemetryExclusion : Type 0 where
  pub kind : NetworkExclusionKind
  pub value : Text

pub record NetworkTelemetryExclusions : Type 0 where
  pub applications : List NetworkTelemetryExclusion
  pub destinations : List NetworkTelemetryExclusion

-- The fields that the package reads.
pub record NetworkConnection : Type 0 where
  pub remote_address : Text
  pub process_name : Text
  pub executable : Text
  pub remote_hostname : Text

pub data ExclusionError : Type 0 where
  too_many duplicate value_invalid bad_application bad_ip bad_cidr bad_hostname bad_kind :
      ExclusionError

-- Addresses `A` and prefixes `P`: what net/netip reads, writes and compares, strings.ToLower and
-- strings.EqualFold. What was read is read again from the text that is written of it, and masking a
-- prefix twice is masking it once.
pub record Library (A P : Type 0) : Type 0 where
  pub parse_addr : Text → Option A
  pub addr_string : A → Text
  pub parse_prefix : Text → Option P
  pub masked : P → P
  pub prefix_string : P → Text
  pub contains : P → A → Bool
  pub to_lower : Text → Text
  pub equal_fold : Text → Text → Bool
  pub parse-addr_string :
      (t : Text) (a : A) → parse_addr t ≡ some a → parse_addr (addr_string a) ≡ some a
  pub parse-prefix_string :
      (t : Text) (p : P)
      → parse_prefix t ≡ some p
      → parse_prefix (prefix_string (masked p)) ≡ some (masked p)
  pub masked-masked : (p : P) → masked (masked p) ≡ masked p

-- `strings.TrimSuffix(value, ".")`
abbrev pub trim_dot : Text → Text
trim_dot [] = []
trim_dot (c ∷ []) = if c == b'.' then [] else c ∷ []
trim_dot (c ∷ d ∷ cs) = c ∷ trim_dot (d ∷ cs)

abbrev pub starts_with_dash : Text → Bool
starts_with_dash [] = false
starts_with_dash (c ∷ cs) = c == b'-'

abbrev pub ends_with_dash : Text → Bool
ends_with_dash [] = false
ends_with_dash (c ∷ []) = c == b'-'
ends_with_dash (c ∷ d ∷ cs) = ends_with_dash (d ∷ cs)

abbrev pub host_chars : Text → Bool
host_chars [] = true
host_chars (c ∷ cs) =
    ((leb b'a' c && leb c b'z') || (leb b'0' c && leb c b'9') || c == b'-') && host_chars cs

abbrev pub valid_label : Text → Bool
valid_label label =
    not (ltb (byte_length label) 1)
    && not (ltb 63 (byte_length label))
    && not (starts_with_dash label)
    && not (ends_with_dash label)
    && host_chars label

abbrev pub valid_labels : List Text → Bool
valid_labels [] = true
valid_labels (l ∷ ls) = valid_label l && valid_labels ls

abbrev pub is_found {ℓ} : {A : Type ℓ} → Option A → Bool
is_found none = false
is_found (some a) = true

unfoldable pub valid_hostname : {A P : Type 0} → Library A P → Text → Bool
valid_hostname lib value =
    not (ltb (byte_length value) 1)
    && not (ltb 253 (byte_length value))
    && not (is_found (lib.parse_addr value))
    && valid_labels (split_dots value)

abbrev pub canonical_ip :
    {A P : Type 0} → Library A P → Option A → Result ExclusionError NetworkTelemetryExclusion
canonical_ip lib none = err bad_ip
canonical_ip lib (some a) = ok (record { kind = ip; value = lib.addr_string a })

abbrev pub canonical_cidr :
    {A P : Type 0} → Library A P → Option P → Result ExclusionError NetworkTelemetryExclusion
canonical_cidr lib none = err bad_cidr
canonical_cidr lib (some p) = ok (record { kind = cidr; value = lib.prefix_string (lib.masked p) })

-- normalize for an application.
abbrev pub application_kind :
    NetworkExclusionKind → Text → Result ExclusionError NetworkTelemetryExclusion
application_kind process_name v = ok (record { kind = process_name; value = v })
application_kind executable v = ok (record { kind = executable; value = v })
application_kind _ v = err bad_application

-- normalize for a destination.
abbrev pub destination_kind :
    {A P : Type 0}
    → Library A P
    → NetworkExclusionKind
    → Text
    → Result ExclusionError NetworkTelemetryExclusion
destination_kind lib ip v = canonical_ip lib (lib.parse_addr v)
destination_kind lib cidr v = canonical_cidr lib (lib.parse_prefix v)
destination_kind lib hostname v =
    let name = lib.to_lower (trim_dot v) in
    if valid_hostname lib name
    then ok (record { kind = hostname; value = name })
    else err bad_hostname
destination_kind lib _ v = err bad_kind

unfoldable pub normalize :
    {A P : Type 0}
    → Library A P
    → NetworkTelemetryExclusion
    → Bool
    → Result ExclusionError NetworkTelemetryExclusion
unfolding valid_hostname
normalize lib e application = do
  let v = trim_space e.value
  reject_if (is_empty v || ltb 500 (byte_length v)) value_invalid
  if application then application_kind e.kind v else destination_kind lib e.kind v

-- `string(kind)`
abbrev pub kind_text : NetworkExclusionKind → Text
kind_text process_name = codes "process_name"
kind_text executable = codes "executable"
kind_text ip = codes "ip"
kind_text cidr = codes "cidr"
kind_text hostname = codes "hostname"
kind_text (other t) = t

abbrev pub key : NetworkTelemetryExclusion → Text
key e = kind_text e.kind ++ 0 ∷ e.value

abbrev pub has_key : List Text → Text → Bool
has_key [] k = false
has_key (s ∷ ss) k = text_eq s k || has_key ss k

-- The loop of normalizeList, with the map `seen` as the list of keys before.
unfoldable pub normalize_each :
    {A P : Type 0}
    → Library A P
    → Bool
    → List Text
    → List NetworkTelemetryExclusion
    → Result ExclusionError (List NetworkTelemetryExclusion)
unfolding normalize
normalize_each lib application seen [] = ok []
normalize_each lib application seen (e ∷ es) = do
  n ← normalize lib e application
  reject_if (has_key seen (key n)) duplicate
  rest ← normalize_each lib application (key n ∷ seen) es
  ok (n ∷ rest)

unfoldable pub normalize_list :
    {A P : Type 0}
    → Library A P
    → List NetworkTelemetryExclusion
    → Bool
    → Result ExclusionError (List NetworkTelemetryExclusion)
unfolding normalize_each
normalize_list lib es application = do
  reject_if (ltb 100 (length es)) too_many
  normalize_each lib application [] es

unfoldable pub normalize_policy :
    {A P : Type 0}
    → Library A P
    → NetworkTelemetryExclusions
    → Result ExclusionError NetworkTelemetryExclusions
unfolding normalize_list
normalize_policy lib p = do
  applications ← normalize_list lib p.applications true
  destinations ← normalize_list lib p.destinations false
  ok (record { applications = applications; destinations = destinations })

abbrev pub candidate : NetworkConnection → NetworkExclusionKind → Text
candidate c executable = c.executable
candidate c _ = c.process_name

unfoldable pub application_matches :
    {A P : Type 0} → Library A P → NetworkConnection → List NetworkTelemetryExclusion → Bool
application_matches lib c [] = false
application_matches lib c (e ∷ es) =
    lib.equal_fold (candidate c e.kind) e.value || application_matches lib c es

abbrev pub in_prefix : {A P : Type 0} → Library A P → Option P → Option A → Bool
in_prefix lib (some p) (some a) = lib.contains p a
in_prefix lib _ _ = false

abbrev pub destination_matches_kind :
    {A P : Type 0} → Library A P → NetworkConnection → NetworkExclusionKind → Text → Bool
destination_matches_kind lib c ip v = text_eq c.remote_address v
destination_matches_kind lib c hostname v = lib.equal_fold (trim_dot c.remote_hostname) v
destination_matches_kind lib c cidr v =
    in_prefix lib (lib.parse_prefix v) (lib.parse_addr c.remote_address)
destination_matches_kind lib c _ v = false

unfoldable pub some_destination :
    {A P : Type 0} → Library A P → NetworkConnection → List NetworkTelemetryExclusion → Bool
some_destination lib c [] = false
some_destination lib c (e ∷ es) =
    destination_matches_kind lib c e.kind e.value || some_destination lib c es

unfoldable pub excluded :
    {A P : Type 0} → Library A P → NetworkConnection → List NetworkTelemetryExclusions → Bool
unfolding application_matches some_destination
excluded lib c [] = false
excluded lib c (p ∷ ps) =
    application_matches lib c p.applications
    || some_destination lib c p.destinations
    || excluded lib c ps

unfoldable pub filter :
    {A P : Type 0}
    → Library A P
    → List NetworkConnection
    → List NetworkTelemetryExclusions
    → List NetworkConnection
unfolding excluded
filter lib [] ps = []
filter lib (c ∷ cs) ps = let rest = filter lib cs ps in if excluded lib c ps then rest else c ∷ rest
