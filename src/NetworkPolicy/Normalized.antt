-- ===== src/NetworkPolicy/Normalized.antt =====
-- internal/networkpolicy/policy.go: what a policy is like after Normalize.
use mossward.Common.{
  ℕ, ◌≡◌, ◌≤◌, ◌⊎◌, refl, none, some, Option-cases, byte_length, split_dots, Bool, true, false,
  List, [], ◌∷◌, arith, All, length, Text, text_eq, is_empty, Result-cases, ok, Bool-cases,
  trim_space, inl, inr, subst,
}
use mossward.NetworkPolicy.Exclusions.{
  NetworkExclusionKind, process_name, executable, ip, cidr, hostname, other,
  NetworkTelemetryExclusion, NetworkTelemetryExclusions, Library, valid_hostname, application_kind,
  host_chars, valid_labels, starts_with_dash, ends_with_dash, trim_dot, destination_kind, normalize,
  key, has_key, normalize_each, normalize_list, normalize_policy,
}

-- No exclusion has the key of a later one.
abbrev pub Distinct : List NetworkTelemetryExclusion → Type 0
Distinct [] = Unit {0}
Distinct (e ∷ es) = All (λ f. text_eq (key e) (key f) ≡ false) es × Distinct es

-- A lowercase letter, a digit or a dash.
abbrev pub HostChar : ℕ → Type 0
HostChar c = ((b'a' ≤ c) × (c ≤ b'z')) ⊎ ((b'0' ≤ c) × (c ≤ b'9')) ⊎ (c ≡ b'-')

-- 1 to 63 bytes of such characters, with a dash at neither end.
pub record IsLabel (label : Text) : Type 0 where
  pub shortest : 1 ≤ byte_length label
  pub longest : byte_length label ≤ 63
  pub first : starts_with_dash label ≡ false
  pub last : ends_with_dash label ≡ false
  pub chars : All HostChar label

-- What the value of an exclusion is. An application is excluded by its process name or its executable;
-- a destination by an address or a masked prefix, as net/netip writes it, or by a hostname, which is
-- of 1 to 253 bytes, no address, and labels between dots.
pub data Normal {A P : Type 0} (lib : Library A P)
    : Bool → NetworkExclusionKind → Text → Type 0 where
  a_process : {v : Text} → is_empty v ≡ false → Normal lib true process_name v
  an_executable : {v : Text} → is_empty v ≡ false → Normal lib true executable v
  an_address :
      (a : A)
      → lib.parse_addr (lib.addr_string a) ≡ some a
      → Normal lib false ip (lib.addr_string a)
  a_prefix :
      (p : P)
      → lib.parse_prefix (lib.prefix_string p) ≡ some p
      → lib.masked p ≡ p
      → Normal lib false cidr (lib.prefix_string p)
  a_host :
      {v : Text}
      → 1 ≤ byte_length v
      → byte_length v ≤ 253
      → lib.parse_addr v ≡ none
      → All IsLabel (split_dots v)
      → Normal lib false hostname v

host_chars-HostChar : (label : Text) → host_chars label ≡ true → All HostChar label
host_chars-HostChar [] h = tt
host_chars-HostChar (c ∷ cs) h = (ground (arith, h), host_chars-HostChar cs (ground (arith, h)))

valid_labels-IsLabel : (ls : List Text) → valid_labels ls ≡ true → All IsLabel ls
valid_labels-IsLabel [] h = tt
valid_labels-IsLabel (l ∷ ls) h = (
  record {
    shortest = ground (arith, h);
    longest = ground (arith, h);
    first = ground (arith, h);
    last = ground (arith, h);
    chars = host_chars-HostChar l (ground (arith, h));
  },
  valid_labels-IsLabel ls (ground (arith, h)),
)

valid_hostname-Normal :
    {A P : Type 0} (lib : Library A P) (v : Text)
    → valid_hostname lib v ≡ true
    → Normal lib false hostname v
unfolding valid_hostname
valid_hostname-Normal lib v h = elim (Option-cases (lib.parse_addr v)) [
  | inr (a, e) ↦ absurd (ground (arith, h, e))
  | inl e ↦
      a_host (ground (arith, h, e)) (ground (arith, h, e)) e
        (valid_labels-IsLabel (split_dots v) (ground (arith, h, e)))
]

-- The exclusion that `n` is equal to has the property of `n`.
same-Normal :
    {A P : Type 0} (lib : Library A P) (application : Bool) (m n : NetworkTelemetryExclusion)
    → m ≡ n
    → Normal lib application m.kind m.value
    → Normal lib application n.kind n.value
same-Normal lib application m n e h = subst (λ x. Normal lib application x.kind x.value) e h

application_kind-Normal :
    {A P : Type 0} (lib : Library A P) (k : NetworkExclusionKind) (v : Text)
    (n : NetworkTelemetryExclusion)
    → is_empty v ≡ false
    → application_kind k v ≡ ok n
    → Normal lib true n.kind n.value
application_kind-Normal lib process_name v n h e =
    same-Normal lib true (record { kind = process_name; value = v }) n (ground (arith, e))
      (a_process h)
application_kind-Normal lib executable v n h e =
    same-Normal lib true (record { kind = executable; value = v }) n (ground (arith, e))
      (an_executable h)
application_kind-Normal lib ip v n h e = absurd (ground (arith, e))
application_kind-Normal lib cidr v n h e = absurd (ground (arith, e))
application_kind-Normal lib hostname v n h e = absurd (ground (arith, e))
application_kind-Normal lib (other t) v n h e = absurd (ground (arith, e))

destination_kind-Normal :
    {A P : Type 0} (lib : Library A P) (k : NetworkExclusionKind) (v : Text)
    (n : NetworkTelemetryExclusion)
    → destination_kind lib k v ≡ ok n
    → Normal lib false n.kind n.value
destination_kind-Normal lib process_name v n e = absurd (ground (arith, e))
destination_kind-Normal lib executable v n e = absurd (ground (arith, e))
destination_kind-Normal lib ip v n e = elim (Option-cases (lib.parse_addr v)) [
  | inl o ↦ absurd (ground (arith, e, o))
  | inr (a, o) ↦
      same-Normal lib false (record { kind = ip; value = lib.addr_string a }) n
        (ground (arith, e, o)) (an_address a (lib.parse-addr_string v a o))
]
destination_kind-Normal lib cidr v n e = elim (Option-cases (lib.parse_prefix v)) [
  | inl o ↦ absurd (ground (arith, e, o))
  | inr (p, o) ↦
      same-Normal lib false (record { kind = cidr; value = lib.prefix_string (lib.masked p) }) n
        (ground (arith, e, o))
        (a_prefix (lib.masked p) (lib.parse-prefix_string v p o) (lib.masked-masked p))
]
destination_kind-Normal lib hostname v n e =
    let name = lib.to_lower (trim_dot v) in
    elim (Bool-cases (valid_hostname lib name)) [
      | inr bad ↦ absurd (ground (arith, e, bad))
      | inl good ↦
          same-Normal lib false (record { kind = hostname; value = name }) n
            (ground (arith, e, good)) (valid_hostname-Normal lib name good)
    ]
destination_kind-Normal lib (other t) v n e = absurd (ground (arith, e))

normalize-Normal :
    {A P : Type 0} (lib : Library A P) (e n : NetworkTelemetryExclusion) (application : Bool)
    → normalize lib e application ≡ ok n
    → Normal lib application n.kind n.value
unfolding normalize
normalize-Normal lib e n true h =
    application_kind-Normal lib e.kind (trim_space e.value) n (ground (arith, h))
      (ground (arith, h))
normalize-Normal lib e n false h =
    destination_kind-Normal lib e.kind (trim_space e.value) n (ground (arith, h))

-- What a normalized list is like, after the keys `seen`.
record Listed {A P : Type 0} (lib : Library A P) (application : Bool) (seen : List Text)
    (out : List NetworkTelemetryExclusion) : Type 0 where
  fresh : All (λ e. has_key seen (key e) ≡ false) out
  distinct : Distinct out
  normal : All (λ e. Normal lib application e.kind e.value) out

unseen_tail :
    (k : Text) (seen : List Text) (es : List NetworkTelemetryExclusion)
    → All (λ e. has_key (k ∷ seen) (key e) ≡ false) es
    → All (λ e. has_key seen (key e) ≡ false) es × All (λ e. text_eq k (key e) ≡ false) es
unseen_tail k seen [] h = (tt, tt)
unseen_tail k seen (e ∷ es) h =
    let (rest, apart) = unseen_tail k seen es h.1 in
    ((ground (arith, h.0), rest), (ground (arith, h.0), apart))

normalize_each-Listed :
    {A P : Type 0} (lib : Library A P) (application : Bool) (seen : List Text)
    (es out : List NetworkTelemetryExclusion)
    → normalize_each lib application seen es ≡ ok out
    → Listed lib application seen out × (length out ≡ length es)
unfolding normalize_each
normalize_each-Listed lib application seen [] out h =
    let same : [] ≡ out = ground (arith, h) in
    subst (λ x. Listed lib application seen x × (length x ≡ 0)) same
      (record { fresh = tt; distinct = tt; normal = tt }, refl)
normalize_each-Listed lib application seen (e ∷ es) out h =
    elim (Result-cases (normalize lib e application)) [
      | inr (x, bad) ↦ absurd (ground (arith, bad, h))
      | inl (n, good) ↦ elim (Bool-cases (has_key seen (key n))) [
        | inl again ↦ absurd (ground (arith, good, again, h))
        | inr new ↦ elim (Result-cases (normalize_each lib application (key n ∷ seen) es)) [
          | inr (x, bad) ↦ absurd (ground (arith, good, new, bad, h))
          | inl (rest, tail) ↦
              let same : n ∷ rest ≡ out = ground (arith, good, new, tail, h) in
              let (listed, size) =
                normalize_each-Listed lib application (key n ∷ seen) es rest tail in
              let (unseen, apart) = unseen_tail (key n) seen rest listed.fresh in
              subst (λ x. Listed lib application seen x × (length x ≡ length (e ∷ es))) same
                (
                  record {
                    fresh = (new, unseen);
                    distinct = (apart, listed.distinct);
                    normal = (normalize-Normal lib e n application good, listed.normal);
                  },
                  ground (arith, size),
                )
        ]
      ]
    ]

-- What Normalize makes of one list of exclusions.
pub record IsNormalized {A P : Type 0} (lib : Library A P) (application : Bool)
    (es : List NetworkTelemetryExclusion) : Type 0 where
  pub few : length es ≤ 100
  pub distinct : Distinct es
  pub normal : All (λ e. Normal lib application e.kind e.value) es

normalize_list-IsNormalized :
    {A P : Type 0} (lib : Library A P) (es out : List NetworkTelemetryExclusion)
    (application : Bool)
    → normalize_list lib es application ≡ ok out
    → IsNormalized lib application out
unfolding normalize_list
normalize_list-IsNormalized lib es out application h =
    let (listed, size) = normalize_each-Listed lib application [] es out (ground (arith, h)) in
    record { few = ground (arith, h, size); distinct = listed.distinct; normal = listed.normal }

-- A policy that Normalize returns has at most 100 exclusions of each sort, none twice; each of an
-- application is a process name or an executable that is not empty, and each of a destination is an
-- address or a masked prefix that net/netip reads back from its text, or a hostname of at most 253
-- bytes that is no address and whose labels are of 1 to 63 lowercase letters, digits and inner dashes.
pub normalize_policy-IsNormalized :
    {A P : Type 0} (lib : Library A P) (p out : NetworkTelemetryExclusions)
    → normalize_policy lib p ≡ ok out
    → IsNormalized lib true out.applications × IsNormalized lib false out.destinations
unfolding normalize_policy
normalize_policy-IsNormalized lib p out h =
    elim (Result-cases (normalize_list lib p.applications true)) [
      | inr (x, bad) ↦ absurd (ground (arith, bad, h))
      | inl (as', apps) ↦ elim (Result-cases (normalize_list lib p.destinations false)) [
        | inr (x, bad) ↦ absurd (ground (arith, apps, bad, h))
        | inl (ds, dests) ↦ (
          normalize_list-IsNormalized lib p.applications out.applications true
              (ground (arith, apps, dests, h)),
          normalize_list-IsNormalized lib p.destinations out.destinations false
              (ground (arith, apps, dests, h)),
        )
      ]
    ]
