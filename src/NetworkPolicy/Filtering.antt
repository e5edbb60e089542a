-- ===== src/NetworkPolicy/Filtering.antt =====
-- internal/networkpolicy/policy.go: what Filter keeps.
use mossward.Common.{
  ◌≡◌, refl, ◌∙◌, false, ◌||◌, List, [], ◌∷◌, ◌++◌, arith, All, inl, inr, Bool-cases,
}
use mossward.NetworkPolicy.Exclusions.{
  NetworkConnection, NetworkTelemetryExclusions, Library, excluded, filter,
}

excluded-append :
    {A P : Type 0} (lib : Library A P) (c : NetworkConnection)
    (ps qs : List NetworkTelemetryExclusions)
    → excluded lib c (ps ++ qs) ≡ (excluded lib c ps || excluded lib c qs)
unfolding excluded
excluded-append lib c [] qs = refl
excluded-append lib c (p ∷ ps) qs = ground (arith, excluded-append lib c ps qs)

filter-append :
    {A P : Type 0} (lib : Library A P) (cs : List NetworkConnection)
    (ps qs : List NetworkTelemetryExclusions)
    → filter lib cs (ps ++ qs) ≡ filter lib (filter lib cs ps) qs
unfolding filter
filter-append lib [] ps qs = refl
filter-append lib (c ∷ cs) ps qs = elim (Bool-cases (excluded lib c ps)) [
  | inl h ↦ ground (arith, h, excluded-append lib c ps qs, filter-append lib cs ps qs)
  | inr h ↦ ground (arith, h, excluded-append lib c ps qs, filter-append lib cs ps qs)
]

excluded-perm :
    {A P : Type 0} (lib : Library A P) (c : NetworkConnection)
    (ps qs : List NetworkTelemetryExclusions)
    → excluded lib c (ps ++ qs) ≡ excluded lib c (qs ++ ps)
excluded-perm lib c ps qs = ground (arith, excluded-append lib c ps qs, excluded-append lib c qs ps)

filter-same :
    {A P : Type 0} (lib : Library A P) (cs : List NetworkConnection)
    (ps qs : List NetworkTelemetryExclusions)
    → ((c : NetworkConnection) → excluded lib c ps ≡ excluded lib c qs)
    → filter lib cs ps ≡ filter lib cs qs
unfolding filter
filter-same lib [] ps qs h = refl
filter-same lib (c ∷ cs) ps qs h = ground (arith, h c, filter-same lib cs ps qs h)

filter_kept :
    {A P : Type 0} (lib : Library A P) (cs : List NetworkConnection)
    (ps : List NetworkTelemetryExclusions)
    → All (λ c. excluded lib c ps ≡ false) (filter lib cs ps)
unfolding filter
filter_kept lib [] ps = tt
filter_kept lib (c ∷ cs) ps = elim (Bool-cases (excluded lib c ps)) [
  | inl h ↦ rw h (filter_kept lib cs ps)
  | inr h ↦ rw h (h, filter_kept lib cs ps)
]

-- Filter by the policies of two lists at once is Filter by the one list and then by the other, in
-- either order; and no policy of the lists excludes a connection that is kept.
filter_lem :
    {A P : Type 0} (lib : Library A P) (cs : List NetworkConnection)
    (ps qs : List NetworkTelemetryExclusions)
    → (filter lib cs (ps ++ qs) ≡ filter lib (filter lib cs ps) qs)
      × (filter lib cs (ps ++ qs) ≡ filter lib (filter lib cs qs) ps)
      × All (λ c. excluded lib c (ps ++ qs) ≡ false) (filter lib cs (ps ++ qs))
filter_lem lib cs ps qs = (
  filter-append lib cs ps qs,
  filter-same lib cs (ps ++ qs) (qs ++ ps) (λ c. excluded-perm lib c ps qs)
      ∙ filter-append lib cs qs ps,
  filter_kept lib cs (ps ++ qs),
)
