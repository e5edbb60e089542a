-- ===== src/RelayTransport/Failover/Policy.antt =====
-- internal/relaytransport/failover.go: what a policy that passes validateFailoverPolicy looks like,
-- and its routes in the order of their priorities.
use mathlib.Core.List.{Perm}
use mathlib.Core.List.Perm
use mossward.Common.{
  ℕ, ◌+◌, ◌≤◌, ◌≡◌, Bool, false, ◌||◌, List, [], ◌∷◌, arith, All, Bool-cases, inl, inr, length,
  Text, text_eq, is_blank, Result-cases, ok, ℤ, pos, ◌≤ℤ◌, ltb_ℤ, eq_ℤ,
}
use mossward.RelayTransport.Failover.Defs.{
  RouteKind, relay, direct, other, ApprovedRoute, FailoverPolicy, TextSet, no_texts, kind_check,
  check_routes, validate_failover_policy, insert_route, sort_routes,
}

abbrev pub is_direct : RouteKind → ℕ
is_direct relay = 0
is_direct direct = 1
is_direct (other k) = 0

pub direct_routes : List ApprovedRoute → ℕ
direct_routes [] = 0
direct_routes (r ∷ rs) = is_direct r.kind + direct_routes rs

-- The ID and the priority of a route differ from those of every later route.
abbrev pub Apart : List ApprovedRoute → Type 0
Apart [] = Unit {0}
Apart (r ∷ rs) =
    All (λ s. (text_eq r.id s.id ≡ false) × (eq_ℤ r.priority s.priority ≡ false)) rs × Apart rs

abbrev pub IsNamed : ApprovedRoute → Type 0
IsNamed r = (is_blank r.id ≡ false) × (pos 1 ≤ℤ r.priority)

-- A route that the maps of the loop do not hold yet.
abbrev Unseen : TextSet → (ℤ → Bool) → ApprovedRoute → Type 0
Unseen ids priorities r = (ids r.id ≡ false) × (priorities r.priority ≡ false)

record Checked (ids : TextSet) (priorities : ℤ → Bool) (directs : ℕ) (rs : List ApprovedRoute)
    : Type 0 where
  unseen : All (Unseen ids priorities) rs
  apart : Apart rs
  named : All IsNamed rs
  directs_bound : directs ≤ 1 → directs + direct_routes rs ≤ 1

weaken :
    (ids : TextSet) (priorities : ℤ → Bool) (r : ApprovedRoute) (rs : List ApprovedRoute)
    → All (Unseen (λ t. text_eq r.id t || ids t) (λ p. eq_ℤ r.priority p || priorities p)) rs
    → All (Unseen ids priorities) rs
      × All (λ s. (text_eq r.id s.id ≡ false) × (eq_ℤ r.priority s.priority ≡ false)) rs
weaken ids priorities r [] h = (tt, tt)
weaken ids priorities r (s ∷ rs) h =
    let (u, a) = weaken ids priorities r rs h.1 in
    ((ground (arith, h.0), u), (ground (arith, h.0), a))

kind_check_lem :
    (k : RouteKind) (endpoint relay_id : Text) (directs n : ℕ)
    → kind_check k endpoint relay_id directs ≡ ok n
    → (n ≡ directs + is_direct k) × (directs ≤ 1 → n ≤ 1)
unfolding kind_check
kind_check_lem relay endpoint relay_id directs n h = (ground arith, λ b. ground (arith, b))
kind_check_lem direct endpoint relay_id directs n h = (ground arith, λ b. ground (arith, b))
kind_check_lem (other k) endpoint relay_id directs n h = absurd (ground arith)

check_routes-Checked :
    (endpoint : Text) (rs : List ApprovedRoute) (ids : TextSet) (priorities : ℤ → Bool)
    (directs : ℕ)
    → check_routes endpoint rs ids priorities directs ≡ ok tt
    → Checked ids priorities directs rs
unfolding check_routes direct_routes
check_routes-Checked endpoint [] ids priorities directs h = record {
  unseen = tt;
  apart = tt;
  named = tt;
  directs_bound = λ b. omega (arith, b);
}
check_routes-Checked endpoint (r ∷ rs) ids priorities directs h =
    elim (Result-cases (kind_check r.kind endpoint r.relay_endpoint_id directs)) [
      | inr (e, k) ↦ absurd (ground (arith, k, h))
      | inl (n, k) ↦
          let rest =
            check_routes-Checked endpoint rs (λ t. text_eq r.id t || ids t)
              (λ p. eq_ℤ r.priority p || priorities p) n (ground (arith, k, h)) in
          let (u, a) = weaken ids priorities r rs rest.unseen in
          let (count, bound) = kind_check_lem r.kind endpoint r.relay_endpoint_id directs n k in
          record {
            unseen = (ground (arith, k, h), u);
            apart = (a, rest.apart);
            named = (ground (arith, k, h), rest.named);
            directs_bound = λ b. omega (arith, rest.directs_bound, bound, count, b);
          }
    ]

-- What a valid policy has: between 1 and 16 routes, with IDs that are not blank and priorities from
-- 1 on, no two of which agree in either, at most one direct route, and a threshold from 1 to 10.
pub record IsPolicy (p : FailoverPolicy) : Type 0 where
  pub apart : Apart p.routes
  pub named : All IsNamed p.routes
  pub one_direct : direct_routes p.routes ≤ 1
  pub some_routes : 1 ≤ length p.routes
  pub few_routes : length p.routes ≤ 16
  pub threshold_low : pos 1 ≤ℤ p.failure_threshold
  pub threshold_high : p.failure_threshold ≤ℤ pos 10

-- A policy that passes validateFailoverPolicy has 1 to 16 routes with names, distinct IDs and distinct
-- positive priorities, at most one direct route, and a failure threshold from 1 to 10.
pub validate_failover_policy-IsPolicy :
    (p : FailoverPolicy) → validate_failover_policy p ≡ ok tt → IsPolicy p
unfolding validate_failover_policy
validate_failover_policy-IsPolicy p h =
    let c =
      check_routes-Checked p.endpoint_id p.routes no_texts (λ _. false) 0 (ground (arith, h)) in
    record {
      apart = c.apart;
      named = c.named;
      one_direct = omega (arith, c.directs_bound);
      some_routes = ground (arith, h);
      few_routes = ground (arith, h);
      threshold_low = ground (arith, h);
      threshold_high = ground (arith, h);
    }

abbrev pub IsSorted : List ApprovedRoute → Type 0
IsSorted [] = Unit {0}
IsSorted (r ∷ rs) = All (λ s. r.priority ≤ℤ s.priority) rs × IsSorted rs

pub insert_route-All {κ} :
    (P : ApprovedRoute → Type κ) (r : ApprovedRoute) (rs : List ApprovedRoute)
    → P r
    → All P rs
    → All P (insert_route r rs)
unfolding insert_route
insert_route-All P r [] p h = (p, tt)
insert_route-All P r (s ∷ rs) p h = elim (Bool-cases (ltb_ℤ s.priority r.priority)) [
  | inl e ↦ rw e (h.0, insert_route-All P r rs p h.1)
  | inr e ↦ rw e (p, h)
]

pub sort_routes-All {κ} :
    (P : ApprovedRoute → Type κ) (rs : List ApprovedRoute) → All P rs → All P (sort_routes rs)
unfolding sort_routes
sort_routes-All P [] h = tt
sort_routes-All P (r ∷ rs) h = insert_route-All P r (sort_routes rs) h.0 (sort_routes-All P rs h.1)

lower_all :
    (m n : ℤ) (rs : List ApprovedRoute)
    → m ≤ℤ n
    → All (λ s. n ≤ℤ s.priority) rs
    → All (λ s. m ≤ℤ s.priority) rs
lower_all m n [] h a = tt
lower_all m n (s ∷ rs) h a = (omega (arith, a.0), lower_all m n rs h a.1)

insert_route-IsSorted :
    (r : ApprovedRoute) (rs : List ApprovedRoute) → IsSorted rs → IsSorted (insert_route r rs)
unfolding insert_route
insert_route-IsSorted r [] h = (tt, tt)
insert_route-IsSorted r (s ∷ rs) h = elim (Bool-cases (ltb_ℤ s.priority r.priority)) [
  | inl e ↦ rw e (
    insert_route-All (λ t. s.priority ≤ℤ t.priority) r rs (ground (arith, e)) h.0,
    insert_route-IsSorted r rs h.1,
  )
  | inr e ↦
      rw e ((ground (arith, e), lower_all r.priority s.priority rs (ground (arith, e)) h.0), h)
]

insert_route-perm :
    (r : ApprovedRoute) (rs : List ApprovedRoute) → Perm (insert_route r rs) (r ∷ rs)
unfolding insert_route
insert_route-perm r [] = Perm.refl (r ∷ [])
insert_route-perm r (s ∷ rs) = elim (Bool-cases (ltb_ℤ s.priority r.priority)) [
  | inl e ↦ rw e (Perm.trans (Perm.cons s (insert_route-perm r rs)) (Perm.swap r s rs))
  | inr e ↦ rw e (Perm.refl (r ∷ s ∷ rs))
]

-- The controller's routes are those of the policy, in the order of their priorities.
pub sort_routes-IsSorted :
    (rs : List ApprovedRoute) → IsSorted (sort_routes rs) × Perm (sort_routes rs) rs
unfolding sort_routes
sort_routes-IsSorted [] = (tt, Perm.refl [])
sort_routes-IsSorted (r ∷ rs) =
    let (sorted, perm) = sort_routes-IsSorted rs in
    (
      insert_route-IsSorted r (sort_routes rs) sorted,
      Perm.trans (insert_route-perm r (sort_routes rs)) (Perm.cons r perm),
    )
