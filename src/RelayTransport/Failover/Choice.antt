-- ===== src/RelayTransport/Failover/Choice.antt =====
-- internal/relaytransport/failover.go: which route the controller takes, and what it counts.
use mossward.Common.{
  ◌≡◌, ◌⊎◌, subst, Bool, true, false, ◌||◌, not, Option-cases, some, none, List, [], ◌∷◌, arith,
  All, Bool-cases, inl, inr, if◌then◌else◌, Text, text_eq, text_eq_refl, is_empty, Time, Result, ok,
  err, ℤ, pos, ◌≤ℤ◌,
}
use mossward.RelayTransport.Failover.Defs.{
  ApprovedRoute, RouteAvailability, RouteDecision, FailoverController, FailoverError,
  active_route_healthy, approved_initial_route, approved_failover, no_approved_route, TextSet,
  available_route_ids, find_route, decide_on, fallback, keeps_active, select,
}
use mossward.RelayTransport.Failover.Policy.{IsNamed, IsSorted}

-- The controller between two calls: its routes are named and in order, the active route is none or
-- an approved one, and the failures do not pass the threshold.
pub record IsReady (c : FailoverController) : Type 0 where
  pub named : All IsNamed c.policy.routes
  pub sorted : IsSorted c.policy.routes
  pub approved :
      (c.active_route_id ≡ [])
      ⊎ ((r : ApprovedRoute) × (find_route c.active_route_id c.policy.routes ≡ some r))
  pub bounded : pos c.consecutive_failures ≤ℤ c.policy.failure_threshold

abbrev pub is_candidate : Text → TextSet → ApprovedRoute → Bool
is_candidate previous health r = not (text_eq r.id previous || not (health r.id))

-- `r` is a healthy route other than the previous one, and no such route has a smaller priority.
pub record IsBest (previous : Text) (health : TextSet) (rs : List ApprovedRoute) (r : ApprovedRoute)
    : Type 0 where
  pub present : (s : ApprovedRoute) × (find_route r.id rs ≡ some s)
  pub other : text_eq r.id previous ≡ false
  pub healthy : health r.id ≡ true
  pub smallest : All (λ s. is_candidate previous health s ≡ true → r.priority ≤ℤ s.priority) rs

from_all :
    (previous : Text) (health : TextSet) (n : ℤ) (rs : List ApprovedRoute)
    → All (λ s. n ≤ℤ s.priority) rs
    → All (λ s. is_candidate previous health s ≡ true → n ≤ℤ s.priority) rs
from_all previous health n [] h = tt
from_all previous health n (s ∷ rs) h = (λ _. h.0, from_all previous health n rs h.1)

found_again :
    (id : Text) (r : ApprovedRoute) (rs : List ApprovedRoute)
    → (s : ApprovedRoute) × (find_route id rs ≡ some s)
    → (s : ApprovedRoute) × (find_route id (r ∷ rs) ≡ some s)
unfolding find_route
found_again id r rs (s, e) = elim (Bool-cases (text_eq r.id id)) [
  | inl h ↦ (r, rw h)
  | inr h ↦ (s, rw h e)
]

fallback-IsBest :
    (previous : Text) (health : TextSet) (rs : List ApprovedRoute) (r : ApprovedRoute)
    → IsSorted rs
    → fallback previous health rs ≡ some r
    → IsBest previous health rs r
unfolding fallback find_route
fallback-IsBest previous health [] r s h = absurd (ground arith)
fallback-IsBest previous health (x ∷ rs) r s h =
    elim (Bool-cases (text_eq x.id previous || not (health x.id))) [
      | inl skip ↦
          let b = fallback-IsBest previous health rs r s.1 (ground (arith, skip, h)) in
          record {
            present = found_again r.id x rs b.present;
            other = b.other;
            healthy = b.healthy;
            smallest = (λ k. absurd (ground (arith, skip, k)), b.smallest);
          }
      | inr take ↦
          let e : x ≡ r = ground (arith, take, h) in
          subst (IsBest previous health (x ∷ rs)) e (record {
            present = (x, ground (arith, text_eq_refl x.id));
            other = ground (arith, take);
            healthy = ground (arith, take);
            smallest = (λ _. omega arith, from_all previous health x.priority rs s.0);
          })
    ]

fallback-none :
    (previous : Text) (health : TextSet) (rs : List ApprovedRoute)
    → fallback previous health rs ≡ none
    → All (λ s. is_candidate previous health s ≡ false) rs
unfolding fallback
fallback-none previous health [] h = tt
fallback-none previous health (x ∷ rs) h =
    elim (Bool-cases (text_eq x.id previous || not (health x.id))) [
      | inl skip ↦
          (ground (arith, skip), fallback-none previous health rs (ground (arith, skip, h)))
      | inr take ↦ absurd (ground (arith, take, h))
    ]

-- What Select may do with the health of the routes.
pub data Choice (c : FailoverController) (health : TextSet) (now : Time)
    (out : FailoverController × Result FailoverError RouteDecision) : Type 0 where
  kept :
      (r : ApprovedRoute)
      → keeps_active c health ≡ true
      → find_route c.active_route_id c.policy.routes ≡ some r
      → out ≡ (c, ok (decide_on c c.active_route_id active_route_healthy now r))
      → Choice c health now out
  moved :
      (r : ApprovedRoute)
      → keeps_active c health ≡ false
      → IsBest c.active_route_id health c.policy.routes r
      → out ≡ (
        record c { active_route_id = r.id; consecutive_failures = 0 },
        ok (
            decide_on c c.active_route_id
              (if is_empty c.active_route_id then approved_initial_route else approved_failover)
              now
              r),
      )
      → Choice c health now out
  stuck :
      keeps_active c health ≡ false
      → All (λ s. is_candidate c.active_route_id health s ≡ false) c.policy.routes
      → out ≡ (c, err no_approved_route)
      → Choice c health now out

-- Select on a ready controller keeps the active route when it is available and under the failure
-- threshold; else it takes the available other route of the smallest priority, and resets the
-- failures; else no other route is available, and it fails and changes nothing.
pub select-Choice :
    (c : FailoverController) (observations : List RouteAvailability) (now : Time)
    → IsReady c
    → Choice c
        (available_route_ids observations c.policy.observation_max_age now)
        now
        (select c observations now)
unfolding select
select-Choice c observations now v = elim (Bool-cases (keeps_active c health)) [
  | inl keep ↦ elim v.approved [
    | inl none_active ↦ absurd (ground (arith, keep, none_active))
    | inr (r, found) ↦ kept r keep found (ground (arith, keep, found))
  ]
  | inr move ↦ elim (Option-cases (fallback c.active_route_id health c.policy.routes)) [
    | inl e ↦
        stuck move (fallback-none c.active_route_id health c.policy.routes e)
          (ground (arith, move, e))
    | inr (r, e) ↦
        moved r move (fallback-IsBest c.active_route_id health c.policy.routes r v.sorted e)
          (ground (arith, move, e))
  ]
]
  where
    health : TextSet
    health = available_route_ids observations c.policy.observation_max_age now
