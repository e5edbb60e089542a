-- ===== src/RelayTransport/Failover/Availability.antt =====
-- internal/relaytransport/failover.go: which routes availableRouteIDs reports as healthy.
use mossward.Common.{
  ℕ, ◌+◌, ◌≤◌, ◌≡◌, ◌↔◌, ◌∙◌, refl, Bool, true, false, ◌&&◌, List, [], ◌∷◌, arith, Bool-cases, inl,
  inr, ◌==◌, if◌then◌else◌, Text, text_eq, text_eq_iff, is_empty, Time, ℤ,
}
use mossward.RelayTransport.Failover.Defs.{
  RouteAvailability, TextSet, no_texts, usable, observe_one, observe, available_route_ids,
}

-- How many observations name the route, and how many of them pass the checks.
pub reports : Text → List RouteAvailability → ℕ
reports id [] = 0
reports id (o ∷ os) = (if text_eq o.route_id id then 1 else 0) + reports id os

pub usable_reports : ℤ → Time → Text → List RouteAvailability → ℕ
usable_reports age now id [] = 0
usable_reports age now id (o ∷ os) =
    (if text_eq o.route_id id && usable age now o then 1 else 0) + usable_reports age now id os

usable_reports-le :
    (age : ℤ) (now : Time) (id : Text) (os : List RouteAvailability)
    → usable_reports age now id os ≤ reports id os
unfolding reports usable_reports
usable_reports-le age now id [] = omega arith
usable_reports-le age now id (o ∷ os) = elim (Bool-cases (text_eq o.route_id id)) [
  | inl e ↦ elim (Bool-cases (usable age now o)) [
    | inl u ↦ ground (arith, usable_reports-le age now id os, e, u)
    | inr u ↦ ground (arith, usable_reports-le age now id os, e, u)
  ]
  | inr e ↦ ground (arith, usable_reports-le age now id os, e)
]

-- What the loop leaves for a route: once seen it stays available only without another report.
abbrev loop_value : ℤ → Time → Text → List RouteAvailability → Bool → Bool → Bool
loop_value age now id os available seen =
    if seen
    then (available && (reports id os == 0))
    else ((reports id os == 1) && (usable_reports age now id os == 1))

-- One observation, with the checks as a Boolean.
step_value :
    (age : ℤ) (now : Time) (id : Text) (o : RouteAvailability) (os : List RouteAvailability)
    (available seen : TextSet)
    → is_empty id ≡ false
    → (seen id ≡ false → available id ≡ false)
    → loop_value age now id os
        ((observe_one age now o available seen).0 id)
        ((observe_one age now o available seen).1 id)
      ≡ loop_value age now id (o ∷ os) (available id) (seen id)
unfolding observe_one reports usable_reports
step_value age now id o os available seen h k = elim (Bool-cases (text_eq o.route_id id)) [
  | inl e ↦ elim (Bool-cases (usable age now o)) [
    | inl u ↦ ground (arith, text_eq_iff o.route_id id, e, u, usable_reports-le age now id os)
    | inr u ↦ ground (arith, text_eq_iff o.route_id id, e, u, usable_reports-le age now id os)
  ]
  | inr e ↦ ground (arith, e)
]

step_unseen :
    (age : ℤ) (now : Time) (id : Text) (o : RouteAvailability) (available seen : TextSet)
    → (seen id ≡ false → available id ≡ false)
    → (observe_one age now o available seen).1 id ≡ false
    → (observe_one age now o available seen).0 id ≡ false
unfolding observe_one
step_unseen age now id o available seen k = ground arith

observe_lem :
    (age : ℤ) (now : Time) (id : Text) (os : List RouteAvailability) (available seen : TextSet)
    → is_empty id ≡ false
    → (seen id ≡ false → available id ≡ false)
    → observe age now os available seen id ≡ loop_value age now id os (available id) (seen id)
unfolding observe reports usable_reports
observe_lem age now id [] available seen h k = ground (arith, k)
observe_lem age now id (o ∷ os) available seen h k =
    observe_lem age now id os (observe_one age now o available seen).0
      (observe_one age now o available seen).1 h (step_unseen age now id o available seen k)
    ∙ step_value age now id o os available seen h k

-- A route with an ID is reported as available exactly when one observation names it, and that one
-- passes the checks: a second report of any kind takes the route out.
available_route_ids_lem :
    (os : List RouteAvailability) (age : ℤ) (now : Time) (id : Text)
    → is_empty id ≡ false
    → (available_route_ids os age now id ≡ true)
      ↔ ((reports id os ≡ 1) × (usable_reports age now id os ≡ 1))
unfolding available_route_ids
available_route_ids_lem os age now id h =
    let e = observe_lem age now id os no_texts no_texts h (λ _. refl) in ground (arith, e)
