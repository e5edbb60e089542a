-- ===== src/RelayTransport/Failover/Control.antt =====
-- internal/relaytransport/failover.go: the controller over any sequence of calls.
use mossward.Common.{
  ℕ, zero, suc, ◌+◌, ◌≡◌, refl, subst, ◌∙◌, Bool, true, false, ◌||◌, not, Option-cases, List, [],
  arith, Bool-cases, inl, inr, Text, text_eq, text_eq_refl, is_empty, Time, Result, ok, pos, ◌≤ℤ◌,
  ltb_ℤ,
}
use mossward.RelayTransport.Failover.Defs.{
  FailoverPolicy, RouteAvailability, RouteDecision, FailoverController, FailoverError, TextSet,
  available_route_ids, sort_routes, new_failover_controller, find_route, select, record_delivery,
  select_approved_route, approve,
}
use mossward.RelayTransport.Failover.Policy.{
  IsNamed, validate_failover_policy-IsPolicy, sort_routes-All, sort_routes-IsSorted,
}
use mossward.RelayTransport.Failover.Choice.{IsReady, Choice, kept, moved, stuck, select-Choice}

new-IsReady :
    (p : FailoverPolicy) (c : FailoverController) → new_failover_controller p ≡ ok c → IsReady c
unfolding new_failover_controller
new-IsReady p c h =
    let v = validate_failover_policy-IsPolicy p (ground (arith, h)) in
    subst IsReady e (record {
      named = sort_routes-All IsNamed p.routes v.named;
      sorted = (sort_routes-IsSorted p.routes).0;
      approved = inl refl;
      bounded = omega (arith, v.threshold_low);
    })
  where
    e :
        record {
          policy = record p { routes = sort_routes p.routes };
          active_route_id = [];
          consecutive_failures = 0;
        }
        ≡ c
    e = ground (arith, h)

Choice-IsReady :
    (c : FailoverController) (health : TextSet) (now : Time)
    (out : FailoverController × Result FailoverError RouteDecision)
    → IsReady c
    → Choice c health now out
    → IsReady out.0
Choice-IsReady c health now out v (kept r keep found e) = rw e v
Choice-IsReady c health now out v (moved r move best e) = rw e (record {
  named = v.named;
  sorted = v.sorted;
  approved = inr best.present;
  bounded = omega (arith, v.bounded);
})
Choice-IsReady c health now out v (stuck move nobody e) = rw e v

select-IsReady :
    (c : FailoverController) (observations : List RouteAvailability) (now : Time)
    → IsReady c
    → IsReady (select c observations now).0
select-IsReady c observations now v =
    Choice-IsReady c _ now _ v (select-Choice c observations now v)

counted-IsReady :
    (c : FailoverController) (n : ℕ)
    → IsReady c
    → pos n ≤ℤ c.policy.failure_threshold
    → IsReady (record c { consecutive_failures = n })
counted-IsReady c n v h = record {
  named = v.named;
  sorted = v.sorted;
  approved = v.approved;
  bounded = h;
}

record_delivery-IsReady :
    (c : FailoverController) (id : Text) (succeeded : Bool)
    → IsReady c
    → IsReady (record_delivery c id succeeded).0
unfolding record_delivery
record_delivery-IsReady c id true v =
    elim (Bool-cases (is_empty id || not (text_eq id c.active_route_id))) [
      | inl e ↦ rw e v
      | inr e ↦ rw e (counted-IsReady c 0 v (omega (arith, v.bounded)))
    ]
record_delivery-IsReady c id false v =
    elim (Bool-cases (is_empty id || not (text_eq id c.active_route_id))) [
      | inl e ↦ rw e v
      | inr e ↦ elim (Bool-cases (ltb_ℤ (pos c.consecutive_failures) c.policy.failure_threshold)) [
        | inl lt ↦
            rw (e, lt) (counted-IsReady c (c.consecutive_failures + 1) v (ground (arith, lt)))
        | inr ge ↦ rw (e, ge) v
      ]
    ]

select_approved_route-IsReady :
    (c : FailoverController) (id : Text) (observations : List RouteAvailability) (now : Time)
    → IsReady c
    → IsReady (select_approved_route c id observations now).0
unfolding select_approved_route
select_approved_route-IsReady c id observations now v =
    elim (Bool-cases (available_route_ids observations c.policy.observation_max_age now id)) [
      | inr no_health ↦ rw no_health v
      | inl healthy ↦ elim (Option-cases (find_route id c.policy.routes)) [
        | inl e ↦ rw healthy (rw (e, approve) v)
        | inr (r, e) ↦ rw healthy (
            rw (e, approve)
              (record {
                named = v.named;
                sorted = v.sorted;
                approved = inr (r, e);
                bounded = omega (arith, v.bounded);
              }))
      ]
    ]

-- The controllers reached from a new one by any calls of its operations.
pub data Reached (p : FailoverPolicy) : FailoverController → Type 0 where
  created : {c : FailoverController} → new_failover_controller p ≡ ok c → Reached p c
  selected :
      {c : FailoverController} (observations : List RouteAvailability) (now : Time)
      → Reached p c
      → Reached p (select c observations now).0
  recorded :
      {c : FailoverController} (id : Text) (succeeded : Bool)
      → Reached p c
      → Reached p (record_delivery c id succeeded).0
  appointed :
      {c : FailoverController} (id : Text) (observations : List RouteAvailability) (now : Time)
      → Reached p c
      → Reached p (select_approved_route c id observations now).0

-- Every controller that is reached from a policy which passed validation is ready: its active route
-- is none or an approved one, its routes are in order, and its failures do not pass the threshold.
pub Reached-IsReady : {p : FailoverPolicy} {c : FailoverController} → Reached p c → IsReady c
Reached-IsReady {p = p} (created {c = c} h) = new-IsReady p c h
Reached-IsReady (selected {c = c} observations now r) =
    select-IsReady c observations now (Reached-IsReady r)
Reached-IsReady (recorded {c = c} id succeeded r) =
    record_delivery-IsReady c id succeeded (Reached-IsReady r)
Reached-IsReady (appointed {c = c} id observations now r) =
    select_approved_route-IsReady c id observations now (Reached-IsReady r)

-- The active route fails `k` deliveries in a row.
unfoldable pub fail_deliveries : ℕ → FailoverController → FailoverController
fail_deliveries zero c = c
fail_deliveries (suc k) c = fail_deliveries k (record_delivery c c.active_route_id false).0

record_failure :
    (c : FailoverController) (k : ℕ)
    → is_empty c.active_route_id ≡ false
    → c.policy.failure_threshold ≤ℤ pos (c.consecutive_failures + suc k)
    → let after = (record_delivery c c.active_route_id false).0 in
      (after.policy ≡ c.policy)
      × (after.active_route_id ≡ c.active_route_id)
      × (c.policy.failure_threshold ≤ℤ pos (after.consecutive_failures + k))
unfolding record_delivery
record_failure c k h le =
    (ground arith, ground arith, ground (arith, text_eq_refl c.active_route_id))

fail_deliveries_lem :
    (k : ℕ) (c : FailoverController)
    → is_empty c.active_route_id ≡ false
    → c.policy.failure_threshold ≤ℤ pos (c.consecutive_failures + k)
    → let after = fail_deliveries k c in
      (after.policy ≡ c.policy)
      × (after.active_route_id ≡ c.active_route_id)
      × (c.policy.failure_threshold ≤ℤ pos after.consecutive_failures)
unfolding fail_deliveries
fail_deliveries_lem zero c h le = (refl, refl, omega arith)
fail_deliveries_lem (suc k) c h le =
    let (policy, active, counted) = record_failure c k h le in
    let next = (record_delivery c c.active_route_id false).0 in
    let (policy', active', counted') =
      fail_deliveries_lem k next (rw active h) (rw policy counted) in
    (policy' ∙ policy, active' ∙ active, rw policy at counted')

fail_deliveries-IsReady :
    (k : ℕ) (c : FailoverController) → IsReady c → IsReady (fail_deliveries k c)
unfolding fail_deliveries
fail_deliveries-IsReady zero c v = v
fail_deliveries-IsReady (suc k) c v =
    fail_deliveries-IsReady k _ (record_delivery-IsReady c c.active_route_id false v)

-- A decision that moves is to another route than the one that was active.
Choice-other :
    (c : FailoverController) (health : TextSet) (now : Time)
    (out : FailoverController × Result FailoverError RouteDecision) (d : RouteDecision)
    → c.policy.failure_threshold ≤ℤ pos c.consecutive_failures
    → Choice c health now out
    → out.1 ≡ ok d
    → (text_eq d.route.id c.active_route_id ≡ false) × (health d.route.id ≡ true)
Choice-other c health now out d full (kept r keep found e) h = absurd (ground (arith, keep))
Choice-other c health now out d full (moved r move best e) h =
    ground (arith, best.other, best.healthy, e, h)
Choice-other c health now out d full (stuck move nobody e) h = absurd (ground (arith, e, h))

-- After as many failed deliveries in a row as the threshold of a ready controller, Select never
-- decides for the route that failed: what it decides for is an available other route.
pub failed_route_abandoned :
    (c : FailoverController) (k : ℕ) (observations : List RouteAvailability) (now : Time)
    (d : RouteDecision)
    → IsReady c
    → is_empty c.active_route_id ≡ false
    → c.policy.failure_threshold ≤ℤ pos k
    → (select (fail_deliveries k c) observations now).1 ≡ ok d
    → (text_eq d.route.id c.active_route_id ≡ false)
      × (available_route_ids observations c.policy.observation_max_age now d.route.id ≡ true)
failed_route_abandoned c k observations now d v h le e =
    let (policy, active, counted) = fail_deliveries_lem k c h (omega arith) in
    let (other, healthy) =
      Choice-other (fail_deliveries k c) _ now _ d (rw policy counted)
        (select-Choice (fail_deliveries k c) observations now (fail_deliveries-IsReady k c v)) e in
    (rw active at other, rw policy at healthy)
