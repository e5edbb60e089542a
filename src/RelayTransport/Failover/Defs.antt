-- ===== src/RelayTransport/Failover/Defs.antt =====
-- internal/relaytransport/failover.go: routes, policies, and the operations of FailoverController,
-- which return the controller with their result. A map from strings to bool is a function.
use mossward.Common.{
  ℕ, ◌+◌, Bool, false, ◌&&◌, ◌||◌, not, Option, some, none, List, [], ◌∷◌, ltb, ◌==◌, if◌then◌else◌,
  length, Text, text_eq, is_empty, is_blank, byte_length, Result, ok, err, ◌>>=◌, ◌>>◌, reject_if,
  Time, is_zero, after_add, before_sub, ℤ, pos, ltb_ℤ, eq_ℤ,
}

pub data RouteKind : Type 0 where
  relay direct : RouteKind
  other : Text → RouteKind

pub record ApprovedRoute : Type 0 where
  pub id : Text
  pub kind : RouteKind
  pub relay_endpoint_id : Text
  pub priority : ℤ

pub record FailoverPolicy : Type 0 where
  pub endpoint_id : Text
  pub routes : List ApprovedRoute
  pub failure_threshold : ℤ
  pub observation_max_age : ℤ

pub record RouteAvailability : Type 0 where
  pub route_id : Text
  pub healthy : Bool
  pub observed_at : Time

pub data Reason : Type 0 where
  active_route_healthy approved_initial_route approved_failover : Reason
  server_selected_approved_route unset : Reason

pub record RouteDecision : Type 0 where
  pub route : ApprovedRoute
  pub previous_route_id : Text
  pub reason : Reason
  pub consecutive_failures : ℕ
  pub selected_at : Time

pub record FailoverController : Type 0 where
  pub policy : FailoverPolicy
  pub active_route_id : Text
  pub consecutive_failures : ℕ

pub data FailoverError : Type 0 where
  policy_invalid duplicate_route bad_relay bad_direct bad_kind : FailoverError
  no_approved_route not_active : FailoverError

-- map[string]bool
abbrev pub TextSet : Type 0
TextSet = Text → Bool

abbrev pub no_texts : TextSet
no_texts t = false

abbrev pub with_text : TextSet → Text → TextSet
with_text s id t = text_eq id t || s t

abbrev pub without_text : TextSet → Text → TextSet
without_text s id t = not (text_eq id t) && s t

-- The checks on one observation.
abbrev pub usable : ℤ → Time → RouteAvailability → Bool
usable maximum_age now o = not (
    not o.healthy
    || is_zero o.observed_at
    || after_add o.observed_at now (pos 300_000_000_000)
    || before_sub o.observed_at now maximum_age)

-- One round of the loop of availableRouteIDs, over the maps `available` and `seen`.
unfoldable pub observe_one : ℤ → Time → RouteAvailability → TextSet → TextSet → TextSet × TextSet
observe_one age now o available seen =
    if is_empty o.route_id
    then (available, seen)
    else if seen o.route_id
    then (without_text available o.route_id, seen)
    else if usable age now o
    then (with_text available o.route_id, with_text seen o.route_id)
    else (available, with_text seen o.route_id)

unfoldable pub observe : ℤ → Time → List RouteAvailability → TextSet → TextSet → TextSet
unfolding observe_one
observe age now [] available seen = available
observe age now (o ∷ os) available seen =
    let (available', seen') = observe_one age now o available seen in
    observe age now os available' seen'

unfoldable pub available_route_ids : List RouteAvailability → ℤ → Time → TextSet
unfolding observe
available_route_ids observations age now = observe age now observations no_texts no_texts

-- `sort.Slice` by priority. The priorities of a valid policy differ, so the order is determined.
unfoldable pub insert_route : ApprovedRoute → List ApprovedRoute → List ApprovedRoute
insert_route r [] = r ∷ []
insert_route r (s ∷ rs) =
    let rest = insert_route r rs in if ltb_ℤ s.priority r.priority then s ∷ rest else r ∷ s ∷ rs

unfoldable pub sort_routes : List ApprovedRoute → List ApprovedRoute
unfolding insert_route
sort_routes [] = []
sort_routes (r ∷ rs) = insert_route r (sort_routes rs)

abbrev pub maximum_route_id_length : ℕ
maximum_route_id_length = 200

unfoldable pub kind_check : RouteKind → Text → Text → ℕ → Result FailoverError ℕ
kind_check relay endpoint relay_id directs = do
  reject_if (is_empty relay_id || text_eq relay_id endpoint) bad_relay
  ok directs
kind_check direct endpoint relay_id directs = do
  reject_if (not (is_empty relay_id) || ltb 1 (directs + 1)) bad_direct
  ok (directs + 1)
kind_check (other k) endpoint relay_id directs = err bad_kind

-- The loop over the routes, with the maps `ids` and `priorities` and the count of direct routes.
unfoldable pub check_routes :
    Text → List ApprovedRoute → TextSet → (ℤ → Bool) → ℕ → Result FailoverError (Unit {0})
unfolding kind_check
check_routes endpoint [] ids priorities directs = ok tt
check_routes endpoint (r ∷ rs) ids priorities directs = do
  reject_if
      (is_blank r.id
        || ltb maximum_route_id_length (byte_length r.id)
        || ltb maximum_route_id_length (byte_length r.relay_endpoint_id)
        || ltb_ℤ r.priority (pos 1)
        || ids r.id
        || priorities r.priority)
      duplicate_route
  directs' ← kind_check r.kind endpoint r.relay_endpoint_id directs
  check_routes endpoint rs (with_text ids r.id) (λ p. eq_ℤ r.priority p || priorities p) directs'

unfoldable pub validate_failover_policy : FailoverPolicy → Result FailoverError (Unit {0})
unfolding check_routes
validate_failover_policy p = do
  reject_if
      (is_blank p.endpoint_id
        || ltb maximum_route_id_length (byte_length p.endpoint_id)
        || length p.routes == 0
        || ltb 16 (length p.routes)
        || ltb_ℤ p.failure_threshold (pos 1)
        || ltb_ℤ (pos 10) p.failure_threshold
        || ltb_ℤ p.observation_max_age (pos 10_000_000_000)
        || ltb_ℤ (pos 3_600_000_000_000) p.observation_max_age)
      policy_invalid
  check_routes p.endpoint_id p.routes no_texts (λ _. false) 0

unfoldable pub new_failover_controller : FailoverPolicy → Result FailoverError FailoverController
unfolding validate_failover_policy sort_routes
new_failover_controller p = do
  validate_failover_policy p
  ok (record {
    policy = record p { routes = sort_routes p.routes };
    active_route_id = [];
    consecutive_failures = 0;
  })

-- The first approved route of this ID, as `decision` looks it up.
unfoldable pub find_route : Text → List ApprovedRoute → Option ApprovedRoute
find_route id [] = none
find_route id (r ∷ rs) = if text_eq r.id id then some r else find_route id rs

abbrev pub decide_on : FailoverController → Text → Reason → Time → ApprovedRoute → RouteDecision
decide_on c previous reason now r = record {
  route = r;
  previous_route_id = previous;
  reason = reason;
  consecutive_failures = c.consecutive_failures;
  selected_at = now;
}

abbrev pub zero_decision : RouteDecision
zero_decision = record {
  route = record { id = []; kind = other []; relay_endpoint_id = []; priority = pos 0 };
  previous_route_id = [];
  reason = unset;
  consecutive_failures = 0;
  selected_at = 0;
}

-- `decision, _ := c.decision(id, id, reason, now)`
abbrev pub decision_or_zero :
    FailoverController → Text → Reason → Time → Option ApprovedRoute → RouteDecision
decision_or_zero c previous reason now none = zero_decision
decision_or_zero c previous reason now (some r) = decide_on c previous reason now r

-- The first route in the policy's order that is healthy and is not the previous one.
unfoldable pub fallback : Text → TextSet → List ApprovedRoute → Option ApprovedRoute
fallback previous health [] = none
fallback previous health (r ∷ rs) =
    if text_eq r.id previous || not (health r.id) then fallback previous health rs else some r

abbrev pub keeps_active : FailoverController → TextSet → Bool
keeps_active c health =
    not (is_empty c.active_route_id)
    && ltb_ℤ (pos c.consecutive_failures) c.policy.failure_threshold
    && health c.active_route_id

abbrev pub fail_over :
    FailoverController
    → Time
    → Option ApprovedRoute
    → FailoverController × Result FailoverError RouteDecision
fail_over c now none = (c, err no_approved_route)
fail_over c now (some r) = (
  record c { active_route_id = r.id; consecutive_failures = 0 },
  ok (
      decide_on c c.active_route_id
        (if is_empty c.active_route_id then approved_initial_route else approved_failover) now r),
)

unfoldable pub select :
    FailoverController
    → List RouteAvailability
    → Time
    → FailoverController × Result FailoverError RouteDecision
select c availability now =
    let health = available_route_ids availability c.policy.observation_max_age now in
    if keeps_active c health
    then (
      c,
      ok (
          decision_or_zero c c.active_route_id active_route_healthy now
            (find_route c.active_route_id c.policy.routes)),
    )
    else fail_over c now (fallback c.active_route_id health c.policy.routes)

unfoldable pub record_delivery :
    FailoverController → Text → Bool → FailoverController × Result FailoverError (Unit {0})
record_delivery c id succeeded =
    if is_empty id || not (text_eq id c.active_route_id)
    then (c, err not_active)
    else if succeeded
    then (record c { consecutive_failures = 0 }, ok tt)
    else if ltb_ℤ (pos c.consecutive_failures) c.policy.failure_threshold
    then (record c { consecutive_failures = c.consecutive_failures + 1 }, ok tt)
    else (c, ok tt)

abbrev pub approve :
    FailoverController
    → Text
    → Time
    → Option ApprovedRoute
    → FailoverController × Result FailoverError RouteDecision
approve c id now none = (c, err no_approved_route)
approve c id now (some r) = (
  record c { active_route_id = id; consecutive_failures = 0 },
  ok (decide_on c c.active_route_id server_selected_approved_route now r),
)

unfoldable pub select_approved_route :
    FailoverController
    → Text
    → List RouteAvailability
    → Time
    → FailoverController × Result FailoverError RouteDecision
select_approved_route c id availability now =
    let health = available_route_ids availability c.policy.observation_max_age now in
    if health id
    then approve c id now (find_route id c.policy.routes)
    else (c, err no_approved_route)
