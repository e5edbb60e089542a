-- ===== src/RelayTransport/Failover/Examples.antt =====
-- internal/relaytransport/failover.go: runs of the controller with a relay route and a direct one.
use mossward.Common.{
  ◌≡◌, refl, subst, true, false, List, [], ◌∷◌, arith, Text, codes, Time, ok, pos, text_eq,
  is_blank, byte_length,
}
use mossward.RelayTransport.Failover.Defs.{
  relay, direct, ApprovedRoute, FailoverPolicy, RouteAvailability, RouteDecision,
  FailoverController, approved_failover, validate_failover_policy, sort_routes,
  new_failover_controller, available_route_ids, select, record_delivery, check_routes, kind_check,
  insert_route, observe, observe_one, fallback,
}
use mossward.RelayTransport.Failover.Choice.{IsReady, Choice, select-Choice}
use mossward.RelayTransport.Failover.Control.{
  created, selected, Reached-IsReady, fail_deliveries, failed_route_abandoned,
}

abbrev direct_route : ApprovedRoute
direct_route = record { id = codes "d"; kind = direct; relay_endpoint_id = []; priority = pos 2 }

abbrev relay_route : ApprovedRoute
relay_route = record {
  id = codes "r";
  kind = relay;
  relay_endpoint_id = codes "x";
  priority = pos 1;
}

abbrev policy : FailoverPolicy
policy = record {
  endpoint_id = codes "e";
  routes = direct_route ∷ relay_route ∷ [];
  failure_threshold = pos 2;
  observation_max_age = pos 10_000_000_000;
}

abbrev now : Time
now = 1_000_000_000_000

abbrev seen_healthy : Text → RouteAvailability
seen_healthy id = record { route_id = id; healthy = true; observed_at = now }

abbrev both_healthy : List RouteAvailability
both_healthy = seen_healthy (codes "r") ∷ seen_healthy (codes "d") ∷ []

abbrev new_controller : FailoverController
new_controller = record {
  policy = record policy { routes = relay_route ∷ direct_route ∷ [] };
  active_route_id = [];
  consecutive_failures = 0;
}

abbrev on_relay : FailoverController
on_relay = record new_controller { active_route_id = codes "r" }

validates : validate_failover_policy policy ≡ ok tt
unfolding validate_failover_policy check_routes kind_check is_blank byte_length text_eq
validates = refl

creates : new_failover_controller policy ≡ ok new_controller
unfolding new_failover_controller validate_failover_policy check_routes kind_check sort_routes
    insert_route is_blank byte_length text_eq
creates = refl

selects : (select new_controller both_healthy now).0 ≡ on_relay
unfolding select available_route_ids observe observe_one fallback text_eq
selects = refl

new_controller-IsReady : IsReady new_controller
new_controller-IsReady = Reached-IsReady {p = policy} (created creates)

on_relay-IsReady : IsReady on_relay
on_relay-IsReady =
    subst IsReady selects
      (Reached-IsReady {p = policy} (selected both_healthy now (created creates)))

select-Choice_example :
    Choice new_controller
      (available_route_ids both_healthy (pos 10_000_000_000) now)
      now
      (select new_controller both_healthy now)
select-Choice_example = select-Choice new_controller both_healthy now new_controller-IsReady

Reached-IsReady_example : IsReady (select new_controller both_healthy now).0
Reached-IsReady_example =
    Reached-IsReady {p = policy} {c = (select new_controller both_healthy now).0}
      (selected both_healthy now (created creates))

abbrev to_direct : RouteDecision
to_direct = record {
  route = direct_route;
  previous_route_id = codes "r";
  reason = approved_failover;
  consecutive_failures = 2;
  selected_at = now;
}

abandons : (select (fail_deliveries 2 on_relay) both_healthy now).1 ≡ ok to_direct
unfolding fail_deliveries record_delivery select available_route_ids observe observe_one fallback
    text_eq
abandons = refl

failed_route_abandoned_example :
    (text_eq (codes "d") (codes "r") ≡ false)
    × (available_route_ids both_healthy (pos 10_000_000_000) now (codes "d") ≡ true)
failed_route_abandoned_example =
    failed_route_abandoned on_relay 2 both_healthy now to_direct on_relay-IsReady refl (omega arith)
      abandons
