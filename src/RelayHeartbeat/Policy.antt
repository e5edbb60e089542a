-- ===== src/RelayHeartbeat/Policy.antt =====
-- internal/relayheartbeat/policy.go: the validation of a policy, and Resolve.
use mossward.Common.{
  Bool, true, false, ◌||◌, ◌&&◌, not, List, [], ◌∷◌, ltb, if◌then◌else◌, Text, text_eq, is_blank,
  byte_length, Result, ◌>>◌, reject_if, ℤ, pos, ltb_ℤ, eq_ℤ, text_less,
}

pub data MaintenanceTargetType : Type 0 where
  endpoint group : MaintenanceTargetType
  other : Text → MaintenanceTargetType

pub record DelayedHeartbeatPolicy : Type 0 where
  pub target_type : MaintenanceTargetType
  pub target_id : Text
  pub allow_delayed_heartbeats : Bool
  pub post_window_grace_minutes : ℤ
  pub reason : Text

pub data Source : Type 0 where
  default_deny endpoint_conflict_deny endpoint_override : Source
  group_inheritance group_conflict_deny : Source

pub record ResolvedDelayedHeartbeatPolicy : Type 0 where
  pub endpoint_id : Text
  pub allow_delayed_heartbeats : Bool
  pub post_window_grace_minutes : ℤ
  pub source : Source
  pub source_ids : List Text
  pub conflict : Bool

pub data PolicyError : Type 0 where
  invalid disabled_with_grace : PolicyError

abbrev pub known_target : MaintenanceTargetType → Bool
known_target endpoint = true
known_target group = true
known_target (other t) = false

-- 24 * 60
abbrev pub maximum_post_window_grace : ℤ
maximum_post_window_grace = pos 1440

unfoldable pub validate : DelayedHeartbeatPolicy → Result PolicyError (Unit {0})
validate p = do
  reject_if
      (not (known_target p.target_type)
        || is_blank p.target_id
        || ltb 200 (byte_length p.target_id)
        || is_blank p.reason
        || ltb 500 (byte_length p.reason)
        || ltb_ℤ p.post_window_grace_minutes (pos 0)
        || ltb_ℤ maximum_post_window_grace p.post_window_grace_minutes)
      invalid
  reject_if (not p.allow_delayed_heartbeats && not (eq_ℤ p.post_window_grace_minutes (pos 0)))
      disabled_with_grace

abbrev pub is_endpoint : MaintenanceTargetType → Bool
is_endpoint endpoint = true
is_endpoint _ = false

abbrev pub is_group : MaintenanceTargetType → Bool
is_group group = true
is_group _ = false

-- The first loop: the policies of the endpoint, and those of groups, in their order.
unfoldable pub endpoint_policies : Text → List DelayedHeartbeatPolicy → List DelayedHeartbeatPolicy
endpoint_policies id [] = []
endpoint_policies id (p ∷ ps) =
    let rest = endpoint_policies id ps in
    if is_endpoint p.target_type && text_eq p.target_id id then p ∷ rest else rest

unfoldable pub group_policies : List DelayedHeartbeatPolicy → List DelayedHeartbeatPolicy
group_policies [] = []
group_policies (p ∷ ps) =
    let rest = group_policies ps in if is_group p.target_type then p ∷ rest else rest

-- What the second loop carries over the groups.
pub record Merge : Type 0 where
  pub allow : Bool
  pub grace : ℤ
  pub seen_allow : Bool
  pub seen_deny : Bool

abbrev pub merge_group : Merge → DelayedHeartbeatPolicy → Merge
merge_group m g =
    if g.allow_delayed_heartbeats
    then (record m {
      grace =
          if ltb_ℤ g.post_window_grace_minutes m.grace
          then g.post_window_grace_minutes
          else m.grace;
      seen_allow = true;
    })
    else (record m { allow = false; grace = pos 0; seen_deny = true })

unfoldable pub merge_groups : Merge → List DelayedHeartbeatPolicy → Merge
merge_groups m [] = m
merge_groups m (g ∷ gs) = merge_groups (merge_group m g) gs

-- sort.Strings, by the order of the code points, which is that of the UTF-8 bytes.
unfoldable pub insert_text : Text → List Text → List Text
insert_text t [] = t ∷ []
insert_text t (u ∷ us) =
    let rest = insert_text t us in if text_less u t then u ∷ rest else t ∷ u ∷ us

unfoldable pub sort_texts : List Text → List Text
unfolding insert_text
sort_texts [] = []
sort_texts (t ∷ ts) = insert_text t (sort_texts ts)

abbrev pub target_ids : List DelayedHeartbeatPolicy → List Text
target_ids [] = []
target_ids (p ∷ ps) = p.target_id ∷ target_ids ps

abbrev pub default_policy : Text → ResolvedDelayedHeartbeatPolicy
default_policy id = record {
  endpoint_id = id;
  allow_delayed_heartbeats = false;
  post_window_grace_minutes = pos 0;
  source = default_deny;
  source_ids = [];
  conflict = false;
}

abbrev pub initial_merge : Merge
initial_merge = record {
  allow = true;
  grace = maximum_post_window_grace;
  seen_allow = false;
  seen_deny = false;
}

abbrev pub by_groups : Text → List DelayedHeartbeatPolicy → ResolvedDelayedHeartbeatPolicy
by_groups id groups =
    let m = merge_groups initial_merge groups in
    record {
      endpoint_id = id;
      allow_delayed_heartbeats = m.allow;
      post_window_grace_minutes = m.grace;
      source = if m.seen_allow && m.seen_deny then group_conflict_deny else group_inheritance;
      source_ids = sort_texts (target_ids groups);
      conflict = m.seen_allow && m.seen_deny;
    }

abbrev pub resolve_from :
    Text
    → List DelayedHeartbeatPolicy
    → List DelayedHeartbeatPolicy
    → ResolvedDelayedHeartbeatPolicy
resolve_from id (p ∷ q ∷ ps) groups = record (default_policy id) {
  source = endpoint_conflict_deny;
  source_ids = id ∷ [];
  conflict = true;
}
resolve_from id (p ∷ []) groups = record (default_policy id) {
  allow_delayed_heartbeats = p.allow_delayed_heartbeats;
  post_window_grace_minutes =
      if p.allow_delayed_heartbeats then p.post_window_grace_minutes else pos 0;
  source = endpoint_override;
  source_ids = id ∷ [];
}
resolve_from id [] [] = default_policy id
resolve_from id [] (g ∷ groups) = by_groups id (g ∷ groups)

unfoldable pub resolve : Text → List DelayedHeartbeatPolicy → ResolvedDelayedHeartbeatPolicy
resolve id policies = resolve_from id (endpoint_policies id policies) (group_policies policies)
