-- ===== src/RelayHeartbeat/Examples.antt =====
-- The theorem on internal/relayheartbeat at two group policies that disagree.
use mossward.Common.{◌≡◌, refl, true, false, [], ◌∷◌, codes, All, pos, is_blank, byte_length}
use mossward.RelayHeartbeat.Policy.{
  group, DelayedHeartbeatPolicy, validate, endpoint_policies, group_policies, resolve,
}
use mossward.RelayHeartbeat.Resolution.{IsValid, allows, GraceFits, resolve_lem}

abbrev late : DelayedHeartbeatPolicy
late = record {
  target_type = group;
  target_id = codes "a";
  allow_delayed_heartbeats = true;
  post_window_grace_minutes = pos 30;
  reason = codes "night";
}

abbrev strict : DelayedHeartbeatPolicy
strict = record late {
  target_id = codes "b";
  allow_delayed_heartbeats = false;
  post_window_grace_minutes = pos 0;
}

policies-IsValid : All IsValid (late ∷ strict ∷ [])
unfolding validate is_blank byte_length
policies-IsValid = (refl, (refl, tt))

resolve_lem_example :
    let own = endpoint_policies (codes "e") (late ∷ strict ∷ []) in
    let groups = group_policies (late ∷ strict ∷ []) in
    ((resolve (codes "e") (late ∷ strict ∷ [])).allow_delayed_heartbeats ≡ allows own groups)
    × GraceFits own groups (resolve (codes "e") (late ∷ strict ∷ []))
resolve_lem_example = resolve_lem (codes "e") (late ∷ strict ∷ []) policies-IsValid
