-- ===== src/RelayHeartbeat/Resolution.antt =====
-- internal/relayheartbeat/policy.go: what Resolve decides.
use mossward.Common.{
  ◌≡◌, ◌≢◌, refl, Bool, true, false, ◌||◌, ◌&&◌, not, List, [], ◌∷◌, arith, All, Text, text_eq, ok,
  inl, inr, Bool-cases, ℤ, pos, ◌≤ℤ◌,
}
use mossward.RelayHeartbeat.Policy.{
  DelayedHeartbeatPolicy, ResolvedDelayedHeartbeatPolicy, Merge, merge_group, merge_groups,
  initial_merge, endpoint_policies, group_policies, resolve_from, resolve, validate, is_endpoint,
  is_group,
}

-- Every policy allows late heartbeats.
pub all_allow : List DelayedHeartbeatPolicy → Bool
all_allow [] = true
all_allow (p ∷ ps) = p.allow_delayed_heartbeats && all_allow ps

-- Some policy allows late heartbeats.
pub some_allow : List DelayedHeartbeatPolicy → Bool
some_allow [] = false
some_allow (p ∷ ps) = p.allow_delayed_heartbeats || some_allow ps

merge_groups_lem :
    (m : Merge) (gs : List DelayedHeartbeatPolicy)
    → ((merge_groups m gs).allow ≡ (m.allow && all_allow gs))
      × ((merge_groups m gs).seen_allow ≡ (m.seen_allow || some_allow gs))
      × ((merge_groups m gs).seen_deny ≡ (m.seen_deny || not (all_allow gs)))
unfolding merge_groups all_allow some_allow
merge_groups_lem m [] = ground arith
merge_groups_lem m (g ∷ gs) = ground (arith, merge_groups_lem (merge_group m g) gs)

-- A grace of at most `n`, and at most that of each policy that allows.
abbrev pub AtMost : ℤ → List DelayedHeartbeatPolicy → Type 0
AtMost n = All (λ p. p.allow_delayed_heartbeats ≡ true → n ≤ℤ p.post_window_grace_minutes)

abbrev pub NonNegative : List DelayedHeartbeatPolicy → Type 0
NonNegative = All (λ p. pos 0 ≤ℤ p.post_window_grace_minutes)

merge_grace :
    (m : Merge) (gs : List DelayedHeartbeatPolicy)
    → NonNegative gs
    → pos 0 ≤ℤ m.grace
    → ((merge_groups m gs).grace ≤ℤ m.grace)
      × (pos 0 ≤ℤ (merge_groups m gs).grace)
      × AtMost (merge_groups m gs).grace gs
unfolding merge_groups
merge_grace m [] h k = (omega arith, k, tt)
merge_grace m (g ∷ gs) h k =
    let (less, positive, each) = merge_grace (merge_group m g) gs h.1 (ground (arith, h.0)) in
    (ground (arith, less, h.0), positive, ((λ e. ground (arith, less, e)), each))

abbrev exactly_one : List DelayedHeartbeatPolicy → Bool
exactly_one (p ∷ []) = true
exactly_one _ = false

-- Whether Resolve allows late heartbeats: a sole policy of the endpoint decides by itself, several
-- deny, and without one there has to be a group policy and all of them have to allow.
pub allows : List DelayedHeartbeatPolicy → List DelayedHeartbeatPolicy → Bool
allows (p ∷ q ∷ ps) groups = false
allows (p ∷ []) groups = p.allow_delayed_heartbeats
allows [] [] = false
allows [] (g ∷ gs) = all_allow (g ∷ gs)

resolve_from-allows :
    (id : Text) (own groups : List DelayedHeartbeatPolicy)
    → (resolve_from id own groups).allow_delayed_heartbeats ≡ allows own groups
unfolding allows
resolve_from-allows id (p ∷ q ∷ ps) groups = refl
resolve_from-allows id (p ∷ []) groups = refl
resolve_from-allows id [] [] = refl
resolve_from-allows id [] (g ∷ gs) = (merge_groups_lem initial_merge (g ∷ gs)).0

denied_grace :
    (m : Merge) (gs : List DelayedHeartbeatPolicy)
    → NonNegative gs
    → pos 0 ≤ℤ m.grace
    → (m.allow ≡ false → m.grace ≡ pos 0)
    → (merge_groups m gs).allow ≡ false
    → (merge_groups m gs).grace ≡ pos 0
unfolding merge_groups
denied_grace m [] h k z d = z d
denied_grace m (g ∷ gs) h k z d =
    denied_grace (merge_group m g) gs h.1 (ground (arith, h.0)) (λ e. ground (arith, h.0, z, e)) d

abbrev pub IsValid : DelayedHeartbeatPolicy → Type 0
IsValid p = validate p ≡ ok tt

endpoint-NonNegative :
    (id : Text) (ps : List DelayedHeartbeatPolicy)
    → All IsValid ps
    → NonNegative (endpoint_policies id ps)
unfolding endpoint_policies validate
endpoint-NonNegative id [] h = tt
endpoint-NonNegative id (p ∷ ps) h =
    elim (Bool-cases (is_endpoint p.target_type && text_eq p.target_id id)) [
      | inl e ↦ rw e (ground (arith, h.0), endpoint-NonNegative id ps h.1)
      | inr e ↦ rw e (endpoint-NonNegative id ps h.1)
    ]

group-NonNegative :
    (ps : List DelayedHeartbeatPolicy) → All IsValid ps → NonNegative (group_policies ps)
unfolding group_policies validate
group-NonNegative [] h = tt
group-NonNegative (p ∷ ps) h = elim (Bool-cases (is_group p.target_type)) [
  | inl e ↦ rw e (ground (arith, h.0), group-NonNegative ps h.1)
  | inr e ↦ rw e (group-NonNegative ps h.1)
]

-- The grace of a decision: none where it denies, else at most that of every policy that decided.
abbrev pub GraceFits :
    List DelayedHeartbeatPolicy
    → List DelayedHeartbeatPolicy
    → ResolvedDelayedHeartbeatPolicy
    → Type 0
GraceFits own groups r =
    (r.allow_delayed_heartbeats ≡ false → r.post_window_grace_minutes ≡ pos 0)
    × (own ≡ [] → AtMost r.post_window_grace_minutes groups)
    × (own ≢ [] → AtMost r.post_window_grace_minutes own)

resolve_from-GraceFits :
    (id : Text) (own groups : List DelayedHeartbeatPolicy)
    → NonNegative own
    → NonNegative groups
    → GraceFits own groups (resolve_from id own groups)
resolve_from-GraceFits id (p ∷ q ∷ ps) groups n m =
    ((λ _. refl), (λ e. absurd (ground arith)), (λ _. zero_fits (p ∷ q ∷ ps) n))
  where
    zero_fits : (ps : List DelayedHeartbeatPolicy) → NonNegative ps → AtMost (pos 0) ps
    zero_fits [] n = tt
    zero_fits (p ∷ ps) n = ((λ _. n.0), zero_fits ps n.1)
resolve_from-GraceFits id (p ∷ []) groups n m =
    ((λ e. ground (arith, e)), (λ e. absurd (ground arith)), (λ _. ((λ e. ground (arith, e)), tt)))
resolve_from-GraceFits id [] [] n m = ((λ _. refl), (λ _. tt), (λ e. absurd (e refl)))
resolve_from-GraceFits id [] (g ∷ gs) n m = (
  denied_grace initial_merge (g ∷ gs) m (omega arith) (λ e. absurd (ground arith)),
  (λ _. (merge_grace initial_merge (g ∷ gs) m (omega arith)).2),
  (λ e. absurd (e refl)),
)

-- With valid policies, Resolve allows late heartbeats exactly as `allows` says: the one policy of the
-- endpoint decides, several deny, and else some group policy is needed and all have to allow. Where
-- it denies there is no grace; where it allows, the grace is at most that of each deciding policy.
pub resolve_lem :
    (id : Text) (policies : List DelayedHeartbeatPolicy)
    → All IsValid policies
    → let own = endpoint_policies id policies in
      let groups = group_policies policies in
      ((resolve id policies).allow_delayed_heartbeats ≡ allows own groups)
      × GraceFits own groups (resolve id policies)
unfolding resolve
resolve_lem id policies v = (
  resolve_from-allows id (endpoint_policies id policies) (group_policies policies),
  resolve_from-GraceFits id (endpoint_policies id policies) (group_policies policies)
      (endpoint-NonNegative id policies v) (group-NonNegative policies v),
)
