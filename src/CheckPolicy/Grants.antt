-- ===== src/CheckPolicy/Grants.antt =====
-- What must have happened before an intrusive check is authorized.
use mossward.Common.{
  ◌<◌, ◌≤◌, ◌≡◌, refl, subst, Bool, true, false, Option, none, some, List, [], ◌∷◌, arith, ◌==◌,
  Text, text_eq, text_eq_iff, is_blank, Time, ok, err, Bool-cases, Result-cases, Option-cases, inl,
  inr,
}
use mossward.CheckPolicy.Policy.{
  Check, Policy, Approval, PolicyError, is_intrusive, contains, has_dot, validate_ids, validate,
  lacks_approval, authorize,
}
use mossward.CheckPolicy.Stored.{
  Json, Stored, database_bool, initial, saved_row, policy_row, save_intrusive_check_policy,
  intrusive_check_policy,
}

-- The attempts to save a policy, the newest first, each with whether its update succeeds.
abbrev pub Saves : Type 0
Saves = List (Policy × Bool)

abbrev pub save_all : Json → Time → Saves → Stored
save_all json start [] = initial start
save_all json start ((q, b) ∷ h) = (save_intrusive_check_policy json q b (save_all json start h)).0

-- The policy is that of the newest attempt that succeeded.
pub data InForce (json : Json) (q : Policy) : Saves → Type 0 where
  newest :
      {b : Bool} {h : Saves} (row : Stored)
      → saved_row json q b ≡ ok row
      → InForce json q ((q, b) ∷ h)
  earlier :
      {x : Policy} {b : Bool} {h : Saves} (e : PolicyError)
      → saved_row json x b ≡ err e
      → InForce json q h
      → InForce json q ((x, b) ∷ h)

-- An approval of this check in this version, by somebody, that `now` lies within.
pub data Approved (check : Check) (now : Time) : Option Approval → Type 0 where
  approved :
      {a : Approval}
      → a.check_id ≡ check.id
      → a.version ≡ check.version
      → is_blank a.approved_by ≡ false
      → a.approved_at ≤ now
      → now < a.expires_at
      → Approved check now (some a)

-- The policy in force is enabled and names the check, whose identifier has a dot.
pub data Allowed (json : Json) (check : Check) (h : Saves) : Type 0 where
  allowed :
      (q : Policy)
      → InForce json q h
      → q.enabled ≡ true
      → contains q.allowed_check_ids check.id ≡ true
      → has_dot check.id ≡ true
      → Allowed json check h

lacks_approval-Approved :
    (check : Check) (approval : Option Approval) (now : Time)
    → lacks_approval check approval now ≡ false
    → Approved check now approval
unfolding lacks_approval
lacks_approval-Approved check none now e = ground (arith, e)
lacks_approval-Approved check (some a) now e =
    approved ((text_eq_iff a.check_id check.id).0 (ground (arith, e)))
      ((text_eq_iff a.version check.version).0 (ground (arith, e))) (ground (arith, e))
      (ground (arith, e)) (ground (arith, e))

-- Every identifier of a valid list has a dot.
validate_ids-has_dot :
    (seen ids : List Text) (id : Text)
    → validate_ids seen ids ≡ ok tt
    → contains ids id ≡ true
    → has_dot id ≡ true
unfolding validate_ids contains
validate_ids-has_dot seen [] id e c = ground (arith, c)
validate_ids-has_dot seen (x ∷ xs) id e c = elim (Bool-cases (text_eq x id)) [
  | inl h ↦ subst (λ t. has_dot t ≡ true) ((text_eq_iff x id).0 h) (ground (arith, e))
  | inr h ↦ validate_ids-has_dot (x ∷ seen) xs id (ground (arith, e)) (ground (arith, c, h))
]

-- Where the row comes from: the migration, or the policy in force, which is valid.
data Origin (json : Json) (h : Saves) (s : Stored) : Type 0 where
  from_migration : s.enabled ≡ 0 → Origin json h s
  from_save :
      (q : Policy)
      → InForce json q h
      → validate q ≡ ok tt
      → s.enabled ≡ database_bool q.enabled
      → json.unmarshal s.allowed_check_ids_json ≡ some q.allowed_check_ids
      → Origin json h s

Origin-earlier :
    (json : Json) (h : Saves) (x : Policy) (b : Bool) (s : Stored) (w : PolicyError)
    → saved_row json x b ≡ err w
    → Origin json h s
    → Origin json ((x, b) ∷ h) s
Origin-earlier json h x b s w f (from_migration e) = from_migration e
Origin-earlier json h x b s w f (from_save q m v e j) = from_save q (earlier w f m) v e j

saved_row-Origin :
    (json : Json) (h : Saves) (q : Policy) (b : Bool) (row : Stored)
    → saved_row json q b ≡ ok row
    → Origin json ((q, b) ∷ h) row
unfolding saved_row
saved_row-Origin json h q b row e = elim (Result-cases (validate q)) [
  | inr (w, v) ↦ ground (arith, e, v)
  | inl (u, v) ↦ elim (Option-cases (json.marshal q.allowed_check_ids)) [
    | inl n ↦ ground (arith, e, v, n)
    | inr (t, m) ↦
        let k : policy_row json q t ≡ row = ground (arith, e, v, m) in
        subst (λ r. Origin json ((q, b) ∷ h) r) k
          (from_save q (newest row e) v refl (json.unmarshal-marshal q.allowed_check_ids t m))
  ]
]

save-Origin :
    (json : Json) (h : Saves) (q : Policy) (b : Bool) (s : Stored)
    → Origin json h s
    → Origin json ((q, b) ∷ h) (save_intrusive_check_policy json q b s).0
unfolding save_intrusive_check_policy
save-Origin json h q b s o = elim (Result-cases (saved_row json q b)) [
  | inr (w, e) ↦ rw e (Origin-earlier json h q b s w e o)
  | inl (row, e) ↦ rw e (saved_row-Origin json h q b row e)
]

save_all-Origin : (json : Json) (start : Time) (h : Saves) → Origin json h (save_all json start h)
save_all-Origin json start [] = from_migration refl
save_all-Origin json start ((q, b) ∷ h) =
    save-Origin json h q b (save_all json start h) (save_all-Origin json start h)

-- What is read is in the row.
read_row :
    (json : Json) (s : Stored) (reads : Bool) (p : Policy)
    → intrusive_check_policy json reads s ≡ ok p
    → (json.unmarshal s.allowed_check_ids_json ≡ some p.allowed_check_ids)
      × (p.enabled ≡ (s.enabled == 1))
unfolding intrusive_check_policy
read_row json s reads p l = elim (Option-cases (json.unmarshal s.allowed_check_ids_json)) [
  | inl n ↦ ground (arith, l, n)
  | inr (ids, n) ↦ ground (arith, l, n)
]

Origin-Allowed :
    (json : Json) (h : Saves) (s : Stored) (p : Policy) (check : Check)
    → Origin json h s
    → json.unmarshal s.allowed_check_ids_json ≡ some p.allowed_check_ids
    → s.enabled ≡ 1
    → contains p.allowed_check_ids check.id ≡ true
    → Allowed json check h
unfolding validate
Origin-Allowed json h s p check (from_migration z) l e c = ground (arith, z, e)
Origin-Allowed json h s p check (from_save q m v d j) l e c =
    let k : contains q.allowed_check_ids check.id ≡ true = ground (arith, j, l, c) in
    let g : q.enabled ≡ true = elim (Bool-cases q.enabled) [
      | inl t ↦ t
      | inr f ↦ ground (arith, d, e, f)
    ] in
    allowed q m g k (validate_ids-has_dot [] q.allowed_check_ids check.id (ground (arith, v)) k)

-- When an intrusive check is authorized by the policy that the store reads after some attempts to
-- save one, some attempt succeeded, the policy of the newest such attempt is enabled and names the
-- check, the check's identifier has a dot, and the approval given is one of this check in this
-- version, by a name that is not blank, which has begun and not ended.
pub authorize-Allowed :
    (json : Json) (start : Time) (h : Saves) (reads : Bool) (p : Policy) (check : Check)
    (approval : Option Approval) (now : Time)
    → intrusive_check_policy json reads (save_all json start h) ≡ ok p
    → is_intrusive check ≡ true
    → authorize check p approval now ≡ ok tt
    → Allowed json check h × Approved check now approval
unfolding authorize
authorize-Allowed json start h reads p check approval now l i a =
    let r = read_row json (save_all json start h) reads p l in
    (
      Origin-Allowed json h (save_all json start h) p check (save_all-Origin json start h) r.0
          (ground (arith, r.1, i, a)) (ground (arith, i, a)),
      lacks_approval-Approved check approval now (ground (arith, i, a)),
    )
