-- ===== src/CheckPolicy/Policy.antt =====
-- internal/checkpolicy/policy.go, whole, and IsIntrusive of internal/checkdefinition/format.go.
use mossward.Common.{
  Bool, true, false, ◌||◌, not, Option, none, some, List, [], ◌∷◌, after, ◌==◌, Text, codes,
  text_eq, trim_space, is_blank, Time, is_zero, Result, ok, err, ◌>>◌, reject_if,
}

-- The fields that the policy reads.
pub record Check : Type 0 where
  pub id : Text
  pub version : Text
  pub execution_class : Text

unfoldable pub is_intrusive : Check → Bool
is_intrusive check = text_eq check.execution_class (codes "intrusive")

pub record Policy : Type 0 where
  pub enabled : Bool
  pub allowed_check_ids : List Text
  pub updated_at : Time

pub record Approval : Type 0 where
  pub check_id : Text
  pub version : Text
  pub approved_by : Text
  pub approved_at : Time
  pub expires_at : Time

pub data PolicyError : Type 0 where
  no_update_time invalid_identifier : PolicyError
  intrusive_disabled check_not_allowed approval_required : PolicyError
  encode_failed decode_failed database : PolicyError

abbrev pub or_policy_error {ℓ} : {A : Type ℓ} → Option A → PolicyError → Result PolicyError A
or_policy_error none e = err e
or_policy_error (some a) e = ok a

unfoldable pub contains : List Text → Text → Bool
contains [] target = false
contains (value ∷ values) target = text_eq value target || contains values target

-- strings.Contains(id, ".")
unfoldable pub has_dot : Text → Bool
has_dot [] = false
has_dot (c ∷ cs) = c == 46 || has_dot cs

-- The loop of Validate; the map of the identifiers seen is their list.
unfoldable pub validate_ids : List Text → List Text → Result PolicyError (Unit {0})
validate_ids seen [] = ok tt
validate_ids seen (id ∷ ids) = do
  reject_if (not (text_eq (trim_space id) id) || not (has_dot id) || contains seen id)
      invalid_identifier
  validate_ids (id ∷ seen) ids

unfoldable pub validate : Policy → Result PolicyError (Unit {0})
validate policy = do
  reject_if (is_zero policy.updated_at) no_update_time
  validate_ids [] policy.allowed_check_ids

unfoldable pub lacks_approval : Check → Option Approval → Time → Bool
lacks_approval check none now = true
lacks_approval check (some a) now =
    not (text_eq a.check_id check.id)
    || not (text_eq a.version check.version)
    || is_blank a.approved_by
    || after a.approved_at now
    || not (after a.expires_at now)

unfoldable pub authorize : Check → Policy → Option Approval → Time → Result PolicyError (Unit {0})
authorize check policy approval now = elim (is_intrusive check) [
  | false ↦ ok tt
  | true ↦ do
    reject_if (not policy.enabled) intrusive_disabled
    reject_if (not (contains policy.allowed_check_ids check.id)) check_not_allowed
    reject_if (lacks_approval check approval now) approval_required
    ok tt
]
