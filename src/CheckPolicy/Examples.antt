-- ===== src/CheckPolicy/Examples.antt =====
-- A policy that replaces another, and a check that it allows.
use mossward.Common.{
  ◌≡◌, refl, true, false, Option, none, some, List, [], ◌∷◌, Text, codes, text_eq, ok, err,
  trim_space, is_blank, arith,
}
use mossward.CheckPolicy.Policy.{
  Check, Policy, Approval, is_intrusive, contains, has_dot, validate_ids, validate, lacks_approval,
  authorize, intrusive_disabled, approval_required,
}
use mossward.CheckPolicy.Stored.{
  Json, saved_row, save_intrusive_check_policy, intrusive_check_policy,
}
use mossward.CheckPolicy.Grants.{Saves, save_all, Approved, Allowed, authorize-Allowed}

-- Lists of at most one text.
abbrev encode : List Text → Option Text
encode [] = some []
encode (x ∷ []) = some (1 ∷ x)
encode (x ∷ y ∷ ys) = none

abbrev decode : Text → Option (List Text)
decode [] = some []
decode (c ∷ cs) = some (cs ∷ [])

decode-encode : (xs : List Text) (t : Text) → encode xs ≡ some t → decode t ≡ some xs
decode-encode [] [] e = refl
decode-encode [] (c ∷ cs) e = ground (arith, e)
decode-encode (x ∷ []) [] e = ground (arith, e)
decode-encode (x ∷ []) (c ∷ cs) e = ground (arith, e)
decode-encode (x ∷ y ∷ ys) t e = ground (arith, e)

abbrev short_lists : Json
short_lists = record { marshal = encode; unmarshal = decode; unmarshal-marshal = decode-encode }

abbrev check_id : Text
check_id = codes "a.b"

abbrev one_check : Check
one_check = record { id = check_id; version = codes "1"; execution_class = codes "intrusive" }

abbrev disabled : Policy
disabled = record { enabled = false; allowed_check_ids = []; updated_at = 5 }

abbrev enabling : Policy
enabling = record { enabled = true; allowed_check_ids = check_id ∷ []; updated_at = 7 }

-- The update of the last attempt fails.
abbrev attempts : Saves
attempts = (disabled, false) ∷ (enabling, true) ∷ (disabled, true) ∷ []

abbrev one_approval : Approval
one_approval = record {
  check_id = check_id;
  version = codes "1";
  approved_by = codes "admin";
  approved_at = 10;
  expires_at = 20;
}

read_enabling :
    intrusive_check_policy short_lists true (save_all short_lists 1 attempts) ≡ ok enabling
unfolding intrusive_check_policy save_intrusive_check_policy saved_row validate validate_ids
    trim_space text_eq has_dot contains
read_enabling = refl

authorized : authorize one_check enabling (some one_approval) 15 ≡ ok tt
unfolding authorize is_intrusive contains lacks_approval text_eq is_blank
authorized = refl

refused_when_expired : authorize one_check enabling (some one_approval) 20 ≡ err approval_required
unfolding authorize is_intrusive contains lacks_approval text_eq is_blank
refused_when_expired = refl

refused_when_disabled : authorize one_check disabled (some one_approval) 15 ≡ err intrusive_disabled
unfolding authorize is_intrusive text_eq
refused_when_disabled = refl

authorize-Allowed_example :
    Allowed short_lists one_check attempts × Approved one_check 15 (some one_approval)
unfolding is_intrusive text_eq
authorize-Allowed_example =
    authorize-Allowed short_lists 1 attempts true enabling one_check (some one_approval) 15
      read_enabling refl authorized
