-- ===== src/Intelligence/Version.antt =====
-- internal/intelligence/version.go: CompareVersions and VersionAffected. Texts are code points; a
-- character outside ASCII is no digit, as none of its bytes is.
use Prim.Native.Nat.{min}
use mossward.Common.{
  ℕ, ◌+◌, ◌-◌, ◌*◌, Bool, true, false, ◌||◌, ◌&&◌, not, List, [], ◌∷◌, ltb, leb, ◌==◌,
  if◌then◌else◌, Text, text_eq, text_less, is_empty, codes, trim_space,
}

pub data Order : Type 0 where
  less same greater : Order

pub record VersionPart : Type 0 where
  pub numeric : Bool
  pub number : ℕ
  pub text : Text

-- `versionPart{}`
abbrev pub no_part : VersionPart
no_part = record { numeric = false; number = 0; text = [] }

abbrev pub is_digit : ℕ → Bool
is_digit c = leb b'0' c && leb c b'9'

abbrev pub same_class : Bool → Bool → Bool
same_class true b = b
same_class false b = not b

-- One character before the tokens that follow it: it joins a token of its class.
abbrev pub push_char : ℕ → List (Bool × Text) → List (Bool × Text)
push_char c [] = (is_digit c, c ∷ []) ∷ []
push_char c ((digit, t) ∷ ts) =
    if same_class digit (is_digit c)
    then (digit, c ∷ t) ∷ ts
    else (is_digit c, c ∷ []) ∷ (digit, t) ∷ ts

-- The longest runs of digits and of other characters.
unfoldable pub tokens : Text → List (Bool × Text)
tokens [] = []
tokens (c ∷ cs) = push_char c (tokens cs)

abbrev pub decimal : ℕ → Text → ℕ
decimal n [] = n
decimal n (c ∷ cs) = decimal (n * 10 + (c - b'0')) cs

-- strconv.ParseInt with its error dropped: a number out of range gives the greatest int64.
unfoldable pub parse_int : Text → ℕ
parse_int token = min (decimal 0 token) 9_223_372_036_854_775_807

abbrev pub is_separator : Text → Bool
is_separator t = text_eq t (codes ".") || text_eq t (codes "-") || text_eq t (codes "_")

abbrev pub add_part : Bool × Text → List VersionPart → List VersionPart
add_part (true, t) ps = record { numeric = true; number = parse_int t; text = [] } ∷ ps
add_part (false, t) ps =
    if is_separator t then ps else record { numeric = false; number = 0; text = t } ∷ ps

unfoldable pub parts_of : List (Bool × Text) → List VersionPart
parts_of [] = []
parts_of (t ∷ ts) = add_part t (parts_of ts)

unfoldable pub version_parts : Text → List VersionPart
unfolding tokens parts_of parse_int
version_parts value = parts_of (tokens value)

abbrev pub is_zero_part : VersionPart → Bool
is_zero_part p = p.numeric && p.number == 0

abbrev pub keep_part : VersionPart → List VersionPart → List VersionPart
keep_part p [] = if is_zero_part p then [] else p ∷ []
keep_part p (q ∷ qs) = p ∷ q ∷ qs

-- trimTrailingZeroParts
unfoldable pub trim_trailing_zero_parts : List VersionPart → List VersionPart
trim_trailing_zero_parts [] = []
trim_trailing_zero_parts (p ∷ ps) = keep_part p (trim_trailing_zero_parts ps)

abbrev pub lower : ℕ → ℕ
lower c = if leb b'A' c && leb c b'Z' then c + 32 else c

unfoldable pub to_lower : Text → Text
to_lower [] = []
to_lower (c ∷ cs) = lower c ∷ to_lower cs

-- `strings.TrimPrefix(value, "v")`
abbrev pub trim_prefix_v : Text → Text
trim_prefix_v [] = []
trim_prefix_v (c ∷ cs) = if c == b'v' then cs else c ∷ cs

-- cleanVersion, on texts whose letters are ASCII.
unfoldable pub clean_version : Text → Text
unfolding to_lower trim_space
clean_version value = trim_prefix_v (to_lower (trim_space value))

abbrev pub number_order : ℕ → ℕ → Order
number_order a b = if ltb a b then less else if ltb b a then greater else same

unfoldable pub text_order : Text → Text → Order
text_order a b = if text_less a b then less else if text_less b a then greater else same

-- The comparison of two parts in the loop; `same` goes on to the next.
unfoldable pub part_order : VersionPart → VersionPart → Order
unfolding text_order
part_order a b =
    if a.numeric && b.numeric
    then number_order a.number b.number
    else if a.numeric
    then greater
    else if b.numeric
    then less
    else text_order a.text b.text

abbrev pub then_order : Order → Order → Order
then_order less o = less
then_order same o = o
then_order greater o = greater

-- The loop, where a missing part is the zero value.
unfoldable pub compare_parts : List VersionPart → List VersionPart → Order
compare_parts [] [] = same
compare_parts [] (b ∷ ys) = then_order (part_order no_part b) (compare_parts [] ys)
compare_parts (a ∷ xs) [] = then_order (part_order a no_part) (compare_parts xs [])
compare_parts (a ∷ xs) (b ∷ ys) = then_order (part_order a b) (compare_parts xs ys)

abbrev pub cleaned_parts : Text → List VersionPart
cleaned_parts value = trim_trailing_zero_parts (version_parts (clean_version value))

unfoldable pub compare_versions : Text → Text → Order
compare_versions left right = compare_parts (cleaned_parts left) (cleaned_parts right)

abbrev pub is_less : Order → Bool
is_less less = true
is_less _ = false

abbrev pub is_greater : Order → Bool
is_greater greater = true
is_greater _ = false

abbrev pub is_same : Order → Bool
is_same same = true
is_same _ = false

pub record AffectedRange : Type 0 where
  pub affected_version : Text
  pub start_including : Text
  pub start_excluding : Text
  pub end_including : Text
  pub end_excluding : Text

abbrev pub names_version : Text → Bool
names_version v = not (is_empty v) && not (text_eq v (codes "*")) && not (text_eq v (codes "-"))

unfoldable pub version_affected : Text → AffectedRange → Bool
version_affected observed r =
    let o = clean_version observed in
    if is_empty o
    then false
    else if names_version r.affected_version
        && not (is_same (compare_versions o r.affected_version))
    then false
    else if not (is_empty r.start_including) && is_less (compare_versions o r.start_including)
    then false
    else if not (is_empty r.start_excluding)
        && not (is_greater (compare_versions o r.start_excluding))
    then false
    else if not (is_empty r.end_including) && is_greater (compare_versions o r.end_including)
    then false
    else if not (is_empty r.end_excluding) && not (is_less (compare_versions o r.end_excluding))
    then false
    else true
