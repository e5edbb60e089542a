-- ===== src/AgentUpdate/Version.antt =====
-- internal/agentupdate/version.go: parseVersion and IsUpgrade; manifest.go: versionPattern, written out
-- as the checks it makes.
use mossward.Common.{
  ℕ, ◌+◌, ◌-◌, ◌*◌, Bool, true, false, ◌||◌, ◌&&◌, not, Option, some, none, List, [], ◌∷◌, ltb, leb,
  ◌==◌, if◌then◌else◌, Text, text_eq, text_less, is_empty, split_dots,
}

-- `[0-9]` and `[0-9A-Za-z.-]`
abbrev pub is_digit : ℕ → Bool
is_digit c = leb b'0' c && leb c b'9'

abbrev pub is_prerelease_char : ℕ → Bool
is_prerelease_char c =
    is_digit c || (leb b'A' c && leb c b'Z') || (leb b'a' c && leb c b'z') || c == b'.' || c == b'-'

abbrev pub all_chars : (ℕ → Bool) → Text → Bool
all_chars p [] = true
all_chars p (c ∷ cs) = p c && all_chars p cs

-- `strings.Cut(value, "-")`: what stands before the first dash, and what stands after it if there is one.
abbrev pub keep_before : ℕ → Text × Option Text → Text × Option Text
keep_before c (core, rest) = (c ∷ core, rest)

unfoldable pub cut_dash : Text → Text × Option Text
cut_dash [] = ([], none)
cut_dash (c ∷ cs) =
    let rest = cut_dash cs in if c == b'-' then ([], some cs) else keep_before c rest

abbrev pub is_number : Text → Bool
is_number t = not (is_empty t) && all_chars is_digit t

abbrev pub is_core : List Text → Bool
is_core (a ∷ b ∷ c ∷ []) = is_number a && is_number b && is_number c
is_core _ = false

abbrev pub is_prerelease : Option Text → Bool
is_prerelease none = true
is_prerelease (some t) = not (is_empty t) && all_chars is_prerelease_char t

-- `versionPattern.MatchString`; no digit and no dot is a dash, so the core ends at the first dash.
unfoldable pub version_pattern : Text → Bool
unfolding cut_dash split_dots
version_pattern value =
    let (core, rest) = cut_dash value in is_core (split_dots core) && is_prerelease rest

-- strconv.Atoi on digits; `none` is a number out of range.
abbrev pub decimal : ℕ → Text → ℕ
decimal n [] = n
decimal n (c ∷ cs) = decimal (n * 10 + (c - b'0')) cs

unfoldable pub atoi : Text → Option ℕ
atoi t = let n = decimal 0 t in if ltb 9_223_372_036_854_775_807 n then none else some n

pub record ParsedVersion : Type 0 where
  pub major : ℕ
  pub minor : ℕ
  pub patch : ℕ
  pub prerelease : Text

abbrev pub text_or_empty : Option Text → Text
text_or_empty none = []
text_or_empty (some t) = t

abbrev pub with_numbers : Option ℕ → Option ℕ → Option ℕ → Text → Option ParsedVersion
with_numbers (some a) (some b) (some c) rest =
    some (record { major = a; minor = b; patch = c; prerelease = rest })
with_numbers _ _ _ rest = none

abbrev pub from_core : List Text → Text → Option ParsedVersion
from_core (a ∷ b ∷ c ∷ []) rest = with_numbers (atoi a) (atoi b) (atoi c) rest
from_core _ rest = none

unfoldable pub parse_version : Text → Option ParsedVersion
parse_version value =
    let (core, rest) = cut_dash value in
    if not (version_pattern value) then none else from_core (split_dots core) (text_or_empty rest)

-- IsUpgrade on the parsed versions: the first number that differs decides, then the prerelease.
unfoldable pub newer : ParsedVersion → ParsedVersion → Bool
newer current target =
    if not (target.major == current.major)
    then ltb current.major target.major
    else if not (target.minor == current.minor)
    then ltb current.minor target.minor
    else if not (target.patch == current.patch)
    then ltb current.patch target.patch
    else if text_eq current.prerelease target.prerelease
    then false
    else if is_empty current.prerelease
    then false
    else if is_empty target.prerelease
    then true
    else text_less current.prerelease target.prerelease

abbrev pub newer_parsed : Option ParsedVersion → Option ParsedVersion → Bool
newer_parsed none target = false
newer_parsed (some current) none = false
newer_parsed (some current) (some target) = newer current target

unfoldable pub is_upgrade : Text → Text → Bool
unfolding parse_version newer
is_upgrade current target = newer_parsed (parse_version current) (parse_version target)
