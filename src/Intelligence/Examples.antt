-- ===== src/Intelligence/Examples.antt =====
-- The theorems on internal/intelligence/version.go at three releases and a range.
use mossward.Common.{
  ◌≡◌, refl, true, false, Text, codes, arith, [], trim_space, text_eq, text_less, is_empty,
}
use mossward.Intelligence.Version.{
  less, compare_versions, AffectedRange, version_affected, clean_version, tokens, parts_of,
  parse_int, version_parts, trim_trailing_zero_parts, to_lower, part_order, compare_parts,
  text_order,
}
use mossward.Intelligence.Ranges.{version_affected-between}

abbrev old : Text
old = codes "1.2"

abbrev middle : Text
middle = codes "1.10"

abbrev new : Text
new = codes "1.10.3"

old_step : compare_versions old middle ≡ less
unfolding compare_versions clean_version to_lower trim_space version_parts tokens parts_of parse_int
    trim_trailing_zero_parts compare_parts part_order text_order text_eq text_less
old_step = refl

new_step : compare_versions middle new ≡ less
unfolding compare_versions clean_version to_lower trim_space version_parts tokens parts_of parse_int
    trim_trailing_zero_parts compare_parts part_order text_order text_eq text_less
new_step = refl

abbrev range : AffectedRange
range = record {
  affected_version = [];
  start_including = codes "1.2";
  start_excluding = [];
  end_including = [];
  end_excluding = codes "2";
}

old_affected : version_affected old range ≡ true
unfolding version_affected compare_versions clean_version to_lower trim_space version_parts tokens
    parts_of parse_int trim_trailing_zero_parts compare_parts part_order text_order text_eq
    text_less
old_affected = refl

new_affected : version_affected new range ≡ true
unfolding version_affected compare_versions clean_version to_lower trim_space version_parts tokens
    parts_of parse_int trim_trailing_zero_parts compare_parts part_order text_order text_eq
    text_less
new_affected = refl

middle_filled : is_empty (clean_version middle) ≡ false
unfolding clean_version to_lower trim_space
middle_filled = refl

old_up : compare_versions (clean_version old) (clean_version middle) ≡ less
unfolding compare_versions clean_version to_lower trim_space version_parts tokens parts_of parse_int
    trim_trailing_zero_parts compare_parts part_order text_order text_eq text_less
old_up = refl

middle_up : compare_versions (clean_version middle) (clean_version new) ≡ less
unfolding compare_versions clean_version to_lower trim_space version_parts tokens parts_of parse_int
    trim_trailing_zero_parts compare_parts part_order text_order text_eq text_less
middle_up = refl

version_affected-between_example : version_affected middle range ≡ true
version_affected-between_example =
    version_affected-between old middle new range refl middle_filled
      (λ e. ground (arith, old_up, e)) (λ e. ground (arith, middle_up, e)) old_affected new_affected
