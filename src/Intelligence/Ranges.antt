-- ===== src/Intelligence/Ranges.antt =====
-- internal/intelligence/version.go: which versions VersionAffected finds in a range.
use mossward.Common.{◌≡◌, ◌≢◌, true, false, arith, Text, is_empty}
use mossward.Intelligence.Version.{
  greater, is_less, is_greater, compare_versions, clean_version, AffectedRange, names_version,
  version_affected,
}
use mossward.Intelligence.Order.{compare_versions-flip, compare_versions-Composes}

-- What lies above a version is above every version that is not greater.
lower_end :
    (a b s : Text)
    → compare_versions a b ≢ greater
    → (is_less (compare_versions a s) ≡ false → is_less (compare_versions b s) ≡ false)
      × (is_greater (compare_versions a s) ≡ true → is_greater (compare_versions b s) ≡ true)
lower_end a b s h =
    let out = compare_versions-flip s a in
    let back = compare_versions-flip s b in
    (
      (λ e. ground (arith, out, back, e, h, compare_versions-Composes s a b)),
      (λ e. ground (arith, out, back, e, h, compare_versions-Composes s a b)),
    )

upper_end :
    (b c s : Text)
    → compare_versions b c ≢ greater
    → (is_greater (compare_versions c s) ≡ false → is_greater (compare_versions b s) ≡ false)
      × (is_less (compare_versions c s) ≡ true → is_less (compare_versions b s) ≡ true)
upper_end b c s h = (
  (λ e. ground (arith, e, h, compare_versions-Composes b c s)),
  (λ e. ground (arith, e, h, compare_versions-Composes b c s)),
)

-- The versions of a range without an exact version have no gap: a version, not empty when cleaned,
-- that lies between two affected ones is affected.
pub version_affected-between :
    (a b c : Text) (r : AffectedRange)
    → names_version r.affected_version ≡ false
    → is_empty (clean_version b) ≡ false
    → compare_versions (clean_version a) (clean_version b) ≢ greater
    → compare_versions (clean_version b) (clean_version c) ≢ greater
    → version_affected a r ≡ true
    → version_affected c r ≡ true
    → version_affected b r ≡ true
unfolding version_affected
version_affected-between a b c r h filled low high ea ec = ground (
  arith,
  h,
  filled,
  ea,
  ec,
  lower_end (clean_version a) (clean_version b) r.start_including low,
  lower_end (clean_version a) (clean_version b) r.start_excluding low,
  upper_end (clean_version b) (clean_version c) r.end_including high,
  upper_end (clean_version b) (clean_version c) r.end_excluding high,
)
