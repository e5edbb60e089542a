-- ===== src/CoveragePolicy.antt =====
-- internal/coveragepolicy: which networks a policy of coverage discovery may name.
pub mod Normalization
pub mod Containment
mod Examples
