-- ===== src/NetworkPolicy.antt =====
-- internal/networkpolicy: which connections of an endpoint are kept out of its telemetry.
pub mod Exclusions
pub mod Normalized
pub mod Filtering
mod Examples
