-- ===== src/LoginThrottle.antt =====
-- internal/auth and internal/store/identity.go: how failed logins block an account and a source.
pub mod Attempts
pub mod Login
pub mod Progression
pub mod Refusal
pub mod Guessing
mod Examples
