-- ===== src/RelayHeartbeat.antt =====
-- internal/relayheartbeat/policy.go, internal/model/delayed_heartbeat.go: whether the heartbeats of an
-- endpoint may be late, by its own policy or by those of its groups.
pub mod Policy
pub mod Resolution
mod Examples
