-- ===== src/RelayTransport.antt =====
-- internal/relaytransport: frames and their validation, the durable queue of encrypted frames, and
-- the choice of an approved route.
pub mod Protocol
pub mod Queue
pub mod Failover
pub mod Delayed
