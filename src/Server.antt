-- ===== src/Server.antt =====
-- The control plane's shared state: live streams, live tails and login limits.
pub mod Registry
pub mod Hub
pub mod RateLimit
