-- ===== src/Examples.antt =====
-- The theorems at concrete inputs.
pub mod Agent
pub mod Api
pub mod Datapath
pub mod Server
pub mod Session
pub mod Telemetry
pub mod Files
