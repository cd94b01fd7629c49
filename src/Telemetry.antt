-- ===== src/Telemetry.antt =====
-- The agent's way back to the control plane: events and flows, the periodic senders and the buffer on
-- disk.
pub mod DiskBuffer
pub mod Batcher
pub mod Convert
pub mod Flows
pub mod Senders
