-- ===== src/Ingest.antt =====
-- cp/internal/ingest: telemetry becomes rows that workers insert in batches.
pub mod Convert
pub mod Ingester
pub mod Worker
