-- ===== src/Pki.antt =====
-- Enrollment tokens and revoked certificates: cp/internal/pki.
pub mod Tokens
pub mod Revocation
