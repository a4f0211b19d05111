-- ===== src/Audit.antt =====
-- The audit log: internal/audit/middleware.go and internal/audit/logger.go. Texts are lists of bytes.
pub mod Paths
pub mod Numbers
mod Tests
pub mod Requests
