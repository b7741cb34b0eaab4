-- ===== src/Logs.antt =====
-- The journal: image/agent/internal/logs/logs.go.
pub mod Redactor
pub mod Buffer
