-- ===== src/Api.antt =====
-- The HTTP API's own state: image/agent/internal/api.
pub mod Sessions
pub mod Operations
pub mod Access
pub mod Login
pub mod Server
