-- ===== src/Uplink.antt =====
-- The way out of the container: image/agent/internal/uplink.
pub mod System
pub mod Routes
pub mod Manager
pub mod Monitor
