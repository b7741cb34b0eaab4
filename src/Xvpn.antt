-- ===== src/Xvpn.antt =====
-- The driver of the ExpressVPN daemon: image/agent/internal/xvpn.
pub mod Errors
pub mod Protocol
pub mod Parse
pub mod Cli
pub mod Manager
