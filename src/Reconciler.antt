-- ===== src/Reconciler.antt =====
-- The control loop: image/agent/internal/reconciler.
pub mod World
pub mod Connecting
pub mod Pass
pub mod Safety
pub mod Reverts
pub mod Stale
pub mod Progress
pub mod Retry
pub mod Actions
