-- ===== src/Killswitch.antt =====
-- The kill switch: image/agent/internal/killswitch. `Ruleset` and `Iptables` generate the two rule
-- files, `Manager` loads one of them.
pub mod Rule
pub mod Ruleset
pub mod Iptables
pub mod Verdicts
pub mod Manager
