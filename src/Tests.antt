-- ===== src/Tests.antt =====
-- Runs of the definitions on concrete inputs, and the theorems applied to them.
mod Killswitch
mod Config
mod Xvpn
mod Reconciler
mod Api
mod Proxy
mod Driver
mod Entry
mod Uplink
mod Logs
mod Store
mod Relay
mod Selfcheck
mod StateStore
mod Server
