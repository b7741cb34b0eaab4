-- ===== src/Proxy.antt =====
-- The SOCKS5 proxy: image/agent/internal/proxy.
pub mod Conn
pub mod Address
pub mod Socks5
pub mod Datagram
pub mod Server
pub mod Handshake
pub mod Relay
