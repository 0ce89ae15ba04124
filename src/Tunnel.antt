-- ===== src/Tunnel.antt =====
-- src/tunnel.rs: the requests to the upstream proxy and the handshakes with it.
pub mod Head
pub mod Host
pub mod Request
pub mod Handshake
pub mod Connect
