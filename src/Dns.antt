-- ===== src/Dns.antt =====
-- The DNS forwarder, src/dns.rs.
pub mod Name
pub mod Format
pub mod Records
pub mod Table
pub mod Cache
pub mod Pending
pub mod Udp
pub mod Doh
pub mod Tcp
pub mod ProxyUrl
