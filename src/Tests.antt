-- ===== src/Tests.antt =====
-- The theorems at concrete inputs.
pub mod Data
pub mod Packets
pub mod Maps
pub mod Forwarder
pub mod Hellos
pub mod Proxies
pub mod Coalescing
pub mod Streams
pub mod Connections
pub mod Settings
pub mod Rules
pub mod Datagrams
pub mod Destinations
pub mod Announcements
