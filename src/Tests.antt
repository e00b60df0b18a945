-- ===== src/Tests.antt =====
-- Concrete packets and connections on which the theorems apply.
pub mod Packets
pub mod Connections
pub mod Messages
pub mod Ciphers
pub mod Datagrams
pub mod Associations
pub mod Halves
pub mod Programs
pub mod Relays
pub mod Sockets
