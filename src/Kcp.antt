-- ===== src/Kcp.antt =====
-- kcp: the ciphers, which hide the bytes between the two halves of the proxy, and the two halves.
pub mod Little
pub mod Oor
pub mod Service
