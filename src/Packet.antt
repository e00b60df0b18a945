-- ===== src/Packet.antt =====
-- gotun2socks/packet: the headers of IPv4, TCP and UDP as the tunnel reads and writes them.
pub mod Wire
pub mod Checksum
pub mod Ip4
pub mod Http
pub mod Tcp
pub mod Udp
