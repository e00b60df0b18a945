-- ===== src/Tun.antt =====
-- gotun2socks/tun2socks: the tunnel between the TUN device and the proxy servers.
pub mod Pack
pub mod Conn
pub mod Fragments
pub mod Datagram
pub mod Dns
pub mod Associate
pub mod Device
