-- ===== src/Lib.antt =====
-- Verification of game-proxy: the TUN-to-SOCKS tunnel, which takes IP packets from a device, ends
-- their TCP connections itself and passes the payloads on to proxy servers.
--
-- gotun2socks/packet, the wire formats:
--   Packet/Wire.antt       calls that return, panic or never end; slices; big-endian access
--   Packet/Checksum.antt   common.go, Checksum
--   Packet/Ip4.antt        ip4.go, ParseIPv4, PseudoHeader, HeaderLength, Serialize
--   Packet/Tcp.antt        tcp.go, ParseTCP, HeaderLength, Serialize
--   Packet/Udp.antt        udp.go, ParseUDP, Serialize
--   Packet/Http.antt       http.go, the search for the host name and the patching of requests
-- The children of these modules prove what their names say: what is written, the round trips, and
-- that the loops end. A header is a record, and a method that changes it returns it.
--
-- gotun2socks/tun2socks, the tunnel:
--   Tun/Pack.antt           tcp.go, packTCP on a pooled buffer with arbitrary contents
--   Tun/Conn.antt           tcp.go, tcpConnTrack and the segments that it sends
--   Tun/Conn/Handlers.antt  tcp.go, stateClosed to stateLastAck
--   Tun/Conn/Run.antt       tcp.go, run: one round of the loop, and sequences of rounds
--   Tun/Conn/Track.antt     tcp.go, tcp, createTCPConnTrack, copyTCPPacket
--   Tun/Conn/Watch.antt     monitors of the effects of a connection
--   Tun/Conn/Relay.antt     tcp.go, callSocks and tcpSocks2Tun up to its goroutines
--   Tun/Conn/Relay/Moves.antt  tcp.go, callHttpProxyConnect and the moves of the two goroutines
-- A connection is a record; what it does to channels and sockets is a list of effects; what it
-- learns from the outside (time, identifications, the dialer, the choice of a select) is a record
-- that each round is given. In the loop the goroutines of tcpSocks2Tun and Stop appear as moves that
-- write to the connection between two rounds, each write as one step. In Relay the goroutines
-- themselves move, in any order that a schedule gives, between the points where one can block or
-- where another can come in between; what the loop does to them is a move as well.
--   Tun/Fragments.antt      ip.go, procFragment and genFragments
--   Tun/Datagram.antt       udp.go, responsePacket: an answer and its fragments
--   Tun/Dns.antt            udp.go, dnsCache; package dns is a parameter
--   Tun/Associate.antt      udp.go, udpConnTrack.run from its dial to the end of its loop
--   Tun/Associate/Tracks.antt  udp.go, udp and getUDPConnTrack
--   Tun/Device.antt         tun2socks.go, Run: the reader of the device and the writer
-- A socket or a channel is whether it is open; closing a closed channel panics. The children of
-- these modules prove what is written, what the cache answers, and what becomes of the sockets.
--   Tests                   concrete packets and connections
--
-- The messages of proxies:
--   Socks.antt    gotun2socks/gosocks/basic.go, SOCKS 5 messages; package net is a parameter
--   Socks/Auth.antt  gosocks/client.go and server.go, the greetings of both sides
--   Shadow.antt   shadowsocks/socks.go, readAddr and SplitAddr
--   Shadow/Handshake.antt  shadowsocks/socks.go, String, ParseAddr and Handshake
--   Socks/Serve.antt  gosocks/server.go, the commands of the SOCKS server, its replies, and the first
--                     packet of a UDP relay
--   Socks/Serve/Associate.antt  gosocks/server.go, the loop of a UDP relay, and ServeSocks
-- A reader is the bytes that it has left; where the code wraps a connection in a bufio.Reader that it
-- drops, nothing is said of what is left behind a message.
--
-- The ciphers of kcp/cipher:
--   Kcp/Little.antt  little, a table of 256 bytes
--   Kcp/Oor.antt     oor.go, `^` with a key that grows with the packets
-- The two halves of the proxy of kcp/service:
--   Kcp/Service.antt  socks5.go, and conn.go, clientSide up to pipe; a read is what it delivers
--   Kcp/Service/Remote.antt  conn.go, serverSide; package http is a parameter
-- The programs beside them:
--   Server.antt  socks/server/Server.go, Socks5Auth and Socks5Connect
--   Salt.antt    Client.go, saltByte, and atest/Server.go, deSaltByte
--
-- Bounds and fuel: numbers are natural numbers with the wrap-around of their width written out.
-- The option loops get one unit of fuel for each option byte and one more, and each round takes a
-- byte at least, or repeats for ever, which is the value `hang`. The carry of the checksum is
-- folded at most four times, which 32 bits cannot exceed.
--
-- The fragments get one unit of fuel for each byte of the payload and one more.
--
-- Not modelled: packet/tls.go, a copy of another project (a parameter of the TCP parser); the
-- device, the dialers, timers and logs (input and output); the application ids of tun2socks, which
-- are read from /proc; New and Stop of tun2socks; the accept loop of gosocks, the pipe of kcp and all
-- other copying between connections, which hand sockets to goroutines; gotun2socks/tun, the start-up
-- code of the programs, and go-android.
pub mod Prelude
pub mod Packet
pub mod Tun
pub mod Socks
pub mod Shadow
pub mod Kcp
pub mod Salt
pub mod Server
pub mod Tests
