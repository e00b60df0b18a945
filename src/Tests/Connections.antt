-- ===== src/Tests/Connections.antt =====
-- gotun2socks/tun2socks: a connection that is opened, used and closed.
use go_game_proxy.Prelude.{
  ◌+◌, ◌≡◌, refl, inr, true, false, none, some, List, [], ◌∷◌, ◌++◌, Bytes, arith, u32, max, length,
}
use go_game_proxy.Packet.Wire.{ret}
use go_game_proxy.Packet.Ip4.{Ip4, new_ip4}
use go_game_proxy.Packet.Ip4.Written.{IsPlain as IsPlainIp, header_with}
use go_game_proxy.Packet.Ip4.RoundTrip.{received, parse_ip4-header_with}
use go_game_proxy.Packet.Tcp.Written.{IsPlain, segment_with}
use go_game_proxy.Packet.Tcp.RoundTrip.{received as received_tcp, parse_tcp-segment_with}
use go_game_proxy.Packet.Tcp.{Names, Tcp, new_tcp}
use go_game_proxy.Tun.Pack.{TcpPacket}
use go_game_proxy.Tun.Conn.{established, fin_wait_1, proxy_none, ProxyServer, Conn, rst_headers}
use go_game_proxy.Tun.Conn.Handlers.{World, Proxies, Outcome, is_conn, connected, choose_proxy}
use go_game_proxy.Tun.Conn.Run.{
  Loop, Turn, input, from_socks, ack_timeout, round, outside, written, Move, runs, handle,
}
use go_game_proxy.Tun.Conn.Flood.{IsEnding, AreFins, closed_rounds, runs-floods}
use go_game_proxy.Tun.Conn.Watch.{watch, Follows}
use go_game_proxy.Tun.Conn.Sequence.{advance, IsAt}
use go_game_proxy.Tun.Conn.Sequence.Runs.{runs-sequence}
use go_game_proxy.Tun.Conn.Relayed.{hand_on, IsRelaying}
use go_game_proxy.Tun.Conn.Relayed.Runs.{runs-relayed}
use go_game_proxy.Tun.Conn.Returns.{has_conn, runs-Returns}
use go_game_proxy.Tun.Conn.Track.{ConnId, new_conn, create_track, conn_id, copy_packet}
use go_game_proxy.Tun.Conn.Dispatch.{rst_headers-answers, Routes, dispatch-Routes}
use go_game_proxy.Tun.Conn.Diagram.{Moves, handle-diagram}

abbrev direct_proxy : ProxyServer
direct_proxy = record { proxy_type = proxy_none; ip_address = []; auth_header = [] }

abbrev proxies : Proxies
proxies = record { proxy_of = λ _. none; default_proxy = some direct_proxy }

abbrev world : World
world = record { ip_id = 1; now = 0; found_uid = none; dialled = connected; accepted = true }

abbrev server_ip : Bytes
server_ip = 192 ∷ 168 ∷ 0 ∷ 9 ∷ []

abbrev client_ip : Bytes
client_ip = 10 ∷ 0 ∷ 0 ∷ 2 ∷ []

abbrev out_ip : Ip4
out_ip = record new_ip4 { src_ip = client_ip; dst_ip = server_ip }

abbrev out_tcp : Tcp
out_tcp = record new_tcp { src_port = 50000; dst_port = 7000; seq = 1000; window = 65535 }

abbrev packet_of : Tcp → TcpPacket
packet_of tcp = record { ip = out_ip; tcp = tcp; wire = [] }

abbrev syn : TcpPacket
syn = packet_of (record out_tcp { syn = true })

abbrev hello : TcpPacket
hello =
    packet_of (record out_tcp { seq = 1001; ack = 2; ack_flag = true; payload = 104 ∷ 105 ∷ [] })

abbrev fin : TcpPacket
fin = packet_of (record out_tcp { seq = 1003; ack = 4; ack_flag = true; fin = true })

abbrev script : List Move
script =
    round world (input syn)
    ∷ round world (input hello)
    ∷ outside (written 2)
    ∷ round world (from_socks (1 ∷ 2 ∷ []))
    ∷ round world ack_timeout
    ∷ round world (input fin)
    ∷ []

abbrev fresh : Conn
fresh = new_conn world out_ip syn.tcp direct_proxy

created : create_track world proxies out_ip syn.tcp ≡ ret fresh
unfolding create_track choose_proxy
created = refl

session :
    (u : Turn) × (runs proxies script (some (record { conn = fresh; opened = false })) ≡ ret u)
unfolding has_conn is_conn
session =
    runs-Returns proxies direct_proxy script _ refl
      (refl, (refl, (refl, (refl, (refl, (refl, tt))))))

runs-sequence_example : Follows IsAt (watch advance 1 session.0.effects) session.0.next
runs-sequence_example = runs-sequence proxies script fresh refl session.1

runs-relayed_example : Follows IsRelaying (watch hand_on none session.0.effects) session.0.next
runs-relayed_example = runs-relayed proxies script fresh refl (omega arith) session.1

abbrev open_conn : Conn
open_conn = record fresh { state = established; nxt_seq = 4; rcv_nxt_seq = 1003 }

handled : (o : Outcome) × (handle world proxies established open_conn fin ≡ ret o)
unfolding handle
handled = (_, refl)

handle-diagram_example : Moves open_conn fin handled.0.conn
handle-diagram_example = handle-diagram world proxies open_conn fin handled.0 (λ e. cc) handled.1

rst_headers-answers_example :
    let r = rst_headers 1 client_ip server_ip 50000 7000 1000 77 0 in
    (r.0.src_ip ≡ server_ip)
    × (r.0.dst_ip ≡ client_ip)
    × (r.1.src_port ≡ 7000)
    × (r.1.dst_port ≡ 50000)
    × (r.1.rst ≡ true)
    × (r.1.ack_flag ≡ true)
    × (r.1.seq ≡ 77)
    × (r.1.ack ≡ u32 (1000 + max 1 0))
rst_headers-answers_example =
    rst_headers-answers 1 client_ip server_ip 50000 7000 1000 77 0 (omega arith) (omega arith)

abbrev no_names : Names
no_names = record { tls_hostname = λ _. ret none; trim_space = λ bytes. bytes }

abbrev raw_syn : Bytes
raw_syn = header_with out_ip 40 99 ++ (segment_with syn.tcp 5 ++ [])

out_ip-IsPlain : IsPlainIp out_ip
out_ip-IsPlain = ground arith

syn-IsPlain : IsPlain syn.tcp
syn-IsPlain = ground arith

copied : (pkt : TcpPacket) × (copy_packet no_names [] raw_syn ≡ ret pkt)
unfolding copy_packet
copied =
    let read_ip =
      parse_ip4-header_with out_ip 40 99 (segment_with syn.tcp 5 ++ []) [] out_ip-IsPlain
        (omega arith) (omega arith) (omega arith) in
    let read_tcp =
      parse_tcp-segment_with no_names syn.tcp 5 [] [] [] syn-IsPlain (omega arith)
        (inr (inr ((λ e. absurd (omega arith)), (λ e. absurd (omega arith)), refl))) in
    let pkt : TcpPacket = record {
      ip = received out_ip 40 99 (segment_with syn.tcp 5) [];
      tcp = received_tcp syn.tcp 5 [] [];
      wire = raw_syn;
    } in
    (pkt, rw (read_ip, read_tcp) refl)

-- A connection of these addresses and ports that is on its way out, behind one to another port.
abbrev old_tracks : List (ConnId × Conn)
old_tracks =
    (record (conn_id out_ip syn.tcp) { dst_port = 7001 }, fresh)
    ∷ (conn_id out_ip syn.tcp, record fresh { destroyed = true })
    ∷ []

dispatch-Routes_example :
    Routes world proxies no_names old_tracks [] raw_syn out_ip syn.tcp copied.0 direct_proxy
unfolding choose_proxy
dispatch-Routes_example =
    dispatch-Routes world proxies no_names old_tracks [] raw_syn out_ip syn.tcp copied.0
      direct_proxy copied.1 refl

abbrev ending : Loop
ending = record {
  conn = record open_conn { state = fin_wait_1; nxt_seq = 4294967294 };
  opened = true;
}

runs-floods_example :
    (u : Turn) × (l : Loop) × (runs proxies (closed_rounds world 3) (some ending) ≡ ret u)
    × (length u.effects ≡ 3)
    × AreFins 4294967294 u.effects
    × (u.next ≡ some l)
    × IsEnding l
    × (l.conn.nxt_seq ≡ 1)
runs-floods_example =
    runs-floods world proxies 3 ending
      (record { is_opened = refl; is_alive = refl; is_waiting = refl; in_range = omega arith })
