-- ===== src/Tun/Conn/Relay/Carried.antt =====
-- What the writer of tcpSocks2Tun hands to the connection of the proxy, under every schedule.
use go_game_proxy.Prelude.{◌≡◌, refl, Bool, true, false, ◌&&◌, List, [], ◌∷◌, ◌++◌, Bytes, map, All}
use go_game_proxy.Packet.Wire.{ret}
use go_game_proxy.Tun.Pack.{TcpPacket}
use go_game_proxy.Socks.{Net}
use go_game_proxy.Tun.Conn.{ProxyServer}
use go_game_proxy.Tun.Conn.Handlers.{is_not_sent}
use go_game_proxy.Tun.Conn.Relay.{
  WriterAt, writer_idle, writer_holds, writer_waits, writer_writes, writer_gone, Relay,
}
use go_game_proxy.Tun.Conn.Relay.Moves.{connect_bytes, name_host, outgoing, wake_writer}

-- The bytes that the writer has still to write.
abbrev pub IsDue : ProxyServer → WriterAt → List Bytes → Type 0
IsDue p writer_idle due = due ≡ []
IsDue p (writer_holds pkt) due = (b : Bytes) × (outgoing p pkt ≡ ret b) × (due ≡ b ∷ [])
IsDue p (writer_waits pkt) due = (b : Bytes) × (outgoing p pkt ≡ ret b) × (due ≡ b ∷ [])
IsDue p (writer_writes pkt) due = (b : Bytes) × (outgoing p pkt ≡ ret b) × (due ≡ b ∷ [])
IsDue p writer_gone due = due ≡ []

pub wake_writer-IsDue :
    (p : ProxyServer) (w : WriterAt) (due : List Bytes)
    → IsDue p w due
    → IsDue p (wake_writer w) due
unfolding wake_writer
wake_writer-IsDue p writer_idle due h = h
wake_writer-IsDue p (writer_holds pkt) due h = h
wake_writer-IsDue p (writer_waits pkt) due h = h
wake_writer-IsDue p (writer_writes pkt) due h = h
wake_writer-IsDue p writer_gone due h = h

abbrev pub is_nil {ℓ} : {A : Type ℓ} → List A → Bool
is_nil [] = true
is_nil (x ∷ xs) = false

module _ (net : Net) (dst : Bytes) (p : ProxyServer) (opening : Bool)
    (render : TcpPacket → Bytes) where
  -- A packet that the writer can write, whether or not it gets the host name of the CONNECT request.
  abbrev pub Renders : TcpPacket → Type 0
  Renders pkt =
      (outgoing p pkt ≡ ret (render pkt))
      × (opening ≡ true → outgoing p (name_host net dst pkt) ≡ ret (render pkt))

  -- What comes before the first packet: the CONNECT request, where one is needed.
  abbrev pub request_for : Bool → List TcpPacket → List Bytes
  request_for false pkts = []
  request_for true [] = []
  request_for true (pkt ∷ pkts) =
      connect_bytes (name_host net dst pkt).tcp.hostname p.auth_header ∷ []

  -- The writer has taken the first packets of those handed over and written the request and, but for
  -- the one it holds, what each of them stands for.
  pub record IsCarried (handed : List TcpPacket) (s : Relay) : Type 0 where
    pub taken : List TcpPacket
    pub due : List Bytes
    pub all_handed : taken ++ s.incoming ≡ handed
    pub is_due : IsDue p s.writer due
    pub in_order : s.written ++ due ≡ request_for opening taken ++ map render taken
    pub not_sent : is_not_sent s.conn.connect_state ≡ (opening && is_nil taken)
    pub same_proxy : s.conn.proxy_server ≡ p
    pub same_ip : s.conn.remote_ip ≡ dst
    pub can_render : All Renders s.incoming

  pub IsCarried-agree :
      (handed : List TcpPacket) (s s' : Relay)
      → IsCarried handed s
      → s'.incoming ≡ s.incoming
      → s'.written ≡ s.written
      → s'.conn.proxy_server ≡ s.conn.proxy_server
      → s'.conn.remote_ip ≡ s.conn.remote_ip
      → is_not_sent s'.conn.connect_state ≡ is_not_sent s.conn.connect_state
      → ((due : List Bytes) → IsDue p s.writer due → IsDue p s'.writer due)
      → IsCarried handed s'
  IsCarried-agree handed s s' k inc wr pr ip st du = record {
    taken = k.taken;
    due = k.due;
    all_handed = rw inc k.all_handed;
    is_due = du k.due k.is_due;
    in_order = rw wr k.in_order;
    not_sent = rw st k.not_sent;
    same_proxy = rw pr k.same_proxy;
    same_ip = rw ip k.same_ip;
    can_render = rw inc k.can_render;
  }

  pub request_for-nil : (o : Bool) → request_for o [] ≡ []
  request_for-nil true = refl
  request_for-nil false = refl
