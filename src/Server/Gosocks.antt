-- ===== src/Server/Gosocks.antt =====
-- A client of gosocks in front of this server.
use go_game_proxy.Prelude.{ℕ, ◌≤◌, ◌<◌, ◌≡◌, ◌++◌, Bytes, length}
use go_game_proxy.Packet.Wire.{ret}
use go_game_proxy.Socks.{Net, done, pack_host}
use go_game_proxy.Socks.RoundTrip.{IsNet}
use go_game_proxy.Server.{Outside, read_addr_of}

-- The hosts that this server can read: no address of version 6.
pub data IsPlainHost (net : Net) : ℕ → Bytes → Type 0 where
  dotted_host : (b : Bytes) → length b ≡ 4 → IsPlainHost net 1 (net.ip_string b)
  named_host : (name : Bytes) → length name < 255 → IsPlainHost net 3 name

module _ (net : Net) (out : Outside) (same : (b : Bytes) → out.dotted b ≡ net.ip_string b)
    (n : IsNet net) where
  -- The host in a message, and what the server reads of it.
  abbrev Heard : ℕ → Bytes → Bytes → Type 0
  Heard t host rest =
      (h : Bytes) × (pack_host net t host ≡ done h)
      × (length h ≤ 255)
      × (read_addr_of out t (h ++ rest) ≡ ret (done host, rest))
