-- ===== src/Server/Handshaking.antt =====
-- server/server.go: handleIncomingHandshake, and how it meets the client's completeHandshake.
use bittorrent_over_scion.Common.{
  ℕ, ◌+◌, ◌<◌, ◌^◌, ◌≡◌, refl, List, ◌++◌, append-nil, ◌&&◌, length, ok, ◌>>◌,
}
use bittorrent_over_scion.Common.Stream.{
  Conn, View, IsStream, Runs, Runs-bind, Runs-then, Runs-cast,
}
use bittorrent_over_scion.Config.{PeerDiscoveryConfig}
use bittorrent_over_scion.Handshake
use bittorrent_over_scion.Handshake.{Handshake}
use bittorrent_over_scion.Handshake.Wire.{IsHandshake, new-IsHandshake, read-serialize_handshake}
use bittorrent_over_scion.Message.{Message, msg_bitfield}
use bittorrent_over_scion.Message.Wire.{frame}
use bittorrent_over_scion.Client.{complete_handshake, recv_bitfield}
use bittorrent_over_scion.Client.Handshaking.{
  port_bytes, send-Runs, send_port_if-Runs, complete_handshake_agrees, recv_bitfield-Runs,
}
use bittorrent_over_scion.Server.{Server, handle_incoming_handshake}

abbrev pub bitfield_message : {Addr : Type 0} → Server Addr → Message
bitfield_message s = record { id = msg_bitfield; payload = s.bitfield }

-- What the server sends for a handshake.
abbrev pub reply : {Addr : Type 0} → Server Addr → Handshake → List ℕ
reply s h =
    Handshake.serialize h
    ++ (frame (bitfield_message s)
        ++ port_bytes (s.discovery_config.enable_dht && s.has_dht_node && h.dht_support)
            s.discovery_config.dht_port)

module _ {Addr : Type 0} (c : Conn) (v : View c.State) (stream : IsStream c v)
    (s : Server Addr) where
  -- To any well-formed handshake, whatever torrent it names, the server sends the same handshake
  -- back, then its bitfield, and then the PORT message exactly when both sides run a DHT node.
  pub handle_incoming_handshake-Runs :
      (h : Handshake) (rest : List ℕ)
      → IsHandshake h
      → length s.bitfield + 5 < 2 ^ 32
      → Runs v
          (handle_incoming_handshake c s)
          (Handshake.serialize h ++ rest)
          (ok tt)
          rest
          (reply s h)
  unfolding handle_incoming_handshake
  handle_incoming_handshake-Runs h rest w fits =
      Runs-bind _ (read-serialize_handshake c v stream h w rest) (
        Runs-then (stream.writes (Handshake.serialize h) rest) (
          Runs-then (send-Runs c v stream (bitfield_message s) rest fits)
            (send_port_if-Runs c v stream _ s.discovery_config.dht_port rest)))

-- A client and a server over two working ends of one connection, where the info hash and the peer
-- id have 20 bytes and the server's bitfield fits a message: on the client's handshake the server
-- makes a reply, and on that reply the client's completeHandshake and recvBitfield succeed with the
-- server's bitfield. What then waits is the server's PORT message, if there is one.
pub handshake_session :
    {Addr : Type 0} (c : Conn) (v : View c.State) (stream : IsStream c v) (c' : Conn)
    (v' : View c'.State) (stream' : IsStream c' v') (cfg : PeerDiscoveryConfig Addr)
    (s : Server Addr) (infohash peer_id more : List ℕ)
    → length infohash ≡ 20
    → length peer_id ≡ 20
    → length s.bitfield + 5 < 2 ^ 32
    → let hello = Handshake.new infohash peer_id cfg.enable_dht in
      Runs v'
        (handle_incoming_handshake c' s)
        (Handshake.serialize hello ++ more)
        (ok tt)
        more
        (reply s hello)
      × Runs v
          (complete_handshake c infohash peer_id cfg >> recv_bitfield c)
          (reply s hello)
          (ok s.bitfield)
          (port_bytes
            (s.discovery_config.enable_dht && s.has_dht_node && hello.dht_support)
            s.discovery_config.dht_port)
          (Handshake.serialize hello
            ++ port_bytes (hello.dht_support && cfg.enable_dht) cfg.dht_port)
unfolding Handshake.new
handshake_session c v stream c' v' stream' cfg s infohash peer_id more h k fits =
    let hello = Handshake.new infohash peer_id cfg.enable_dht in
    let w = new-IsHandshake infohash peer_id cfg.enable_dht h k in
    (
      handle_incoming_handshake-Runs c' v' stream' s hello more w fits,
      Runs-cast refl refl (append-nil _) (
          Runs-then (complete_handshake_agrees c v stream cfg peer_id hello _ w)
            (recv_bitfield-Runs c v stream s.bitfield _ fits)),
    )
