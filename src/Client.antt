-- ===== src/Client.antt =====
-- client/client.go: the handshake of the side that downloads, the bitfield that follows it, and
-- the messages that it sends. A connection is a parameter (Common/Stream); the result of a call
-- whose error the code drops is taken by `try`.
pub mod Handshaking
pub mod Dialing
pub mod Connecting
pub mod Connected
pub mod Dialled
mod Examples
use bittorrent_over_scion.Common.{
  ℕ, ◌+◌, List, [], ◌∷◌, ◌++◌, map, Bool, true, false, ◌&&◌, not, Option, none, some, ◌==◌,
  if◌then◌else◌, bytes_equal, ℤ, Error, Result, ok, err, halt, no_bitfield, wrong_id,
  wrong_info_hash, M, ◌>>=◌, ◌>>◌, pure, fail, lift, try, defer,
}
use bittorrent_over_scion.Common.Stream.{Conn}
use bittorrent_over_scion.Bitfield.{Bitfield}
use bittorrent_over_scion.Config.{PeerDiscoveryConfig}
use bittorrent_over_scion.Handshake
use bittorrent_over_scion.Handshake.{Handshake}
use bittorrent_over_scion.Message
use bittorrent_over_scion.Message.{
  Message, msg_bitfield, msg_interested, msg_not_interested, msg_unchoke, format_port,
  format_request, format_have,
}
use bittorrent_over_scion.Peers.{Peer}

-- The connection itself is the state of the calls. Of the DHT node it matters here whether there is one.
pub record Client (Addr : Type 0) : Type 0 where
  pub choked : Bool
  pub bitfield : Bitfield
  pub peer : Peer
  pub info_hash : List ℕ  -- [20]byte
  pub peer_id : List ℕ  -- [20]byte
  pub discovery_config : PeerDiscoveryConfig Addr
  pub has_dht_node : Bool

-- `conn.Write(m.Serialize())`
unfoldable pub send : (c : Conn) → Message → M c.State (Unit {0})
send c m = do bytes ← lift (Message.serialize (some m)); c.write bytes

unfoldable pub send_request : (c : Conn) → ℤ → ℤ → ℤ → M c.State (Unit {0})
send_request c index begin length = send c (format_request index begin length)

unfoldable pub send_interested : (c : Conn) → M c.State (Unit {0})
send_interested c = send c (record { id = msg_interested; payload = [] })

unfoldable pub send_not_interested : (c : Conn) → M c.State (Unit {0})
send_not_interested c = send c (record { id = msg_not_interested; payload = [] })

unfoldable pub send_unchoke : (c : Conn) → M c.State (Unit {0})
send_unchoke c = send c (record { id = msg_unchoke; payload = [] })

unfoldable pub send_have : (c : Conn) → ℤ → M c.State (Unit {0})
send_have c index = send c (format_have index)

-- The PORT message is sent when both sides run a DHT node, and a failure of it is only logged.
unfoldable pub send_port_if : (c : Conn) → Bool → ℕ → M c.State (Unit {0})
send_port_if c both port =
    if both then (do _ ← try (send c (format_port port)); pure tt) else pure tt

module _ {Addr : Type 0} (c : Conn) where
  check_reply : List ℕ → PeerDiscoveryConfig Addr → Handshake → M c.State Handshake
  check_reply infohash cfg res =
      if not (bytes_equal res.info_hash infohash)
      then fail wrong_info_hash
      else (do send_port_if c (res.dht_support && cfg.enable_dht) cfg.dht_port; pure res)

  exchange : List ℕ → List ℕ → PeerDiscoveryConfig Addr → M c.State Handshake
  exchange infohash peer_id cfg = do
    c.write (Handshake.serialize (Handshake.new infohash peer_id cfg.enable_dht))
    res ← Handshake.read c
    check_reply infohash cfg res

  unfoldable pub complete_handshake :
      List ℕ → List ℕ → PeerDiscoveryConfig Addr → M c.State Handshake
  unfolding exchange check_reply
  complete_handshake infohash peer_id cfg = do
    _ ← try (c.set_deadline 3)
    defer (exchange infohash peer_id cfg) (c.set_deadline 0)

bitfield_of : (c : Conn) → Option Message → M c.State Bitfield
bitfield_of c none = fail no_bitfield
bitfield_of c (some msg) =
    if not (msg.id == msg_bitfield) then fail (wrong_id msg_bitfield msg.id) else pure msg.payload

unfoldable pub recv_bitfield : (c : Conn) → M c.State Bitfield
unfolding bitfield_of
recv_bitfield c = do
  _ ← try (c.set_deadline 5)
  defer (Message.read c >>= bitfield_of c) (c.set_deadline 0)

-- What the call leaves in the client: on an error of `recvBitfield` the field is nil.
received : {Addr : Type 0} → Client Addr → Result Bitfield → Client Addr × Result (Unit {0})
received cl (ok bf) = (record cl { bitfield = bf }, ok tt)
received cl (err e) = (record cl { bitfield = [] }, err e)
received cl (halt h) = (cl, halt h)

after_handshake :
    {Addr : Type 0} (c : Conn)
    → Client Addr
    → Result Handshake
    → M c.State (Client Addr × Result (Unit {0}))
unfolding received
after_handshake c cl (ok h) = do bf ← try (recv_bitfield c); pure (received cl bf)
after_handshake c cl (err e) = pure (cl, err e)
after_handshake c cl (halt h) = pure (cl, halt h)

-- `Client.Handshake`: the client afterwards, with the error that Go returns.
unfoldable pub client_handshake :
    {Addr : Type 0} (c : Conn) → Client Addr → M c.State (Client Addr × Result (Unit {0}))
unfolding after_handshake
client_handshake c cl = do
  shaken ← try (complete_handshake c cl.info_hash cl.peer_id cl.discovery_config)
  after_handshake c cl shaken

-- `DialAndWaitForConnectBack`, from the connections that the socket got on: what it needs to know.
pub record Dial (Addr : Type 0) : Type 0 where
  pub peer : Peer
  pub peer_id : List ℕ
  pub info_hash : List ℕ
  pub discovery_config : PeerDiscoveryConfig Addr
  pub has_dht_node : Bool

module _ {Addr : Type 0} (c : Conn) (d : Dial Addr) where
  unfoldable pub connect_one : M c.State (Client Addr)
  connect_one = do
    _ ← complete_handshake c d.info_hash d.peer_id d.discovery_config
    bf ← recv_bitfield c
    pure (record {
      peer = d.peer;
      peer_id = d.peer_id;
      info_hash = d.info_hash;
      choked = false;
      bitfield = bf;
      discovery_config = d.discovery_config;
      has_dht_node = d.has_dht_node;
    })

  -- One connection is done: an error ends the loop, and the connections behind it are as they were.
  connected :
      Result (Client Addr)
      → c.State
      → List c.State
      → Result (List (Client Addr)) × List c.State
      → Result (List (Client Addr)) × List c.State
  connected (ok cl) s untouched (ok cls, later) = (ok (cl ∷ cls), s ∷ later)
  connected (ok cl) s untouched (err e, later) = (err e, s ∷ later)
  connected (ok cl) s untouched (halt h, later) = (halt h, s ∷ later)
  connected (err e) s untouched rest = (err e, s ∷ untouched)
  connected (halt h) s untouched rest = (halt h, s ∷ untouched)

  -- The loop over the connections. The last is the incoming one and is skipped.
  connect_each : List c.State → Result (List (Client Addr)) × List c.State
  unfolding connected
  connect_each [] = (ok [], [])
  connect_each (s ∷ []) = (ok [], s ∷ [])
  connect_each (s ∷ t ∷ rest) =
      let later = connect_each (t ∷ rest) in
      connected (connect_one s).0 (connect_one s).1 (t ∷ rest) later

  -- On an error every connection is closed.
  closed : Result (List (Client Addr)) × List c.State → Result (List (Client Addr)) × List c.State
  closed (ok cls, conns) = (ok cls, conns)
  closed (err e, conns) = (err e, map (λ s. (c.close s).1) conns)
  closed (halt h, conns) = (halt h, conns)

  unfoldable pub dial : List c.State → Result (List (Client Addr)) × List c.State
  unfolding connect_each closed
  dial conns = closed (connect_each conns)
