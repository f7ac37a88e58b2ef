-- ===== src/Server.antt =====
-- server/server.go: the side that uploads. A connection's handler runs on the connection's state;
-- what it uses of the server does not change while it runs.
pub mod Handshaking
pub mod Requests
pub mod Sessions
pub mod Seeding
pub mod Leechers
pub mod Creation
pub mod Metrics
pub mod Connections
mod Examples
use bittorrent_over_scion.Common.{
  ℕ, zero, suc, ◌+◌, ◌-◌, List, [], ◌∷◌, ◌++◌, Bool, true, false, ◌&&◌, ◌||◌, not, Option, none,
  some, ◌==◌, leb, ltb, if◌then◌else◌, length, replicate, take, drop, ℤ, pos, negsuc, is_neg,
  pos_part, add_int, mul_int, to_u32, copy_at, u32_bytes, Error, Result, ok, err, halt, panic,
  stuck, unsupported, M, ◌>>=◌, ◌>>◌, pure, fail, lift, try, and_then,
}
use bittorrent_over_scion.Common.Stream.{Conn}
use bittorrent_over_scion.Bitfield.{Bitfield, set_piece}
use bittorrent_over_scion.Client.{send, send_port_if}
use bittorrent_over_scion.Config.{PeerDiscoveryConfig}
use bittorrent_over_scion.Handshake
use bittorrent_over_scion.Handshake.{Handshake}
use bittorrent_over_scion.Message
use bittorrent_over_scion.Message.{
  Message, msg_bitfield, msg_interested, msg_unchoke, msg_request, msg_piece, msg_port,
  parse_request, parse_port,
}
use bittorrent_over_scion.TorrentFile.{TorrentFile, Slice}

-- The fields that a connection's handler reads.
pub record Server (Addr : Type 0) : Type 0 where
  pub bitfield : Bitfield
  pub torrent_file : TorrentFile Addr
  pub discovery_config : PeerDiscoveryConfig Addr
  pub has_dht_node : Bool

-- `NewServer`: `make([]byte, len(PieceHashes))`, then SetPiece for each index.
unfoldable pub set_pieces : ℕ → Bitfield → Bitfield
set_pieces zero bf = bf
set_pieces (suc n) bf = set_piece (set_pieces n bf) (pos n)

unfoldable pub full_bitfield : {Addr : Type 0} → TorrentFile Addr → Bitfield
unfolding set_pieces
full_bitfield tf = let n = length tf.piece_hashes in set_pieces n (replicate n 0)

-- `s[lo:hi]`: a panic unless 0 ≤ lo ≤ hi ≤ cap(s).
unfoldable pub slice : Slice → ℤ → ℤ → Result (List ℕ)
slice s lo hi =
    if is_neg lo
      || is_neg hi
      || ltb (pos_part hi) (pos_part lo)
      || ltb (length (s.bytes ++ s.spare)) (pos_part hi)
    then halt panic
    else ok (take (pos_part hi - pos_part lo) (drop (pos_part lo) (s.bytes ++ s.spare)))

-- The PIECE message: a header of 8 bytes, and the block appended to it.
piece_reply : ℤ → ℤ → List ℕ → Message
piece_reply index begin block =
    let header =
      copy_at (copy_at (replicate 8 0) 0 (u32_bytes (to_u32 index))) 4 (u32_bytes (to_u32 begin)) in
    record { id = msg_piece; payload = header ++ block }

module _ {Addr : Type 0} (c : Conn) (s : Server Addr) where
  -- A REQUEST is answered by a PIECE with the numbers of the request and the bytes of the file.
  unfoldable pub answer_request : ℤ × ℤ × ℤ → M c.State (Unit {0})
  unfolding piece_reply
  answer_request (index, begin, length) =
      let start = mul_int index s.torrent_file.piece_length in
      (do
        block ← lift (
            slice s.torrent_file.content (add_int start begin)
              (add_int (add_int start begin) length))
        send c (piece_reply index begin block))

  ping_parsed : Result ℕ → M c.State (Unit {0})
  ping_parsed (ok port) = do _ ← try (c.ping port); pure tt
  ping_parsed (err e) = pure tt
  ping_parsed (halt h) = lift (halt h)

  -- A PORT message only ever has the DHT node pinged.
  unfoldable pub handle_port : Message → M c.State (Unit {0})
  unfolding ping_parsed
  handle_port msg st =
      if not s.discovery_config.enable_dht || not s.has_dht_node || not (c.has_remote st)
      then (ok tt, st)
      else ping_parsed (parse_port msg) st

  -- The `switch`.
  unfoldable pub handle_message : Message → M c.State (Unit {0})
  handle_message msg =
      if msg.id == msg_interested
      then send c (record { id = msg_unchoke; payload = [] })
      else (if msg.id == msg_request
          then (do r ← lift (parse_request msg); answer_request r)
          else (if msg.id == msg_port then handle_port msg else pure tt))

  -- A keep-alive ends the connection with no error.
  next_message : M c.State (Unit {0}) → Option Message → M c.State (Unit {0})
  next_message again none = pure tt
  next_message again (some msg) = handle_message msg >> again

  -- The endless loop, for at most `fuel` messages.
  unfoldable pub handle_loop : ℕ → M c.State (Unit {0})
  unfolding next_message
  handle_loop zero = lift (halt stuck)
  handle_loop (suc fuel) = do msg ← Message.read c; next_message (handle_loop fuel) msg

  -- The handshake is sent back as it came, then the bitfield, then maybe the port.
  unfoldable pub handle_incoming_handshake : M c.State (Unit {0})
  handle_incoming_handshake = do
    hs ← Handshake.read c
    c.write (Handshake.serialize hs)
    send c (record { id = msg_bitfield; payload = s.bitfield })
    send_port_if c (s.discovery_config.enable_dht && s.has_dht_node && hs.dht_support)
        s.discovery_config.dht_port

  -- The error of the handshake is dropped.
  unfoldable pub handle_connection : ℕ → Bool → M c.State (Unit {0})
  handle_connection fuel wait_for_handshake =
      if wait_for_handshake
      then (do _ ← try handle_incoming_handshake; handle_loop fuel)
      else handle_loop fuel
