-- ===== src/P2p.antt =====
-- p2p/p2p.go: the bounds of the pieces, the download of one piece over one connection, the check of
-- its hash, and the file put together from the pieces.
-- The progress of a piece is a value that the calls pass on: on an error the worker gives up the
-- connection and never looks at it again. SHA-1 is a parameter.
pub mod Bounds
pub mod Pipeline
pub mod Notes
pub mod Parcels
pub mod Transfer
pub mod Assembly
pub mod Integrity
pub mod Sizes
pub mod Writes
pub mod Workers
pub mod Download
pub mod Discovery
pub mod Connections
pub mod Exchange
mod Examples
mod Scenario
use bittorrent_over_scion.Common.{
  ℕ, zero, suc, ◌+◌, ◌-◌, ◌*◌, List, [], ◌∷◌, ◌++◌, Bool, true, false, ◌&&◌, ◌||◌, not, Option,
  none, some, ◌==◌, ltb, leb, if◌then◌else◌, length, replicate, bytes_equal, ℤ, pos, negsuc, is_neg,
  pos_part, neg_part, sub_ℕ, ltb_ℤ, add_int, sub_int, mul_int, copy_at, Result, ok, err, halt,
  panic, fatal, stuck, Error, integrity, M, ◌>>=◌, ◌>>◌, pure, fail, lift, try, defer, and_then,
  min, take,
}
use bittorrent_over_scion.Common.Stream.{Conn}
use bittorrent_over_scion.Bitfield.{has_piece, set_piece}
use bittorrent_over_scion.Client.{Client, send_request, send_have}
use bittorrent_over_scion.Message
use bittorrent_over_scion.Message.{
  Message, msg_unchoke, msg_choke, msg_have, msg_piece, msg_port, parse_have, parse_piece,
  parse_port,
}

abbrev pub max_block_size : ℕ
max_block_size = 256 * 1024

abbrev pub max_backlog : ℕ
max_backlog = 5

pub record Torrent : Type 0 where
  pub piece_hashes : List (List ℕ)
  pub piece_length : ℤ
  pub length : ℤ

pub record PieceWork : Type 0 where
  pub index : ℤ
  pub hash : List ℕ
  pub length : ℤ

pub record PieceResult : Type 0 where
  pub index : ℤ
  pub buf : List ℕ

unfoldable pub calculate_bounds_for_piece : Torrent → ℤ → ℤ × ℤ
calculate_bounds_for_piece t index =
    let begin = mul_int index t.piece_length in
    let end = add_int begin t.piece_length in (begin, if ltb_ℤ t.length end then t.length else end)

unfoldable pub calculate_piece_size : Torrent → ℤ → ℤ
calculate_piece_size t index =
    let (begin, end) = calculate_bounds_for_piece t index in sub_int end begin

-- The first loop of `Download`, from index `i` on: one work item for each hash.
unfoldable pub queue_from : Torrent → ℕ → List (List ℕ) → List PieceWork
queue_from t i [] = []
queue_from t i (hash ∷ hashes) =
    record { index = pos i; hash = hash; length = calculate_piece_size t (pos i) }
    ∷ queue_from t (i + 1) hashes

-- `downloaded` and `requested` never pass twice the piece's length. `backlog` falls below 0 when a
-- peer sends blocks that were not asked for; no connection lives for the 2 ^ 63 of them that would
-- make it wrap.
pub record Progress (Addr : Type 0) : Type 0 where
  pub index : ℤ
  pub client : Client Addr
  pub buf : List ℕ
  pub downloaded : ℕ
  pub requested : ℕ
  pub backlog : ℤ

abbrev pub inc : ℤ → ℤ
inc a = sub_ℕ (pos_part a + 1) (neg_part a)

abbrev pub dec : ℤ → ℤ
dec a = sub_ℕ (pos_part a) (neg_part a + 1)

-- `min(MaxBlockSize, pw.length)`, or what is still to be requested, if that is less.
unfoldable pub block_size : ℕ → ℕ → ℕ
block_size len requested =
    let size = if ltb max_block_size len then max_block_size else len in
    let due = len - requested in if ltb due size then due else size

module _ {Addr : Type 0} where
  set_choked : Bool → Progress Addr → Progress Addr
  set_choked b p = record p { client = record p.client { choked = b } }

  take_have : Progress Addr → Result ℤ → Result (Progress Addr)
  take_have p (ok index) =
      ok (record p { client = record p.client { bitfield = set_piece p.client.bitfield index } })
  take_have p (err e) = err e
  take_have p (halt h) = halt h

  take_block : Progress Addr → Result (ℕ × List ℕ) → Result (Progress Addr)
  take_block p (ok (n, buf)) =
      ok (record p { buf = buf; downloaded = p.downloaded + n; backlog = dec p.backlog })
  take_block p (err e) = err e
  take_block p (halt h) = halt h

module _ {Addr : Type 0} (c : Conn) where
  ping_port : Progress Addr → Result ℕ → M c.State (Progress Addr)
  ping_port p (ok port) = do _ ← try (c.ping port); pure p
  ping_port p (err e) = pure p
  ping_port p (halt h) = lift (halt h)

  -- The `switch`; any other message is passed over.
  unfoldable pub take_message : Progress Addr → Message → M c.State (Progress Addr)
  unfolding set_choked take_have take_block ping_port
  take_message p msg =
      if msg.id == msg_unchoke
      then pure (set_choked false p)
      else (if msg.id == msg_choke
          then pure (set_choked true p)
          else (if msg.id == msg_have
              then lift (take_have p (parse_have msg))
              else (if msg.id == msg_piece
                  then lift (take_block p (parse_piece p.index p.buf msg))
                  else (if msg.id == msg_port
                      then (if not p.client.discovery_config.enable_dht || not p.client.has_dht_node
                          then pure p
                          else ping_port p (parse_port msg))
                      else pure p))))

  take_message? : Progress Addr → Option Message → M c.State (Progress Addr)
  take_message? p none = pure p
  take_message? p (some msg) = take_message p msg

  unfoldable pub read_message : Progress Addr → M c.State (Progress Addr)
  unfolding take_message?
  read_message p = do msg ← Message.read c; take_message? p msg

  -- After a request went out.
  pub requested_more : ℕ → Progress Addr → Progress Addr
  requested_more size p = record p { requested = p.requested + size; backlog = inc p.backlog }

  -- The inner loop. A round requests a byte at least, so `len` rounds are enough.
  unfoldable pub send_requests : ℕ → ℕ → Progress Addr → M c.State (Progress Addr)
  unfolding requested_more
  send_requests zero len p s = (halt stuck, s)
  send_requests (suc fuel) len p s =
      let size = block_size len p.requested in
      let go_on : M c.State (Progress Addr) = (do
        send_request c p.index (pos p.requested) (pos size)
        send_requests fuel len (requested_more size p)) in
      let more = go_on s in
      if ltb_ℤ p.backlog (pos max_backlog) && ltb p.requested len then more else (ok p, s)

  unfoldable pub request_if_unchoked : ℕ → Progress Addr → M c.State (Progress Addr)
  request_if_unchoked len p = if not p.client.choked then send_requests (suc len) len p else pure p

  -- The outer loop, for at most `fuel` messages.
  unfoldable pub download_loop : ℕ → ℕ → Progress Addr → M c.State (Progress Addr)
  download_loop zero len p s = (halt stuck, s)
  download_loop (suc fuel) len p s =
      let go_on : M c.State (Progress Addr) = (do
        p₁ ← request_if_unchoked len p
        p₂ ← read_message p₁
        download_loop fuel len p₂) in
      let more = go_on s in if ltb p.downloaded len then more else (ok p, s)

  start_progress : Client Addr → PieceWork → Progress Addr
  start_progress cl pw = record {
    index = pw.index;
    client = cl;
    buf = replicate (pos_part pw.length) 0;
    downloaded = 0;
    requested = 0;
    backlog = pos 0;
  }

  -- `make([]byte, pw.length)` panics for a negative length. The result is the whole progress: the
  -- buffer that Go returns, and the client that it changed.
  unfoldable pub attempt_download_piece : ℕ → Client Addr → PieceWork → M c.State (Progress Addr)
  unfolding start_progress
  attempt_download_piece fuel cl pw = if is_neg pw.length then lift (halt panic) else (do
    _ ← try (c.set_deadline 30)
    defer (download_loop fuel (pos_part pw.length) (start_progress cl pw)) (c.set_deadline 0))
