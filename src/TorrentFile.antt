-- ===== src/TorrentFile.antt =====
-- torrentfile/torrentfile.go: the metadata of a torrent. Parameters stand for bencode (`marshal`),
-- SHA-1 (`sha1`) and the address parser of snet (`parse_addr`, of "host:port").
pub mod Hashes
pub mod Nodes
pub mod Download
pub mod Files
pub mod Disk
pub mod Enabled
pub mod Saved
pub mod Tracker
mod Examples
use bittorrent_over_scion.Common.{
  ℕ, zero, suc, ◌+◌, ◌*◌, ◌/◌, ◌%◌, List, [], ◌∷◌, ◌++◌, Bool, true, false, Option, none, some, not,
  ◌==◌, if◌then◌else◌, length, take, drop, ℤ, pos, Error, Result, ok, err, halt, malformed_pieces,
  invalid_node, and_then,
}

-- A byte slice with the bytes between its length and its capacity, which a slice expression can reach.
pub record Slice : Type 0 where
  pub bytes : List ℕ
  pub spare : List ℕ

pub record TorrentFile (Addr : Type 0) : Type 0 where
  pub announce : List ℕ
  pub nodes : List Addr
  pub info_hash : List ℕ  -- [20]byte
  pub piece_hashes : List (List ℕ)  -- [][20]byte
  pub piece_length : ℤ
  pub length : ℤ
  pub name : List ℕ
  pub content : Slice
  pub print_metrics : Bool

pub record BencodeInfo : Type 0 where
  pub pieces : List ℕ
  pub piece_length : ℤ
  pub length : ℤ
  pub name : List ℕ

-- A value of `interface{}`, as far as the type switches look.
pub data Value : Type 0 where
  text : List ℕ → Value
  int64 : ℤ → Value
  other : Value

pub record BencodeTorrent : Type 0 where
  pub announce : List ℕ
  pub nodes : List (List Value)
  pub info : BencodeInfo

abbrev hash_len : ℕ
hash_len = 20

-- The loop from `i` on, with `n` rounds left: `buf[i*hashLen:(i+1)*hashLen]`.
unfoldable pub split_from : ℕ → ℕ → List ℕ → List (List ℕ)
split_from zero i buf = []
split_from (suc n) i buf = take hash_len (drop (i * hash_len) buf) ∷ split_from n (i + 1) buf

unfoldable pub split_piece_hashes : BencodeInfo → Result (List (List ℕ))
unfolding split_from
split_piece_hashes i =
    let buf = i.pieces in
    if not (length buf % hash_len == 0)
    then err (malformed_pieces (length buf))
    else ok (split_from (length buf / hash_len) 0 buf)

module _ {Addr : Type 0} (parse_addr : List ℕ → ℤ → Option Addr) where
  parsed : Option Addr → Result (List Addr) → Result (List Addr)
  parsed none rest = err invalid_node
  parsed (some a) rest = and_then rest (λ as'. ok (a ∷ as'))

  -- A node is a pair of a text and a number that parses as an address.
  unfoldable pub node_addr : List Value → Option Addr
  node_addr (text host ∷ int64 port ∷ []) = parse_addr host port
  node_addr _ = none

  -- The nodes in their order; the first that is no address ends the loop.
  unfoldable pub parse_dht_nodes : List (List Value) → Result (List Addr)
  unfolding parsed
  parse_dht_nodes [] = ok []
  parse_dht_nodes (node ∷ rest) = parsed (node_addr node) (parse_dht_nodes rest)

  assembled : BencodeTorrent → List ℕ → List (List ℕ) → List Addr → TorrentFile Addr
  assembled bto info_hash piece_hashes nodes = record {
    announce = bto.announce;
    info_hash = info_hash;
    piece_hashes = piece_hashes;
    piece_length = bto.info.piece_length;
    length = bto.info.length;
    name = bto.info.name;
    nodes = nodes;
    content = record { bytes = []; spare = [] };
    print_metrics = false;
  }

  module _ (marshal : BencodeInfo → Result (List ℕ)) (sha1 : List ℕ → List ℕ) where
    unfoldable pub hash : BencodeInfo → Result (List ℕ)
    hash i = and_then (marshal i) (λ buf. ok (sha1 buf))

    unfoldable pub to_torrent_file : BencodeTorrent → Result (TorrentFile Addr)
    unfolding hash assembled
    to_torrent_file bto = and_then (hash bto.info) λ info_hash.
        and_then (split_piece_hashes bto.info) λ piece_hashes.
          and_then (parse_dht_nodes bto.nodes)
            λ nodes. ok (assembled bto info_hash piece_hashes nodes)
