-- ===== src/TorrentFile/Examples.antt =====
-- The torrent file's theorems at concrete inputs.
use bittorrent_over_scion.Common.{
  ℕ, ◌≡◌, refl, false, List, [], ◌∷◌, ◌++◌, take, Option, some, ℤ, pos, replicate, Result, ok,
}
use bittorrent_over_scion.TorrentFile.{
  TorrentFile, BencodeInfo, BencodeTorrent, text, int64, split_piece_hashes, node_addr,
  parse_dht_nodes, to_torrent_file,
}
use bittorrent_over_scion.TorrentFile.Nodes.{Describes, to_torrent_file-Describes}

-- An address parser that takes the port for the address, an encoder that joins the texts, and a hash
-- that is the first 20 bytes.
abbrev port_of : List ℕ → ℤ → Option ℤ
port_of host port = some port

abbrev marshal : BencodeInfo → Result (List ℕ)
marshal i = ok (i.name ++ i.pieces)

abbrev sha1 : List ℕ → List ℕ
sha1 bs = take 20 bs

abbrev info : BencodeInfo
info = record { pieces = replicate 40 3; piece_length = pos 16; length = pos 30; name = 9 ∷ [] }

abbrev sample : BencodeTorrent
sample = record {
  announce = [];
  nodes = (text (104 ∷ []) ∷ int64 (pos 7000) ∷ []) ∷ [];
  info = info;
}

abbrev sample_file : TorrentFile ℤ
sample_file = record {
  announce = [];
  nodes = pos 7000 ∷ [];
  info_hash = 9 ∷ replicate 19 3;
  piece_hashes = replicate 20 3 ∷ replicate 20 3 ∷ [];
  piece_length = pos 16;
  length = pos 30;
  name = 9 ∷ [];
  content = record { bytes = []; spare = [] };
  print_metrics = false;
}

sample_converts : to_torrent_file port_of marshal sha1 sample ≡ ok sample_file
unfolding to_torrent_file split_piece_hashes parse_dht_nodes node_addr
sample_converts = refl

to_torrent_file-Describes_example : Describes port_of marshal sha1 sample sample_file
to_torrent_file-Describes_example =
    to_torrent_file-Describes port_of marshal sha1 sample sample_file sample_converts
