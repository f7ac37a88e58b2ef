-- ===== src/Session/Examples.antt =====
-- A seeder and a leecher at a concrete input: a file of two pieces.
use bittorrent_over_scion.Common.{
  ℕ, zero, suc, ◌+◌, ◌<◌, ◌≡◌, refl, List, [], ◌∷◌, ◌++◌, true, false, some, get_elem?, length, pos,
  ok, arith,
}
use bittorrent_over_scion.Common.Stream.{Runs}
use bittorrent_over_scion.Common.Pipe.{pipe, view, pipe-IsStream}
use bittorrent_over_scion.Config.{default_peer_disovery_config}
use bittorrent_over_scion.Bitfield.{has_piece}
use bittorrent_over_scion.Client.{Client}
use bittorrent_over_scion.TorrentFile.{TorrentFile}
use bittorrent_over_scion.P2p.{Torrent, PieceResult}
use bittorrent_over_scion.P2p.Bounds.{Sized}
use bittorrent_over_scion.P2p.Assembly.{assemble, piece_of}
use bittorrent_over_scion.P2p.Workers.{Worker, idle, Reach, start}
use bittorrent_over_scion.Server.{Server, handle_loop}
use bittorrent_over_scion.Server.Sessions.{keep_alive}
use bittorrent_over_scion.Session.Rounds.{all_requests, all_answers, single}
use bittorrent_over_scion.Session.Content.{one_seeder-content}

abbrev file : List ℕ
file = 1 ∷ 2 ∷ 3 ∷ 4 ∷ 5 ∷ 6 ∷ []

-- In place of SHA-1: the bytes themselves.
abbrev same_bytes : List ℕ → List ℕ
same_bytes bs = bs

abbrev torrent : Torrent
torrent = record {
  piece_hashes = (1 ∷ 2 ∷ 3 ∷ 4 ∷ []) ∷ (5 ∷ 6 ∷ []) ∷ [];
  piece_length = pos 4;
  length = pos 6;
}

torrent-Sized : Sized torrent 4 6
torrent-Sized = record { piece_length_pos = refl; length_pos = refl; proper = omega arith }

abbrev torrent_file : TorrentFile ℕ
torrent_file = record {
  announce = [];
  nodes = [];
  info_hash = [];
  piece_hashes = torrent.piece_hashes;
  piece_length = pos 4;
  length = pos 6;
  name = [];
  content = record { bytes = file; spare = [] };
  print_metrics = false;
}

abbrev seeder : Server ℕ
seeder = record {
  bitfield = 0xc0 ∷ 0 ∷ [];
  torrent_file = torrent_file;
  discovery_config = default_peer_disovery_config ℕ;
  has_dht_node = false;
}

abbrev client : Client ℕ
client = record {
  choked = false;
  bitfield = 0xc0 ∷ 0 ∷ [];
  peer = record { addr = []; index = pos 0 };
  info_hash = [];
  peer_id = [];
  discovery_config = default_peer_disovery_config ℕ;
  has_dht_node = false;
}

abbrev worker : Worker ℕ pipe
worker = record {
  checked = true;
  client = client;
  conn = record { input = all_answers file 4 0 2 ++ []; output = [] };
  job = idle;
}

both_pieces : (k : ℕ) → k < 2 → has_piece client.bitfield (pos k) ≡ true
unfolding has_piece
both_pieces zero lt = refl
both_pieces (suc zero) lt = refl
both_pieces (suc (suc k)) lt = absurd (omega arith)

file_hashes :
    (j : ℕ) (hash : List ℕ)
    → get_elem? torrent.piece_hashes j ≡ some hash
    → hash ≡ same_bytes (piece_of 4 file (0 + j))
file_hashes zero hash e = cc
file_hashes (suc zero) hash e = cc
file_hashes (suc (suc j)) hash e = cc

one_seeder-content_example :
    (w' : Worker ℕ pipe) × (results : List PieceResult) × (fuel : ℕ) × Reach same_bytes pipe 2
      (start same_bytes pipe torrent)
      (single same_bytes pipe w' [] results)
    × (length results ≡ 2)
    × (assemble torrent results ≡ ok file)
    × (w'.conn.output ≡ all_requests file 4 0 2)
    × Runs view
        (handle_loop pipe seeder fuel)
        (all_requests file 4 0 2 ++ (keep_alive ++ []))
        (ok tt)
        []
        (all_answers file 4 0 2)
one_seeder-content_example =
    one_seeder-content same_bytes pipe view pipe-IsStream pipe view pipe-IsStream torrent 4 6
      torrent-Sized (record { piece_u32 = omega arith; file_u32 = omega arith }) seeder refl refl
      worker [] [] (omega arith) (omega arith) (omega arith) file_hashes refl refl both_pieces refl
