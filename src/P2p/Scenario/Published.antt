-- ===== src/P2p/Scenario/Published.antt =====
-- The same download from a torrent file that was decoded and converted.
use bittorrent_over_scion.Common.{
  ℕ, ◌≡◌, refl, List, [], ◌∷◌, false, Option, none, ℤ, pos, Result, ok, arith,
}
use bittorrent_over_scion.Common.Pipe.{pipe}
use bittorrent_over_scion.P2p.Assembly.{assemble}
use bittorrent_over_scion.P2p.Workers.{Reach, start}
use bittorrent_over_scion.P2p.Scenario.{file, marked, received, marked-length, no_other, run}
use bittorrent_over_scion.TorrentFile.{
  TorrentFile, BencodeInfo, BencodeTorrent, split_piece_hashes, parse_dht_nodes, to_torrent_file,
}
use bittorrent_over_scion.TorrentFile.Download.{torrent_of, IsPublished, download_to_file-content}

-- A torrent file for the file, in one piece.
abbrev info : BencodeInfo
info = record { pieces = marked file; piece_length = pos 3; length = pos 3; name = [] }

abbrev published : BencodeTorrent
published = record { announce = []; nodes = []; info = info }

abbrev opened : TorrentFile ℕ
opened = record {
  announce = [];
  nodes = [];
  info_hash = marked [];
  piece_hashes = marked file ∷ [];
  piece_length = pos 3;
  length = pos 3;
  name = [];
  content = record { bytes = []; spare = [] };
  print_metrics = false;
}

abbrev marshal : BencodeInfo → Result (List ℕ)
marshal i = ok []

abbrev no_addr : List ℕ → ℤ → Option ℕ
no_addr host port = none

published_opens : to_torrent_file no_addr marshal marked published ≡ ok opened
unfolding to_torrent_file split_piece_hashes parse_dht_nodes
published_opens = refl

info-IsPublished : IsPublished marked 3 file 1 info
info-IsPublished = record {
  pieces = refl;
  cut = refl;
  measured = refl;
  proper = omega arith;
  enough = omega arith;
  no_more = omega arith;
  fits = omega arith;
}

opened_run : Reach marked pipe 1 (start marked pipe (torrent_of opened)) received
unfolding torrent_of
opened_run = run

download_to_file-content_example : assemble (torrent_of opened) received.channels.results ≡ ok file
download_to_file-content_example =
    download_to_file-content marked 3 file no_addr marshal pipe marked-length 1 published opened
      info-IsPublished published_opens no_other received opened_run (refl, tt) refl
