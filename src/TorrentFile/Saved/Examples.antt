-- ===== src/TorrentFile/Saved/Examples.antt =====
-- DownloadToFile at a concrete input.
use bittorrent_over_scion.Common.{
  ℕ, ◌≡◌, refl, List, [], ◌∷◌, ◌++◌, true, false, some, length, replicate, pos, ok, err, eof, pure,
  lift,
}
use bittorrent_over_scion.Config.{PeerDiscoveryConfig}
use bittorrent_over_scion.Peers.{Peer, PeerSet, contains, new_peer_set, add}
use bittorrent_over_scion.TorrentFile.{TorrentFile}
use bittorrent_over_scion.TorrentFile.Download.{torrent_of, target_peers}
use bittorrent_over_scion.TorrentFile.Files.{
  FileCalls, DownloadCalls, Downloaded, peers_for, with_dht, dht_if_enabled, torrent_for, store,
  save, fetch, add_found, told_by, with_found, found_until_now, download_to_file,
}
use bittorrent_over_scion.TorrentFile.Disk.{IsDisk}
use bittorrent_over_scion.TorrentFile.Saved.{IsSaved, download_to_file-IsSaved}

-- A disk with one file, whose bytes are the state.
abbrev one_file : FileCalls
one_file = record {
  System = List ℕ;
  File = ℕ;
  open_file = λ path. pure 0;
  create = λ path s. (ok 0, []);
  write = λ file bytes s. (ok (length bytes), s ++ bytes);
  close = λ file. pure tt;
  unmarshal = λ file. lift (err eof);
  rand_read = pure (replicate 20 7);
}

one_file-IsDisk : IsDisk one_file
one_file-IsDisk = record {
  contents = λ s path. some s;
  writes = λ path bytes file s n made wrote. refl;
  closes = λ file s. refl;
}

abbrev found_peer : Peer
found_peer = record { addr = 51 ∷ []; index = pos 0 }

-- The download gives three bytes, and the node finds a peer.
abbrev three_bytes : DownloadCalls one_file ℕ ℕ
three_bytes = record {
  UdpAddr = ℕ;
  parse_udp_addr = λ text. some (length text);
  host_port = λ addr. pos addr;
  with_port = λ addr new_port. new_port;
  enable_dht = λ addr peer_port info_hash nodes. pure addr;
  told = λ node s. found_peer ∷ [];
  download = λ d. pure (1 ∷ 2 ∷ 3 ∷ []);
}

abbrev wanted : TorrentFile ℕ
wanted = record {
  announce = [];
  nodes = 5 ∷ [];
  info_hash = replicate 20 9;
  piece_hashes = replicate 20 8 ∷ [];
  piece_length = pos 4;
  length = pos 3;
  name = [];
  content = record { bytes = []; spare = [] };
  print_metrics = false;
}

abbrev with_node : PeerDiscoveryConfig ℕ
with_node = record { enable_dht = true; dht_port = 7000; enable_tracker = false; dht_nodes = [] }

abbrev known_peers : PeerSet
known_peers = found_peer ∷ record { addr = 49 ∷ []; index = pos 0 } ∷ []

abbrev saved_torrent : Downloaded ℕ ℕ
saved_torrent = record {
  torrent = torrent_of wanted;
  peer_set = known_peers;
  peer_id = replicate 20 7;
  info_hash = replicate 20 9;
  name = [];
  local = 50 ∷ [];
  path_selection_responsibility = [];
  discovery_config = with_node;
  dht_node = some 7000;
}

saves :
    download_to_file one_file three_bytes wanted (47 ∷ []) (49 ∷ []) (50 ∷ []) [] with_node []
    ≡ (ok saved_torrent, 1 ∷ 2 ∷ 3 ∷ [])
unfolding download_to_file peers_for target_peers dht_if_enabled with_dht torrent_for fetch save
    store torrent_of new_peer_set add contains add_found told_by with_found found_until_now
saves = refl

download_to_file-IsSaved_example :
    IsSaved one_file three_bytes one_file-IsDisk wanted
      (47 ∷ [])
      (49 ∷ [])
      (50 ∷ [])
      with_node
      saved_torrent
      (1 ∷ 2 ∷ 3 ∷ [])
download_to_file-IsSaved_example =
    download_to_file-IsSaved one_file three_bytes one_file-IsDisk wanted (47 ∷ []) (49 ∷ [])
      (50 ∷ []) [] with_node [] (1 ∷ 2 ∷ 3 ∷ []) saved_torrent saves
