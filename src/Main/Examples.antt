-- ===== src/Main/Examples.antt =====
-- Tests of the flags, and the theorem on the seeder at a concrete input: an address is its port.
use bittorrent_over_scion.Common.{
  ℕ, ◌≡◌, refl, List, [], ◌∷◌, false, Option, none, some, pos, ok, err, unsupported,
}
use bittorrent_over_scion.TorrentFile.{TorrentFile, Slice}
use bittorrent_over_scion.Config.{default_peer_disovery_config}
use bittorrent_over_scion.Server.Creation.{Created, AddrCalls, find_local_addr, parsed_addr}
use bittorrent_over_scion.Server.Creation.Cases.{IsReady}
use bittorrent_over_scion.Main.{
  Flags, default_flags, discovery_config_of, seeder_config, make_seeder,
}
use bittorrent_over_scion.Main.Seeder.{make_seeder-IsReady}

abbrev no_node : List ℕ → Option ℕ
no_node text = none

abbrev calls : AddrCalls ℕ ℕ
calls = record {
  default_local_addr = none;
  parse_udp_addr = λ text. some 40000;
  host_port = λ a. pos a;
  with_port = λ a port. port;
  new_node = λ a info_hash nodes port. err unsupported;
}

-- The port of the DHT keeps 16 bits.
port_wraps :
    (discovery_config_of no_node (record default_flags { dht_port = pos 65543 })).dht_port ≡ 7
unfolding discovery_config_of default_peer_disovery_config default_flags
port_wraps = refl

abbrev flags : Flags
flags = record {
  peer = [];
  local = 49 ∷ [];
  num_paths = pos 0;
  dial_back_start_port = pos 45000;
  enable_dht = false;
  dht_port = pos 0;
  dht_bootstrap_addr = [];
  print_metrics = false;
}

abbrev torrent : TorrentFile ℕ
torrent = record {
  announce = [];
  nodes = [];
  info_hash = [];
  piece_hashes = [] ∷ [] ∷ [];
  piece_length = pos 2;
  length = pos 3;
  name = [];
  content = record { bytes = []; spare = [] };
  print_metrics = false;
}

abbrev file : Slice
file = record { bytes = 1 ∷ 2 ∷ 3 ∷ []; spare = 0 ∷ [] }

local_parses : find_local_addr calls flags.local ≡ ok (some 40000)
unfolding find_local_addr parsed_addr
local_parses = refl

make_seeder-IsReady_example :
    (s : Created ℕ ℕ ℕ ℕ) × (make_seeder no_node calls flags (ok torrent) (some file) ≡ ok s)
    × IsReady calls (seeder_config no_node flags torrent file) s
    × (s.server.torrent_file.content ≡ file)
    × (s.server.torrent_file.piece_hashes ≡ torrent.piece_hashes)
make_seeder-IsReady_example =
    make_seeder-IsReady no_node calls flags ℕ ℕ torrent file (some 40000) refl local_parses
