-- ===== src/Server/Creation/Examples.antt =====
-- The theorem on new servers at a concrete input: an address is its port.
use bittorrent_over_scion.Common.{ℕ, ◌≡◌, ◌⊎◌, [], ◌∷◌, true, false, none, some, pos, ok}
use bittorrent_over_scion.DhtNode.{new_stats}
use bittorrent_over_scion.Server.Creation.{ServerConfig, Created, AddrCalls, new_server}
use bittorrent_over_scion.Server.Creation.Cases.{IsReady, IsRefused, new_server_cases}

abbrev calls : AddrCalls ℕ ℕ
calls = record {
  default_local_addr = none;
  parse_udp_addr = λ text. some 40000;
  host_port = λ a. pos a;
  with_port = λ a port. port;
  new_node = λ a info_hash nodes port.
      ok (record { stats = new_stats; info_hash = info_hash; node_addr = a; peer_port = port });
}

abbrev config : ServerConfig ℕ
config = record {
  l_addr = 49 ∷ [];
  torrent_file = record {
    announce = [];
    nodes = 7 ∷ [];
    info_hash = [];
    piece_hashes = [] ∷ [] ∷ [];
    piece_length = pos 16;
    length = pos 30;
    name = [];
    content = record { bytes = []; spare = [] };
    print_metrics = false;
  };
  path_selection_responsibility = 115 ∷ [];
  num_paths = pos 0;
  dial_back_port = pos 45000;
  discovery_config = record {
    enable_dht = true;
    dht_port = 7000;
    enable_tracker = false;
    dht_nodes = [];
  };
}

new_server_cases_example :
    ((s : Created ℕ ℕ ℕ ℕ) × (new_server calls config ≡ ok s) × IsReady calls config s)
    ⊎ IsRefused calls config (new_server calls {Route = ℕ} {C = ℕ} config)
new_server_cases_example = new_server_cases calls config ℕ ℕ
