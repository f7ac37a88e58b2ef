-- ===== src/Main.antt =====
-- main.go: from the flags of the command line to a seeder or a download. The parser of addresses, the
-- torrent that Open returns and the file that ReadFile returns are parameters.
pub mod Seeder
mod Examples
use bittorrent_over_scion.Common.{
  ℕ, ◌%◌, ◌^◌, List, [], ◌∷◌, Bool, true, false, Option, none, some, if◌then◌else◌, ℤ, pos, ltb_ℤ,
  to_u64, Result, ok, err, halt, fatal, and_then,
}
use bittorrent_over_scion.Config.{PeerDiscoveryConfig, default_peer_disovery_config}
use bittorrent_over_scion.Peers.{PeerSet}
use bittorrent_over_scion.P2p.{Torrent}
use bittorrent_over_scion.TorrentFile.{TorrentFile, Slice}
use bittorrent_over_scion.TorrentFile.Download.{torrent_of, target_peers}
use bittorrent_over_scion.Server.Creation.{ServerConfig, Created, AddrCalls, new_server}

-- The flags that the model uses.
pub record Flags : Type 0 where
  pub peer : List ℕ
  pub local : List ℕ
  pub num_paths : ℤ
  pub dial_back_start_port : ℤ
  pub enable_dht : Bool
  pub dht_port : ℤ
  pub dht_bootstrap_addr : List ℕ
  pub print_metrics : Bool

unfoldable pub default_flags : Flags
default_flags = record {
  peer = [];
  local = [];
  num_paths = pos 0;
  dial_back_start_port = pos 45000;
  enable_dht = false;
  dht_port = pos 0;
  dht_bootstrap_addr = [];
  print_metrics = false;
}

-- log.Fatal on an error.
abbrev pub or_fatal : {A : Type 0} → Result A → Result A
or_fatal (ok a) = ok a
or_fatal (err e) = halt fatal
or_fatal (halt h) = halt h

abbrev pub read_or_fatal : {A : Type 0} → Option A → Result A
read_or_fatal none = halt fatal
read_or_fatal (some a) = ok a

module _ {Addr : Type 0} (parse_node : List ℕ → Option Addr) where
  bootstrap : Option Addr → List Addr → List Addr
  bootstrap none nodes = nodes
  bootstrap (some a) nodes = a ∷ []

  unfoldable pub discovery_config_of : Flags → PeerDiscoveryConfig Addr
  unfolding bootstrap
  discovery_config_of flags =
      let config = default_peer_disovery_config Addr in
      record config {
        enable_dht = flags.enable_dht;
        dht_nodes = bootstrap (parse_node flags.dht_bootstrap_addr) config.dht_nodes;
        dht_port =
            if ltb_ℤ (pos 0) flags.dht_port
            then to_u64 flags.dht_port % 2 ^ 16
            else config.dht_port;
      }

  -- "server"
  abbrev server_side : List ℕ
  server_side = 115 ∷ 101 ∷ 114 ∷ 118 ∷ 101 ∷ 114 ∷ []

  unfoldable pub seeder_config : Flags → TorrentFile Addr → Slice → ServerConfig Addr
  seeder_config flags tf content = record {
    l_addr = flags.local;
    torrent_file = record tf { content = content; print_metrics = flags.print_metrics };
    path_selection_responsibility = server_side;
    num_paths = flags.num_paths;
    dial_back_port = flags.dial_back_start_port;
    discovery_config = discovery_config_of flags;
  }

  -- The branch of a seeder, up to the server.
  unfoldable pub make_seeder :
      {UdpAddr Route C : Type 0}
      → AddrCalls Addr UdpAddr
      → Flags
      → Result (TorrentFile Addr)
      → Option Slice
      → Result (Created Addr UdpAddr Route C)
  make_seeder calls flags opened file = and_then (or_fatal opened) λ tf.
      and_then (read_or_fatal file)
        λ content. or_fatal (new_server calls (seeder_config flags tf content))

  -- The branch of a leecher, up to the download.
  unfoldable pub make_leecher :
      (List ℕ → Option (Unit {0})) → Flags → Result (TorrentFile Addr) → Result (PeerSet × Torrent)
  make_leecher parse_udp_addr flags opened = and_then (or_fatal opened) λ tf.
      and_then (target_peers parse_udp_addr flags.peer)
        λ peers. ok (peers, torrent_of (record tf { print_metrics = flags.print_metrics }))
