-- ===== src/Config.antt =====
-- config/discovery_config.go. The addresses of DHT nodes are values of the package dht.
use bittorrent_over_scion.Common.{ℕ, Bool, true, false, List, []}

pub record PeerDiscoveryConfig (Addr : Type 0) : Type 0 where
  pub enable_dht : Bool
  pub dht_port : ℕ  -- uint16
  pub enable_tracker : Bool
  pub dht_nodes : List Addr

unfoldable pub default_peer_disovery_config : (Addr : Type 0) → PeerDiscoveryConfig Addr
default_peer_disovery_config Addr = record {
  enable_dht = true;
  enable_tracker = false;
  dht_port = 7000;
  dht_nodes = [];
}
