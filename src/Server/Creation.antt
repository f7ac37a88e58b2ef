-- ===== src/Server/Creation.antt =====
-- server/server.go: NewServer. The parser of addresses, the default address, the port of an address
-- and the making of the DHT node are parameters.
pub mod Cases
mod Examples
use bittorrent_over_scion.Common.{
  ℕ, ◌%◌, ◌^◌, List, [], ◌∷◌, ◌++◌, Bool, true, false, Option, none, some, if◌then◌else◌,
  bytes_equal, ℤ, Result, ok, err, halt, panic, unsupported, unparsable, and_then, to_u64,
}
use bittorrent_over_scion.Config.{PeerDiscoveryConfig}
use bittorrent_over_scion.Peers.{PeerSet, new_peer_set}
use bittorrent_over_scion.TorrentFile.{TorrentFile}
use bittorrent_over_scion.DhtNode.{DhtNode}
use bittorrent_over_scion.Server.{Server, full_bitfield}
use bittorrent_over_scion.Server.Leechers.{Leechers, no_leechers}

-- The choice of who selects the paths is a text: `client` is that of "client".
pub record ServerConfig (Addr : Type 0) : Type 0 where
  pub l_addr : List ℕ
  pub torrent_file : TorrentFile Addr
  pub path_selection_responsibility : List ℕ
  pub num_paths : ℤ
  pub dial_back_port : ℤ
  pub discovery_config : PeerDiscoveryConfig Addr

-- The new server: what handlers read, the leechers, and other fields of it.
pub record Created (Addr UdpAddr Route C : Type 0) : Type 0 where
  pub server : Server Addr
  pub leechers : Leechers Route
  pub conns : List C
  pub peers : PeerSet
  pub local_addr : Option UdpAddr
  pub num_paths : ℤ
  pub dial_back_start_port : ℤ
  pub dht_node : Option (DhtNode Addr)

abbrev pub client : List ℕ
client = 99 ∷ 108 ∷ 105 ∷ 101 ∷ 110 ∷ 116 ∷ []

pub record AddrCalls (Addr UdpAddr : Type 0) : Type 0 where
  pub default_local_addr : Option UdpAddr
  pub parse_udp_addr : List ℕ → Option UdpAddr
  pub host_port : UdpAddr → ℤ
  pub with_port : UdpAddr → ℕ → UdpAddr
  pub new_node : UdpAddr → List ℕ → List Addr → ℕ → Result (DhtNode Addr)

abbrev pub is_some : {A : Type 0} → Option A → Bool
is_some none = false
is_some (some a) = true

unfoldable pub parsed_addr : {UdpAddr : Type 0} → Option UdpAddr → Result (Option UdpAddr)
parsed_addr none = err unparsable
parsed_addr (some a) = ok (some a)

-- The fields of the new server, by what was found and made for it.
unfoldable pub created :
    {Addr UdpAddr Route C : Type 0}
    → ServerConfig Addr
    → Option UdpAddr
    → Option (DhtNode Addr)
    → Created Addr UdpAddr Route C
created config local_addr node = record {
  server = record {
    bitfield = full_bitfield config.torrent_file;
    torrent_file = config.torrent_file;
    discovery_config = config.discovery_config;
    has_dht_node = is_some node;
  };
  leechers = no_leechers;
  conns = [];
  peers = new_peer_set;
  local_addr = local_addr;
  num_paths = config.num_paths;
  dial_back_start_port = config.dial_back_port;
  dht_node = node;
}

module _ {Addr UdpAddr : Type 0} (calls : AddrCalls Addr UdpAddr) where
  -- The error of the default address is not looked at: the address is nil then.
  unfoldable pub find_local_addr : List ℕ → Result (Option UdpAddr)
  find_local_addr [] = ok calls.default_local_addr
  find_local_addr (b ∷ bs) = parsed_addr (calls.parse_udp_addr (b ∷ bs))

  -- The host of the address nil is read.
  unfoldable pub node_at : ServerConfig Addr → UdpAddr → Result (DhtNode Addr)
  node_at config a =
      calls.new_node (calls.with_port a config.discovery_config.dht_port)
        config.torrent_file.info_hash
        (config.torrent_file.nodes ++ config.discovery_config.dht_nodes)
        (to_u64 (calls.host_port a) % 2 ^ 16)

  node_for : ServerConfig Addr → Option UdpAddr → Result (Option (DhtNode Addr))
  node_for config none = halt panic
  node_for config (some a) = and_then (node_at config a) (λ node. ok (some node))

  unfoldable pub make_node : ServerConfig Addr → Option UdpAddr → Result (Option (DhtNode Addr))
  unfolding node_for
  make_node config local_addr =
      if config.discovery_config.enable_dht then node_for config local_addr else ok none

  unfoldable pub new_server :
      {Route C : Type 0} → ServerConfig Addr → Result (Created Addr UdpAddr Route C)
  new_server config =
      if bytes_equal config.path_selection_responsibility client
      then err unsupported
      else and_then (find_local_addr config.l_addr) λ local_addr.
        and_then (make_node config local_addr) λ node. ok (created config local_addr node)
