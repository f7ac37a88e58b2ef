-- ===== src/TorrentFile/Files.antt =====
-- torrentfile/torrentfile.go: Open, and DownloadToFile as a whole. The file system, bencode, the
-- random numbers, the parser of addresses, Download and EnableDht are parameters.
use bittorrent_over_scion.Common.{
  ℕ, ◌%◌, ◌^◌, List, [], ◌∷◌, ◌++◌, Option, none, some, if◌then◌else◌, ℤ, to_u64, Result, ok, err,
  halt, panic, M, ◌>>=◌, ◌>>◌, pure, lift, try, defer,
}
use bittorrent_over_scion.Config.{PeerDiscoveryConfig}
use bittorrent_over_scion.Peers.{Peer, PeerSet, add}
use bittorrent_over_scion.P2p.{Torrent}
use bittorrent_over_scion.TorrentFile.{TorrentFile, BencodeTorrent, BencodeInfo, to_torrent_file}
use bittorrent_over_scion.TorrentFile.Download.{torrent_of, target_peers}

pub record FileCalls : Type 1 where
  pub System : Type 0
  pub File : Type 0
  pub open_file : List ℕ → M System File
  pub create : List ℕ → M System File
  pub write : File → List ℕ → M System ℕ
  pub close : File → M System (Unit {0})
  pub unmarshal : File → M System BencodeTorrent
  -- 20 bytes
  pub rand_read : M System (List ℕ)

-- p2p.Torrent, as DownloadToFile makes it.
pub record Downloaded (Addr Node : Type 0) : Type 0 where
  pub torrent : Torrent
  pub peer_set : PeerSet
  pub peer_id : List ℕ
  pub info_hash : List ℕ
  pub name : List ℕ
  pub local : List ℕ
  pub path_selection_responsibility : List ℕ
  pub discovery_config : PeerDiscoveryConfig Addr
  pub dht_node : Option Node

unfoldable pub add_found : PeerSet → List Peer → PeerSet
add_found ps [] = ps
add_found ps (p ∷ found) = add_found (add ps p) found

pub record DownloadCalls (files : FileCalls) (Addr Node : Type 0) : Type 1 where
  pub UdpAddr : Type 0
  pub parse_udp_addr : List ℕ → Option UdpAddr
  pub host_port : UdpAddr → ℤ
  pub with_port : UdpAddr → ℕ → UdpAddr
  pub enable_dht : UdpAddr → ℕ → List ℕ → List Addr → M files.System Node
  -- the peers that the node gave to the callback of EnableDht until then
  pub told : Node → files.System → List Peer
  pub download : Downloaded Addr Node → M files.System (List ℕ)

module _ (files : FileCalls) where
  -- The file is closed whatever comes of it.
  unfoldable pub open_torrent :
      {Addr : Type 0}
      → (List ℕ → ℤ → Option Addr)
      → (BencodeInfo → Result (List ℕ))
      → (List ℕ → List ℕ)
      → List ℕ
      → M files.System (TorrentFile Addr)
  open_torrent parse_addr marshal sha1 path = do
    file ← files.open_file path
    defer (files.unmarshal file >>= (λ bto. lift (to_torrent_file parse_addr marshal sha1 bto)))
        (files.close file)

module _ {Addr Node : Type 0} (files : FileCalls) (calls : DownloadCalls files Addr Node) where
  abbrev pub is_parsed : Option calls.UdpAddr → Option (Unit {0})
  is_parsed none = none
  is_parsed (some addr) = some tt

  unfoldable pub peers_for : List ℕ → Result PeerSet
  peers_for peer = target_peers (λ text. is_parsed (calls.parse_udp_addr text)) peer

  abbrev pub node_of : Result Node → Option Node
  node_of (ok node) = some node
  node_of (err e) = none
  node_of (halt h) = none

  -- The error of EnableDht is only logged; that of the address is not looked at.
  unfoldable pub with_dht :
      Downloaded Addr Node
      → TorrentFile Addr
      → PeerDiscoveryConfig Addr
      → Option calls.UdpAddr
      → M files.System (Downloaded Addr Node)
  with_dht d t pc none = lift (halt panic)
  with_dht d t pc (some addr) = do
    node ← try (
        calls.enable_dht (calls.with_port addr pc.dht_port) (to_u64 (calls.host_port addr) % 2 ^ 16)
          t.info_hash (t.nodes ++ pc.dht_nodes))
    pure (record d { dht_node = node_of node })

  unfoldable pub dht_if_enabled :
      TorrentFile Addr
      → PeerDiscoveryConfig Addr
      → Downloaded Addr Node
      → M files.System (Downloaded Addr Node)
  unfolding with_dht
  dht_if_enabled t pc d s =
      if pc.enable_dht then with_dht d t pc (calls.parse_udp_addr d.local) s else (ok d, s)

  unfoldable pub torrent_for :
      TorrentFile Addr
      → List ℕ
      → List ℕ
      → PeerDiscoveryConfig Addr
      → List ℕ
      → PeerSet
      → Downloaded Addr Node
  torrent_for t local responsibility pc peer_id peer_set = record {
    torrent = torrent_of t;
    peer_set = peer_set;
    peer_id = peer_id;
    info_hash = t.info_hash;
    name = t.name;
    local = local;
    path_selection_responsibility = responsibility;
    discovery_config = pc;
    dht_node = none;
  }

  unfoldable pub store : List ℕ → files.File → M files.System (Unit {0})
  store buf file = defer (files.write file buf >> pure tt) (files.close file)

  unfoldable pub save : List ℕ → List ℕ → M files.System (Unit {0})
  save path buf = do file ← files.create path; store buf file

  unfoldable pub told_by : Option Node → files.System → List Peer
  told_by none s = []
  told_by (some node) s = calls.told node s

  -- The callback of EnableDht adds each peer that it is given to the PeerSet, also while the
  -- download runs: the peers found until now.
  unfoldable pub with_found : Downloaded Addr Node → files.System → Downloaded Addr Node
  unfolding told_by
  with_found d s = record d { peer_set = add_found d.peer_set (told_by d.dht_node s) }

  unfoldable pub found_until_now : Downloaded Addr Node → M files.System (Downloaded Addr Node)
  unfolding with_found
  found_until_now d s = (ok (with_found d s), s)

  unfoldable pub fetch : List ℕ → Downloaded Addr Node → M files.System (Downloaded Addr Node)
  unfolding found_until_now
  fetch path d = do
    d₁ ← found_until_now d
    buf ← calls.download d₁
    save path buf
    found_until_now d₁

  unfoldable pub download_to_file :
      TorrentFile Addr
      → List ℕ
      → List ℕ
      → List ℕ
      → List ℕ
      → PeerDiscoveryConfig Addr
      → M files.System (Downloaded Addr Node)
  download_to_file t path peer local responsibility pc = do
    peer_id ← files.rand_read
    peer_set ← lift (peers_for peer)
    d ← dht_if_enabled t pc (torrent_for t local responsibility pc peer_id peer_set)
    fetch path d
