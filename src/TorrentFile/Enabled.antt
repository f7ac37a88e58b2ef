-- ===== src/TorrentFile/Enabled.antt =====
-- torrentfile/torrentfile.go: what DownloadToFile makes of its torrent with and without the DHT.
use bittorrent_over_scion.Common.{
  to_u64, ◌%◌, ◌^◌, ◌++◌, ℕ, ◌≡◌, refl, sym, ap, List, true, false, Option, none, some, Bool-cases,
  inl, inr, Result, ok, err, halt, resume, pure, settle,
}
use bittorrent_over_scion.Common.Ensures.{Ensures, Ensures-bind, anything}
use bittorrent_over_scion.Config.{PeerDiscoveryConfig}
use bittorrent_over_scion.TorrentFile.{TorrentFile}
use bittorrent_over_scion.TorrentFile.Files.{
  FileCalls, node_of, DownloadCalls, Downloaded, with_dht, dht_if_enabled,
}

module _ {Addr Node : Type 0} (files : FileCalls) (calls : DownloadCalls files Addr Node) where
  -- The same download, but for the DHT node.
  pub record Same (d d' : Downloaded Addr Node) : Type 0 where
    pub torrent : d'.torrent ≡ d.torrent
    pub peer_set : d'.peer_set ≡ d.peer_set
    pub peer_id : d'.peer_id ≡ d.peer_id
    pub info_hash : d'.info_hash ≡ d.info_hash

  Same-node :
      (d d' : Downloaded Addr Node) (found : Option Node)
      → record d { dht_node = found } ≡ d'
      → Same d d'
  Same-node d d' found e = record {
    torrent = ap (λ x. x.torrent) (sym e);
    peer_set = ap (λ x. x.peer_set) (sym e);
    peer_id = ap (λ x. x.peer_id) (sym e);
    info_hash = ap (λ x. x.info_hash) (sym e);
  }

  with_dht-Same :
      (d : Downloaded Addr Node) (t : TorrentFile Addr) (pc : PeerDiscoveryConfig Addr)
      (addr : Option calls.UdpAddr)
      → Ensures (λ s. Unit {0}) (with_dht files calls d t pc addr) (λ d' s. Same d d')
  unfolding with_dht
  with_dht-Same d t pc none = record { after = λ s p d' e. cc }
  with_dht-Same d t pc (some addr) =
      Ensures-bind {R = λ found s. Unit {0}}
        (λ found. pure (record d { dht_node = node_of files calls found })) (anything _)
        (λ found. record {
          after = λ s p d' e.
              let same : record d { dht_node = node_of files calls found } ≡ d' = cc in
              Same-node d d' _ same;
        })

  pub dht_if_enabled-Same :
      (t : TorrentFile Addr) (pc : PeerDiscoveryConfig Addr) (d : Downloaded Addr Node)
      → Ensures (λ s. Unit {0}) (dht_if_enabled files calls t pc d) (λ d' s. Same d d')
  unfolding dht_if_enabled
  dht_if_enabled-Same t pc d = record {
    after = λ s p d' e. elim (Bool-cases pc.enable_dht) [
      | inl on ↦ ((with_dht-Same d t pc (calls.parse_udp_addr d.local)).after s p d' (rw on at e))
      | inr off ↦ let same : d ≡ d' = cc (rw off at e) in Same-node d d' d.dht_node same
    ];
  }

  pub dht_disabled :
      (t : TorrentFile Addr) (pc : PeerDiscoveryConfig Addr) (d d' : Downloaded Addr Node)
      (s : files.System)
      → pc.enable_dht ≡ false
      → (dht_if_enabled files calls t pc d s).0 ≡ ok d'
      → d ≡ d'
  unfolding dht_if_enabled
  dht_disabled t pc d d' s off e = cc (rw off at e)

  -- The node of a call of EnableDht: none if it failed.
  abbrev pub IsNode : Result Node → Option Node → Type 0
  IsNode (ok node) o = o ≡ some node
  IsNode (err x) o = o ≡ none
  IsNode (halt h) o = ⊥

  -- EnableDht was called at the port of the configuration on the local address, with the port of
  -- this address as that of the peer, and with all nodes of the torrent and the configuration.
  abbrev pub HasNode : TorrentFile Addr → List ℕ → PeerDiscoveryConfig Addr → Option Node → Type 0
  HasNode t local pc node =
      (addr : calls.UdpAddr) × (before : files.System) × (calls.parse_udp_addr local ≡ some addr)
      × IsNode
          (calls.enable_dht (calls.with_port addr pc.dht_port)
            (to_u64 (calls.host_port addr) % 2 ^ 16) t.info_hash (t.nodes ++ pc.dht_nodes) before).0
          node

  with_dht-HasNode :
      (d d' : Downloaded Addr Node) (t : TorrentFile Addr) (pc : PeerDiscoveryConfig Addr)
      (o : Option calls.UdpAddr) (s : files.System)
      → calls.parse_udp_addr d.local ≡ o
      → (with_dht files calls d t pc o s).0 ≡ ok d'
      → HasNode t d.local pc d'.dht_node
  unfolding with_dht
  with_dht-HasNode d d' t pc none s parses e = cc
  with_dht-HasNode d d' t pc (some addr) s parses e = (addr, s, parses, settled _ _ e)
    where
      settled :
          (r : Result Node) (u : files.System)
          → (resume
              (settle r u).0
              (settle r u).1
              (λ node. pure (record d { dht_node = node_of files calls node }))).0
            ≡ ok d'
          → IsNode r d'.dht_node
      settled (ok node) u h =
          let same : record d { dht_node = some node } ≡ d' = cc in ap (λ x. x.dht_node) (sym same)
      settled (err x) u h =
          let same : record d { dht_node = none } ≡ d' = cc in ap (λ x. x.dht_node) (sym same)
      settled (halt h') u h = cc

  pub dht_enabled :
      (t : TorrentFile Addr) (pc : PeerDiscoveryConfig Addr) (d d' : Downloaded Addr Node)
      (s : files.System)
      → pc.enable_dht ≡ true
      → (dht_if_enabled files calls t pc d s).0 ≡ ok d'
      → HasNode t d.local pc d'.dht_node
  unfolding dht_if_enabled
  dht_enabled t pc d d' s on at = with_dht-HasNode d d' t pc _ s refl (rw on at at)
