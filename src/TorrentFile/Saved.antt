-- ===== src/TorrentFile/Saved.antt =====
-- torrentfile/torrentfile.go: what a successful DownloadToFile leaves on the disk.
mod Examples
use mathlib.Core.Path.{subst}
use bittorrent_over_scion.Common.{
  to_u64, ◌%◌, ◌^◌, ◌++◌, ℕ, ◌≡◌, refl, sym, ap, ◌∙◌, List, [], ◌∷◌, Bool, true, false, Option,
  none, some, if◌then◌else◌, Bool-cases, inl, inr, ℤ, pos, ◌||◌, Result, ok, err, halt, M, ◌>>=◌,
  ◌>>◌, resume, pure, lift, try, defer, settle,
}
use bittorrent_over_scion.Common.Ensures.{
  resume_done, Ensures, Ensures-bind, Ensures-given, anything,
}
use bittorrent_over_scion.Peers.{Peer, PeerSet, same_peer, new_peer_set, add, contains}
use bittorrent_over_scion.Peers.Sets.{contains-add}
use bittorrent_over_scion.Config.{PeerDiscoveryConfig}
use bittorrent_over_scion.TorrentFile.{TorrentFile}
use bittorrent_over_scion.TorrentFile.Download.{torrent_of, target_peers}
use bittorrent_over_scion.TorrentFile.Disk.{IsDisk, save-Ensures}
use bittorrent_over_scion.TorrentFile.Files.{
  FileCalls, node_of, is_parsed, DownloadCalls, Downloaded, peers_for, with_dht, dht_if_enabled,
  torrent_for, store, save, fetch, add_found, told_by, with_found, found_until_now,
  download_to_file,
}
use bittorrent_over_scion.TorrentFile.Enabled.{
  Same, HasNode, dht_if_enabled-Same, dht_disabled, dht_enabled,
}

module _ {Addr Node : Type 0} (files : FileCalls) (calls : DownloadCalls files Addr Node)
    (disk : IsDisk files) where
  -- Whether the peer is the given one: for the empty text there is none.
  abbrev pub is_given : List ℕ → Peer → Bool
  is_given [] q = false
  is_given (b ∷ bs) q = same_peer (record { addr = b ∷ bs; index = pos 0 }) q

  -- Whether the node, if there is one, gave the peer to the callback until `s`.
  abbrev pub is_found : Option Node → files.System → Peer → Bool
  is_found none s q = false
  is_found (some node) s q = contains (calls.told node s) q

  -- What Download was called on, and when.
  pub record IsStarted (t : TorrentFile Addr) (peer : List ℕ) (x : Downloaded Addr Node)
      (before : files.System) : Type 0 where
    pub hashes : x.torrent.piece_hashes ≡ t.piece_hashes
    pub piece_length : x.torrent.piece_length ≡ t.piece_length
    pub size : x.torrent.length ≡ t.length
    pub info_hash : x.info_hash ≡ t.info_hash
    pub peers :
        (q : Peer) → contains x.peer_set q ≡ (is_found x.dht_node before q || is_given peer q)

  -- What DownloadToFile leaves: `d` is the torrent that it returns, at the end.
  pub record IsSaved (t : TorrentFile Addr) (path peer local : List ℕ)
      (pc : PeerDiscoveryConfig Addr) (d : Downloaded Addr Node) (end : files.System) : Type 0 where
    pub x : Downloaded Addr Node
    pub before : files.System
    pub buf : List ℕ
    pub started : IsStarted t peer x before
    pub downloaded : (calls.download x before).0 ≡ ok buf
    pub saved : disk.contents end path ≡ some buf
    pub same_torrent : d.torrent ≡ x.torrent
    pub same_hash : d.info_hash ≡ x.info_hash
    pub same_node : d.dht_node ≡ x.dht_node
    pub peers :
        (q : Peer) → contains d.peer_set q ≡ (is_found d.dht_node end q || contains x.peer_set q)
    pub no_node : pc.enable_dht ≡ false → d.dht_node ≡ none
    pub has_node : pc.enable_dht ≡ true → HasNode files calls t local pc d.dht_node

  contains-add_found :
      (found : List Peer) (ps : PeerSet) (q : Peer)
      → contains (add_found ps found) q ≡ (contains found q || contains ps q)
  unfolding add_found contains
  contains-add_found [] ps q = refl
  contains-add_found (p ∷ found) ps q =
      contains-add_found found (add ps p) q
      ∙ ap (λ b. contains found q || b) (contains-add ps p q)
      ∙ (elim (Bool-cases (same_peer p q)) [
        | inl same ↦ rw same (elim (Bool-cases (contains found q)) [ inl e ↦ rw e | inr e ↦ rw e ])
        | inr other ↦ rw other
      ])

  contains-with_found :
      (d : Downloaded Addr Node) (s : files.System) (q : Peer)
      → contains (with_found files calls d s).peer_set q
        ≡ (is_found d.dht_node s q || contains d.peer_set q)
  unfolding with_found told_by contains
  contains-with_found d s q =
      contains-add_found (told_by files calls d.dht_node s) d.peer_set q
      ∙ ap (λ b. b || contains d.peer_set q) (told d.dht_node)
    where
      told : (o : Option Node) → contains (told_by files calls o s) q ≡ is_found o s q
      told none = refl
      told (some node) = refl

  peers_for-is_given :
      (peer : List ℕ) (ps : PeerSet)
      → peers_for files calls peer ≡ ok ps
      → (q : Peer) → contains ps q ≡ is_given peer q
  unfolding peers_for target_peers new_peer_set add contains
  peers_for-is_given [] ps e q = let same : [] ≡ ps = cc in ap (λ x. contains x q) (sym same)
  peers_for-is_given (b ∷ bs) ps e q =
      single (is_parsed files calls (calls.parse_udp_addr (b ∷ bs))) e
    where
      single :
          (o : Option (Unit {0}))
          → target_peers (λ text. o) (b ∷ bs) ≡ ok ps
          → contains ps q ≡ is_given (b ∷ bs) q
      single none e = cc
      single (some u) e =
          let p : Peer = record { addr = b ∷ bs; index = pos 0 } in
          let same : p ∷ [] ≡ ps = cc in
          ap (λ x. contains x q) (sym same)
          ∙ (elim (Bool-cases (same_peer p q)) [ inl k ↦ rw k refl | inr k ↦ rw k refl ])

  -- From the call of Download to the end.
  fetched :
      (t : TorrentFile Addr) (path peer local : List ℕ) (pc : PeerDiscoveryConfig Addr)
      (d₀ d : Downloaded Addr Node) (s end : files.System)
      → IsStarted t peer (with_found files calls d₀ s) s
      → (pc.enable_dht ≡ false → d₀.dht_node ≡ none)
      → (pc.enable_dht ≡ true → HasNode files calls t local pc d₀.dht_node)
      → fetch files calls path d₀ s ≡ (ok d, end)
      → IsSaved t path peer local pc d end
  unfolding fetch found_until_now with_found
  fetched t path peer local pc d₀ d s end ready off on e =
      let x = with_found files calls d₀ s in
      let got = calls.download x s in
      let (buf, at, e₁) = resume_done got.0 got.1 _ d end e in
      let kept = save files calls path buf got.1 in
      let (u, at₁, e₂) = resume_done kept.0 kept.1 (λ u. found_until_now files calls x) d end e₁ in
      let last : with_found files calls x kept.1 ≡ d = cc (ap (λ w. w.0) e₂) in
      let ended : kept.1 ≡ end = ap (λ w. w.1) e₂ in
      let same_node : d.dht_node ≡ x.dht_node = ap (λ y. y.dht_node) (sym last) in
      record {
        x = x;
        before = s;
        buf = buf;
        started = ready;
        downloaded = at;
        saved =
            ap (λ w. disk.contents w path) (sym ended)
            ∙ (save-Ensures files calls disk path buf).after got.1 tt u at₁;
        same_torrent = ap (λ y. y.torrent) (sym last);
        same_hash = ap (λ y. y.info_hash) (sym last);
        same_node = same_node;
        peers = λ q.
            ap (λ y. contains y.peer_set q) (sym last)
            ∙ contains-with_found x kept.1 q
            ∙ ap (λ w. is_found x.dht_node w q || contains x.peer_set q) ended
            ∙ ap (λ n. is_found n end q || contains x.peer_set q) (sym same_node);
        no_node = λ disabled. same_node ∙ off disabled;
        has_node = λ enabled. subst (HasNode files calls t local pc) (sym same_node) (on enabled);
      }

  ready :
      (t : TorrentFile Addr) (peer local responsibility peer_id : List ℕ)
      (pc : PeerDiscoveryConfig Addr) (peer_set : PeerSet) (d : Downloaded Addr Node)
      (s : files.System)
      → peers_for files calls peer ≡ ok peer_set
      → Same files calls (torrent_for files calls t local responsibility pc peer_id peer_set) d
      → IsStarted t peer (with_found files calls d s) s
  unfolding torrent_for torrent_of with_found
  ready t peer local responsibility peer_id pc peer_set d s known same = record {
    hashes = ap (λ y. y.piece_hashes) same.torrent;
    piece_length = ap (λ y. y.piece_length) same.torrent;
    size = ap (λ y. y.length) same.torrent;
    info_hash = same.info_hash;
    peers = λ q.
        contains-with_found d s q
        ∙ ap (λ ps. is_found d.dht_node s q || contains ps q) same.peer_set
        ∙ ap (λ b. is_found d.dht_node s q || b) (peers_for-is_given peer peer_set known q);
  }

  -- On a disk that works as the documents of os say: when DownloadToFile returns a torrent, the
  -- file at the path holds exactly the bytes that Download returned, and Download was called on a
  -- torrent with the piece hashes, the lengths and the info hash of the torrent file, whose peers
  -- were the given peer, if there is one, and those that the DHT node had found until then. The
  -- torrent that is returned is this one, with the peers that the node has found until the end;
  -- with the DHT switched off it has no node, so no peer but the given one, and with it switched on
  -- its node is that of a call of EnableDht at the configured port of the local address, with the
  -- nodes of the torrent file and of the configuration, or none if that call failed.
  pub download_to_file-IsSaved :
      (t : TorrentFile Addr) (path peer local responsibility : List ℕ)
      (pc : PeerDiscoveryConfig Addr) (s end : files.System) (d : Downloaded Addr Node)
      → download_to_file files calls t path peer local responsibility pc s ≡ (ok d, end)
      → IsSaved t path peer local pc d end
  unfolding download_to_file torrent_for
  download_to_file-IsSaved t path peer local responsibility pc s end d e =
      let id = files.rand_read s in
      let (peer_id, at, e₁) = resume_done id.0 id.1 _ d end e in
      let (peer_set, known, e₂) = resume_done (peers_for files calls peer) id.1 _ d end e₁ in
      let start = torrent_for files calls t local responsibility pc peer_id peer_set in
      let node = dht_if_enabled files calls t pc start id.1 in
      let (d₀, at₀, e₃) = resume_done node.0 node.1 (fetch files calls path) d end e₂ in
      let same = (dht_if_enabled-Same files calls t pc start).after id.1 tt d₀ at₀ in
      fetched t path peer local pc d₀ d node.1 end
        (ready t peer local responsibility peer_id pc peer_set d₀ node.1 known same)
        (λ off. ap (λ y. y.dht_node) (sym (dht_disabled files calls t pc start d₀ id.1 off at₀)))
        (λ on. dht_enabled files calls t pc start d₀ id.1 on at₀) e₃
