-- ===== src/DhtNode.antt =====
-- dht_node/dht_node.go: the node of the DHT that a seeder or a leecher runs to find peers. The DHT
-- and the type of its peers and addresses belong to netsys-lab/dht.
pub mod Found
pub mod Announcements
pub mod StartingNodes
mod Examples
use bittorrent_over_scion.Common.{
  ℕ, ◌+◌, ◌%◌, ◌^◌, List, [], ◌∷◌, ◌++◌, map, Bool, true, false, ◌&&◌, ◌||◌, not, if◌then◌else◌,
  bytes_equal, ℤ, pos, eqb_ℤ, Result, ok, err, halt, panic, Option, none, some,
}
use bittorrent_over_scion.Peers.{Peer, PeerSet, contains, add}

-- The counters are of 32 bits and wrap.
pub record DhtStats : Type 0 where
  pub announces_handled : ℕ
  pub blocked_peers : ℕ
  pub received_peers_while_traversing : ℕ
  pub announces_started : ℕ

pub record DhtNode (Addr : Type 0) : Type 0 where
  pub stats : DhtStats
  pub info_hash : List ℕ
  pub node_addr : Addr
  pub peer_port : ℕ

-- What the code uses of a peer that the DHT has found: its port, whether its host and its AS are
-- those of an address, and its text.
pub record PeerCalls (DhtPeer Addr : Type 0) : Type 0 where
  pub port : DhtPeer → ℤ
  pub ip_equal : DhtPeer → Addr → Bool
  pub ia_equal : DhtPeer → Addr → Bool
  pub to_text : DhtPeer → List ℕ

unfoldable pub add_uint32 : ℕ → ℕ
add_uint32 n = (n + 1) % 2 ^ 32

abbrev pub block_peer : DhtStats → DhtStats
block_peer s = record s { blocked_peers = add_uint32 s.blocked_peers }

unfoldable pub new_stats : DhtStats
new_stats = record {
  announces_handled = 0;
  blocked_peers = 0;
  received_peers_while_traversing = 0;
  announces_started = 0;
}

-- The callback for a peer that announces itself here.
unfoldable pub on_announce_peer : List ℕ → DhtStats → List ℕ → ℤ → Bool → DhtStats
on_announce_peer torrent_info_hash stats info_hash port port_ok =
    if not (bytes_equal torrent_info_hash info_hash) || not port_ok || eqb_ℤ port (pos 0)
    then block_peer stats
    else record stats { announces_handled = add_uint32 stats.announces_handled }

-- `n.port` is `Port` of the node's address. A method on the nil pointer reads a field of it.
unfoldable pub own_port : Option ℕ → Result (Option ℕ)
own_port (some port) = ok none
own_port none = halt panic

-- The map from texts to addresses is the list of its entries, and `range` the order in which Go
-- goes through it.
module _ {Addr : Type 0} (text : Addr → List ℕ) where
  abbrev pub NodesMap : Type 0
  NodesMap = List (List ℕ × Addr)

  unfoldable pub put_node : NodesMap → Addr → NodesMap
  put_node [] n = (text n, n) ∷ []
  put_node (e ∷ es) n =
      let rest = put_node es n in if bytes_equal e.0 (text n) then (e.0, n) ∷ es else e ∷ rest

  unfoldable pub put_nodes : NodesMap → List Addr → NodesMap
  put_nodes es [] = es
  put_nodes es (n ∷ nodes) = put_nodes (put_node es n) nodes

  unfoldable pub unique_starting_nodes : (NodesMap → NodesMap) → List Addr → List Addr
  unique_starting_nodes range nodes = map (λ e. e.1) (range (put_nodes [] nodes))

  -- The callback StartingNodes.
  unfoldable pub starting_nodes_with : (NodesMap → NodesMap) → List Addr → Addr → List Addr
  starting_nodes_with range starting_nodes local_node_addr =
      unique_starting_nodes range (starting_nodes ++ (local_node_addr ∷ []))

module _ {DhtPeer Addr : Type 0} (calls : PeerCalls DhtPeer Addr) where
  unfoldable pub convert_peer : DhtPeer → Peer
  convert_peer peer = record { addr = calls.to_text peer; index = pos 0 }

-- `S` is the state of the side that runs the node, which its callback for a new peer changes.
module _ {DhtPeer Addr S : Type 0} (calls : PeerCalls DhtPeer Addr)
    (on_new_peer_received : Peer → S → S) where
  -- One round of the inner loop.
  unfoldable pub consume_peer : DhtNode Addr → S → DhtPeer → DhtNode Addr × S
  consume_peer d s cp =
      let counted = record d.stats {
        received_peers_while_traversing = add_uint32 d.stats.received_peers_while_traversing;
      } in
      if eqb_ℤ (calls.port cp) (pos 0)
      then (record d { stats = block_peer counted }, s)
      else (if calls.ip_equal cp d.node_addr && calls.ia_equal cp d.node_addr
          then (record d { stats = block_peer counted }, s)
          else (record d { stats = counted }, on_new_peer_received (convert_peer calls cp) s))

  unfoldable pub consume_values : DhtNode Addr → S → List DhtPeer → DhtNode Addr × S
  consume_values d s [] = (d, s)
  consume_values d s (cp ∷ cps) = let next = consume_peer d s cp in consume_values next.0 next.1 cps

  -- The stream of what an announcement finds, up to its end.
  unfoldable pub consume_peers : DhtNode Addr → S → List (List DhtPeer) → DhtNode Addr × S
  consume_peers d s [] = (d, s)
  consume_peers d s (v ∷ vs) = let next = consume_values d s v in consume_peers next.0 next.1 vs

  -- `announced` is the stream that Announce of the DHT opens, or its error. The goroutine of
  -- consumePeers runs here to the end of the stream; in the code it runs beside the loop, which
  -- closes the announcement before it makes the next one.
  unfoldable pub announce_and_get_peers :
      DhtNode Addr → S → Option (List (List DhtPeer)) → DhtNode Addr × S
  announce_and_get_peers d s announced =
      let started = record d {
        stats = record d.stats { announces_started = add_uint32 d.stats.announces_started };
      } in
      elim announced [ none ↦ (started, s) | some stream ↦ consume_peers started s stream ]

  -- A new announcement for each tick.
  unfoldable pub announce_loop :
      DhtNode Addr → S → List (Option (List (List DhtPeer))) → DhtNode Addr × S
  announce_loop d s [] = (d, s)
  announce_loop d s (r ∷ rs) =
      let next = announce_and_get_peers d s r in announce_loop next.0 next.1 rs
