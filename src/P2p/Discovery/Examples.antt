-- ===== src/P2p/Discovery/Examples.antt =====
-- The theorem on the workers that the DHT starts at a concrete input: a peer of the DHT is its text.
use bittorrent_over_scion.Common.{
  ℕ, ◌≡◌, List, [], ◌∷◌, ◌&&◌, not, false, pos, Option, none, some, arith,
}
use bittorrent_over_scion.Peers.{Peer, PeerSet, contains}
use bittorrent_over_scion.Peers.Sets.{IsSimple}
use bittorrent_over_scion.DhtNode.{DhtNode, PeerCalls, announce_loop}
use bittorrent_over_scion.DhtNode.Found.{others, found_by}
use bittorrent_over_scion.DhtNode.Announcements.{IsBounded}
use bittorrent_over_scion.P2p.Discovery.{Discovered, on_new_peer}
use bittorrent_over_scion.P2p.Discovery.Starting.{has_found, announce_loop-starts}

abbrev calls : PeerCalls (List ℕ) (Unit {0})
calls = record {
  port = λ p. pos 6881;
  ip_equal = λ p here. false;
  ia_equal = λ p here. false;
  to_text = λ p. p;
}

abbrev node : DhtNode (Unit {0})
node = record {
  stats = record {
    announces_handled = 0;
    blocked_peers = 0;
    received_peers_while_traversing = 0;
    announces_started = 0;
  };
  info_hash = [];
  node_addr = tt;
  peer_port = 40000;
}

node-IsBounded : IsBounded node.stats
node-IsBounded = record { blocked = omega arith; received = omega arith; started = omega arith }

abbrev known : PeerSet
known = record { addr = 1 ∷ []; index = pos 0 } ∷ []

-- A known peer, and a new one that is found twice.
abbrev rounds : List (Option (List (List (List ℕ))))
rounds = some (((1 ∷ []) ∷ (2 ∷ []) ∷ []) ∷ []) ∷ none ∷ some (((2 ∷ []) ∷ []) ∷ []) ∷ []

abbrev discovered : Discovered
discovered =
    (announce_loop calls on_new_peer node (record { peer_set = known; started = [] }) rounds).1

announce_loop-starts_example :
    IsSimple discovered.started
    × ((q : Peer)
        → contains discovered.started q ≡ (
            has_found calls (others calls node.node_addr (found_by rounds)) q
            && not (contains known q)))
announce_loop-starts_example = announce_loop-starts calls node known rounds node-IsBounded
