-- ===== src/DhtNode/Examples.antt =====
-- Tests of the DHT node, and its theorems at concrete inputs. An address is its text; a peer of the
-- DHT is its host and its port.
use bittorrent_over_scion.Common.{
  ℕ, ◌≡◌, refl, List, [], ◌∷◌, true, pos, Option, none, some, length, ◌==◌, arith,
}
use bittorrent_over_scion.DhtNode.{
  DhtNode, PeerCalls, new_stats, add_uint32, on_announce_peer, put_node, put_nodes,
  unique_starting_nodes, announce_loop,
}
use bittorrent_over_scion.DhtNode.Found.{others, found_by}
use bittorrent_over_scion.DhtNode.Announcements.{IsBounded, after, tell, announce_loop_lem}

abbrev text_of : List ℕ → List ℕ
text_of n = n

two_names :
    unique_starting_nodes text_of (λ es. es) ((1 ∷ []) ∷ (2 ∷ []) ∷ (1 ∷ []) ∷ [])
    ≡ (1 ∷ []) ∷ (2 ∷ []) ∷ []
unfolding unique_starting_nodes put_nodes put_node
two_names = refl

-- An announcement with port 0 is blocked.
announce_zero : (on_announce_peer (1 ∷ []) new_stats (1 ∷ []) (pos 0) true).blocked_peers ≡ 1
unfolding on_announce_peer new_stats add_uint32
announce_zero = refl

abbrev found_calls : PeerCalls (ℕ × ℕ) ℕ
found_calls = record {
  port = λ p. pos p.1;
  ip_equal = λ p here. p.0 == here;
  ia_equal = λ p here. true;
  to_text = λ p. p.0 ∷ p.1 ∷ [];
}

abbrev here_node : DhtNode ℕ
here_node = record {
  stats = record {
    announces_handled = 0;
    blocked_peers = 4294967295;
    received_peers_while_traversing = 0;
    announces_started = 0;
  };
  info_hash = [];
  node_addr = 7;
  peer_port = 40000;
}

here_node-IsBounded : IsBounded here_node.stats
here_node-IsBounded = record {
  blocked = omega arith;
  received = omega arith;
  started = omega arith;
}

-- One announcement finds three peers, the second one fails.
abbrev rounds : List (Option (List (List (ℕ × ℕ))))
rounds = some (((8, 1) ∷ (7, 2) ∷ []) ∷ ((9, 0) ∷ []) ∷ []) ∷ none ∷ []

announce_loop_lem_example : announce_loop found_calls (λ p ps. p ∷ ps) here_node [] rounds ≡ (
  after found_calls here_node (length rounds) (found_by rounds),
  tell found_calls (λ p ps. p ∷ ps) [] (others found_calls here_node.node_addr (found_by rounds)),
)
announce_loop_lem_example =
    announce_loop_lem found_calls (λ p ps. p ∷ ps) here_node [] rounds here_node-IsBounded
