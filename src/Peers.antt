-- ===== src/Peers.antt =====
-- peers/peers.go: peers and sets of peers. The map from peers to the empty struct is the list of its keys.
pub mod Sets
pub mod Members
mod Examples
use bittorrent_over_scion.Common.{
  ℕ, ◌/◌, ◌%◌, List, [], ◌∷◌, Bool, true, false, ◌&&◌, not, ◌==◌, if◌then◌else◌, length, replicate,
  bytes_equal, ℤ, pos, eqb_ℤ, Result, ok, err, malformed_peers,
}

pub record Peer : Type 0 where
  pub addr : List ℕ
  pub index : ℤ

-- Go's `==` on the struct.
abbrev pub same_peer : Peer → Peer → Bool
same_peer p q = bytes_equal p.addr q.addr && eqb_ℤ p.index q.index

abbrev pub PeerSet : Type 0
PeerSet = List Peer

unfoldable pub new_peer_set : PeerSet
new_peer_set = []

unfoldable pub contains : PeerSet → Peer → Bool
contains [] p = false
contains (q ∷ ps) p = if same_peer q p then true else contains ps p

-- An assignment to a key that is there changes nothing.
unfoldable pub add : PeerSet → Peer → PeerSet
add ps p = if contains ps p then ps else p ∷ ps

unfoldable pub delete : PeerSet → Peer → PeerSet
delete [] p = []
delete (q ∷ ps) p = let rest = delete ps p in if same_peer q p then rest else q ∷ rest

abbrev pub zero_peer : Peer
zero_peer = record { addr = []; index = pos 0 }

-- The loop over the records makes an error value and drops it: every peer stays the zero value.
unfoldable pub unmarshal : List ℕ → Result (List Peer)
unmarshal peers_bin =
    if not (length peers_bin % 6 == 0)
    then err malformed_peers
    else ok (replicate (length peers_bin / 6) zero_peer)
