-- ===== src/P2p/Discovery.antt =====
-- p2p/p2p.go: EnableDht, the leecher's callback for a peer that the DHT has found.
pub mod Starting
mod Examples
use bittorrent_over_scion.Common.{List, [], ◌∷◌, ◌++◌, not, if◌then◌else◌}
use bittorrent_over_scion.Peers.{Peer, PeerSet, contains, add}

-- `started` are the peers for which the callback has started a worker, in their order.
pub record Discovered : Type 0 where
  pub peer_set : PeerSet
  pub started : List Peer

unfoldable pub on_new_peer : Peer → Discovered → Discovered
on_new_peer peer t =
    let peer_known = contains t.peer_set peer in
    record {
      peer_set = add t.peer_set peer;
      started = if not peer_known then t.started ++ (peer ∷ []) else t.started;
    }
