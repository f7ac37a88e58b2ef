-- ===== src/P2p/Connections.antt =====
-- p2p/p2p.go: the clients of startDownloadWorker when its socket has new connections. The type of a
-- connection and its id belong to scion-path-discovery.
pub mod Joining
mod Examples
use bittorrent_over_scion.Common.{
  ℕ, List, [], ◌∷◌, ◌++◌, Bool, false, not, if◌then◌else◌, Result, ok, err, halt, panic, and_then,
}
use bittorrent_over_scion.Common.Ids.{has_id}
use bittorrent_over_scion.Client.{Client}

pub record Connected (C Addr : Type 0) : Type 0 where
  pub conn : C
  pub client : Client Addr

module _ {C Addr : Type 0} where
  abbrev pub copy_of : Client Addr → C → Connected C Addr
  copy_of first v = record {
    conn = v;
    client = record {
      choked = false;
      bitfield = first.bitfield;
      peer = first.peer;
      info_hash = first.info_hash;
      peer_id = first.peer_id;
      discovery_config = first.discovery_config;
      has_dht_node = false;
    };
  }

  -- `clients[0]` of no clients is a panic.
  unfoldable pub append_copy : List (Connected C Addr) → C → Result (List (Connected C Addr))
  append_copy [] v = halt panic
  append_copy (first ∷ clients) v = ok (first ∷ (clients ++ (copy_of first.client v ∷ [])))

module _ {C Addr : Type 0} (id : C → List ℕ) where
  abbrev pub id_of : Connected C Addr → List ℕ
  id_of cl = id cl.conn

  unfoldable pub join_one : List (Connected C Addr) → C → Result (List (Connected C Addr))
  join_one clients v =
      if not (has_id id_of clients (id v)) then append_copy clients v else ok clients

  -- The loop over the connections, the last of which is that of the dial. Each client that it
  -- appends gets a worker of its own.
  unfoldable pub join_new : List (Connected C Addr) → List C → Result (List (Connected C Addr))
  join_new clients [] = ok clients
  join_new clients (v ∷ []) = ok clients
  join_new clients (v ∷ w ∷ conns) =
      and_then (join_one clients v) (λ joined. join_new joined (w ∷ conns))
