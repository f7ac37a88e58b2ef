-- ===== src/P2p/Connections/Examples.antt =====
-- The theorem on new clients at a concrete input: a connection is its id.
use bittorrent_over_scion.Common.{ℕ, ◌≡◌, refl, List, [], ◌∷◌, true, pos, ok}
use bittorrent_over_scion.Common.Ids.{has_id, IsDistinct}
use bittorrent_over_scion.Config.{default_peer_disovery_config}
use bittorrent_over_scion.P2p.Connections.{Connected, join_new, id_of}
use bittorrent_over_scion.P2p.Connections.Joining.{IsJoined, join_new-IsJoined}

abbrev itself : List ℕ → List ℕ
itself id = id

abbrev dialled : Connected (List ℕ) ℕ
dialled = record {
  conn = 1 ∷ [];
  client = record {
    choked = true;
    bitfield = 255 ∷ [];
    peer = record { addr = 49 ∷ []; index = pos 0 };
    info_hash = [];
    peer_id = [];
    discovery_config = default_peer_disovery_config ℕ;
    has_dht_node = true;
  };
}

abbrev reported : List (List ℕ)
reported = (1 ∷ []) ∷ (2 ∷ []) ∷ (2 ∷ []) ∷ (3 ∷ []) ∷ []

dialled-IsDistinct : IsDistinct (id_of itself) (dialled ∷ [])
unfolding has_id
dialled-IsDistinct = (refl, tt)

join_new-IsJoined_example :
    (joined : List (Connected (List ℕ) ℕ)) × (join_new itself (dialled ∷ []) reported ≡ ok joined)
    × IsJoined itself dialled [] reported joined
join_new-IsJoined_example = join_new-IsJoined itself dialled [] reported dialled-IsDistinct
