-- ===== src/Server/Leechers.antt =====
-- server/server.go: the leechers that the server dials back, and the paths that it uses to each.
-- The text of a leecher's address is the key of the path store and the id of its ExtPeer. The
-- selection of an ExtPeer, which its socket shares, is a part of it. What the sockets do with the
-- paths belongs to scion-path-discovery.
pub mod Agreement
pub mod Selection
mod Examples
use bittorrent_over_scion.Common.{
  ℕ, ◌+◌, List, [], ◌∷◌, ◌++◌, map, Bool, true, false, not, ◌||◌, ◌==◌, if◌then◌else◌, bytes_equal,
  Option, none, some, get_elem?, ℤ, pos, negsuc, is_neg, pos_part, ltb_ℤ, add_int, sub_int, Result,
  ok, err, halt, panic, and_then,
}
use bittorrent_over_scion.Utils.{ensure_between_random}
use bittorrent_over_scion.PathSelection.{
  Interface, PeerPathEntry, PathSelectionStore, Sort, get, add_peer_entry, new_path_selection_store,
}

pub record ServerSelection (Route : Type 0) : Type 0 where
  pub num_paths : ℤ
  pub used_paths : List Route

pub record ExtPeer (Route : Type 0) : Type 0 where
  pub id : List ℕ
  pub selection : ServerSelection Route

-- The part of the server that a new leecher changes.
pub record Leechers (Route : Type 0) : Type 0 where
  pub path_store : PathSelectionStore Route
  pub ext_peers : List (ExtPeer Route)

module _ {Route : Type 0} where
  unfoldable pub no_leechers : Leechers Route
  no_leechers = record { path_store = new_path_selection_store; ext_peers = [] }

  abbrev pub use_paths : PathSelectionStore Route → ExtPeer Route → ExtPeer Route
  use_paths store v = record v {
    selection = record v.selection { used_paths = (get store v.id).used_paths };
  }

  -- `delete` of a key of the map.
  unfoldable pub delete_entry : PathSelectionStore Route → List ℕ → PathSelectionStore Route
  delete_entry [] id = []
  delete_entry (e ∷ store) id =
      let rest = delete_entry store id in if bytes_equal e.peer_addr id then rest else e ∷ rest

  unfoldable pub without_peer : List (ExtPeer Route) → List ℕ → List (ExtPeer Route)
  without_peer [] remote = []
  without_peer (p ∷ peers) remote =
      let rest = without_peer peers remote in
      if not (bytes_equal p.id remote) then p ∷ rest else rest

  -- What ListenHandshake does when the socket of a leecher has been disconnected.
  unfoldable pub forget_leecher : Leechers Route → List ℕ → Leechers Route
  forget_leecher s remote = record {
    path_store = delete_entry s.path_store remote;
    ext_peers = without_peer s.ext_peers remote;
  }

module _ {Route : Type 0} (interfaces : Route → List Interface) (sort_slice : Sort interfaces) where
  -- `paths` is what GetAvailablePaths of the socket returns, nil for an error.
  unfoldable pub update_disjoint_pathselection :
      Leechers Route → List Route → ExtPeer Route → Leechers Route
  update_disjoint_pathselection s paths p =
      let store =
        add_peer_entry interfaces sort_slice s.path_store
          (record { peer_addr = p.id; available_paths = paths; used_paths = [] }) in
      record {
        path_store = store;
        ext_peers = map (use_paths store) s.ext_peers ++ (use_paths store p ∷ []);
      }

-- A leecher connects, with the paths that lead to it, or is gone.
pub data Event (Route : Type 0) : Type 0 where
  connects : List ℕ → ℤ → List Route → Event Route
  leaves : List ℕ → Event Route

module _ {Route : Type 0} (interfaces : Route → List Interface) (sort_slice : Sort interfaces) where
  unfoldable pub handle_event : Leechers Route → Event Route → Leechers Route
  handle_event s (connects remote num_paths paths) =
      update_disjoint_pathselection interfaces sort_slice s paths
        (record { id = remote; selection = record { num_paths = num_paths; used_paths = [] } })
  handle_event s (leaves remote) = forget_leecher s remote

  unfoldable pub handle_events : Leechers Route → List (Event Route) → Leechers Route
  handle_events s [] = s
  handle_events s (e ∷ es) = handle_events (handle_event s e) es

-- The port of the next connection back.
unfoldable pub next_start_port : (ℤ → ℤ) → ℤ → Result ℤ
next_start_port intn start_port =
    ensure_between_random intn (add_int start_port (pos 101)) (pos 1025) (pos 65000)

-- The branch of CustomPathSelectAlg for `numPaths` 0. `PathQuality` is a parameter, `find` is
-- FindIndexByPathString for the path, and an index out of range is a panic.
module _ {Route Quality : Type 0} (find : List Quality → Route → ℤ) where
  or_panic : Option Quality → Result Quality
  or_panic none = halt panic
  or_panic (some q) = ok q

  quality_at : List Quality → ℤ → Result Quality
  unfolding or_panic
  quality_at qs (negsuc n) = halt panic
  quality_at qs (pos i) = or_panic (get_elem? qs i)

  unfoldable pub custom_path_select_alg : List Quality → List Route → Result (List Quality)
  unfolding quality_at
  custom_path_select_alg qs [] = ok []
  custom_path_select_alg qs (v ∷ used) =
      and_then (quality_at qs (find qs v))
        (λ q. and_then (custom_path_select_alg qs used) (λ rest. ok (q ∷ rest)))
