-- ===== src/PathSelection.antt =====
-- pathselection/pathselectionstore.go: which paths each peer uses. A path is a parameter, with the
-- interfaces of its metadata. The map from a peer's name to its entry is a list of entries with
-- different names, and a peer's address and name are one field.
pub mod Conflicts
pub mod FreePaths
pub mod Store
pub mod Fairness
mod Examples
use bittorrent_over_scion.Common.{
  ℕ, ◌+◌, List, [], ◌∷◌, ◌++◌, Bool, true, false, ◌&&◌, ◌||◌, not, ◌==◌, ltb, leb, if◌then◌else◌,
  length, take, drop, replicate, bytes_equal, ℤ, pos, negsuc, is_neg, pos_part,
}

-- The number of an AS, and that of an interface within it.
pub record Interface : Type 0 where
  pub ia : ℕ
  pub id : ℕ

abbrev pub same_interface : Interface → Interface → Bool
same_interface x y = x.ia == y.ia && x.id == y.id

-- The first interfaces of two paths are not compared, and the last ones neither.
abbrev pub passed_over : ℕ → ℕ → ℕ → ℕ → Bool
passed_over len₁ len₂ i j = (i == 0 && j == 0) || (i + 1 == len₁ && j + 1 == len₂)

-- The inner loop, from index `j` on.
unfoldable pub row_conflicts : ℕ → ℕ → ℕ → Interface → ℕ → List Interface → Bool
row_conflicts len₁ len₂ i x j [] = false
row_conflicts len₁ len₂ i x j (y ∷ ys) =
    (not (passed_over len₁ len₂ i j) && same_interface x y)
    || row_conflicts len₁ len₂ i x (j + 1) ys

-- The outer loop, from index `i` on.
unfoldable pub rows_conflict : ℕ → ℕ → ℕ → List Interface → List Interface → Bool
rows_conflict len₁ len₂ i [] ys = false
rows_conflict len₁ len₂ i (x ∷ xs) ys =
    row_conflicts len₁ len₂ i x 0 ys || rows_conflict len₁ len₂ (i + 1) xs ys

pub record PeerPathEntry (Route : Type 0) : Type 0 where
  pub peer_addr : List ℕ
  pub available_paths : List Route
  pub used_paths : List Route

abbrev pub zero_entry : {Route : Type 0} → PeerPathEntry Route
zero_entry = record { peer_addr = []; available_paths = []; used_paths = [] }

abbrev pub PathSelectionStore : Type 0 → Type 0
PathSelectionStore Route = List (PeerPathEntry Route)

-- What the loop over the other peers comes to, for one path: no conflict, a conflict with a peer
-- that has too few paths, or the changed peer and the changed list of peers.
pub data Scan (Route : Type 0) : Type 0 where
  no_conflict : Scan Route
  not_enough : Scan Route
  taken : PeerPathEntry Route → List (PeerPathEntry Route) → Scan Route

-- The store, the peers that may still give up a path, and the paths of the new entry.
pub record Adding (Route : Type 0) : Type 0 where
  pub store : PathSelectionStore Route
  pub peers : List (PeerPathEntry Route)
  pub used : List Route

module _ {Route : Type 0} where
  unfoldable pub new_path_selection_store : PathSelectionStore Route
  new_path_selection_store = []

  -- A missing key gives the zero entry.
  unfoldable pub get : PathSelectionStore Route → List ℕ → PeerPathEntry Route
  get [] id = zero_entry
  get (e ∷ store) id = if bytes_equal e.peer_addr id then e else get store id

  unfoldable pub update_peer_entry_in_store :
      PathSelectionStore Route → PeerPathEntry Route → PathSelectionStore Route
  update_peer_entry_in_store [] entry = entry ∷ []
  update_peer_entry_in_store (e ∷ store) entry =
      let rest = update_peer_entry_in_store store entry in
      if bytes_equal e.peer_addr entry.peer_addr then entry ∷ store else e ∷ rest

  unfoldable pub remove_path_from_entry : PeerPathEntry Route → ℕ → PeerPathEntry Route
  remove_path_from_entry entry i = record entry {
    used_paths = take i entry.used_paths ++ drop (i + 1) entry.used_paths;
  }

  next_peer : PeerPathEntry Route → Scan Route → Scan Route
  next_peer e no_conflict = no_conflict
  next_peer e not_enough = not_enough
  next_peer e (taken t peers) = taken t (e ∷ peers)

  -- `make([]PeerPathEntry, len(p.Data))` puts that many zero entries before the others.
  unfoldable pub filter_by_minimum_used_paths :
      PathSelectionStore Route → List (PeerPathEntry Route) → ℕ → List (PeerPathEntry Route)
  filter_by_minimum_used_paths store entries min =
      replicate (length store) zero_entry ++ enough entries min
    where
      enough : List (PeerPathEntry Route) → ℕ → List (PeerPathEntry Route)
      enough [] n = []
      enough (e ∷ es) n =
          let rest = enough es n in if leb n (length e.used_paths) then e ∷ rest else rest

module _ {Route : Type 0} (interfaces : Route → List Interface) where
  unfoldable pub paths_conflict : Route → Route → Bool
  paths_conflict p q =
      let xs = interfaces p in
      let ys = interfaces q in rows_conflict (length xs) (length ys) 0 xs ys

  -- The loop of `getPeerConflictPaths`, from index `i` on.
  conflict_from : Route → ℕ → List Route → ℤ
  conflict_from path i [] = negsuc 0
  conflict_from path i (target ∷ used) =
      let rest = conflict_from path (i + 1) used in
      if paths_conflict path target then pos i else rest

  unfoldable pub get_peer_conflict_paths : Route → PeerPathEntry Route → ℤ
  unfolding conflict_from
  get_peer_conflict_paths path peer = conflict_from path 0 peer.used_paths

  unfoldable pub conflicts_any : Route → List Route → Bool
  conflicts_any p [] = false
  conflicts_any p (q ∷ qs) = paths_conflict p q || conflicts_any p qs

  -- The loop of `getConflictFreePaths`, with the paths that it has kept so far.
  unfoldable pub keep_free : List Route → List Route → List Route
  keep_free kept [] = kept
  keep_free kept (p ∷ used) =
      keep_free (if conflicts_any p kept then kept else kept ++ (p ∷ [])) used

  unfoldable pub get_conflict_free_paths : PeerPathEntry Route → List Route
  get_conflict_free_paths peer = keep_free [] peer.used_paths

  -- The loop over the other peers, for one path of an entry that has `n` paths so far.
  unfoldable pub scan : Route → ℕ → List (PeerPathEntry Route) → Scan Route
  unfolding next_peer
  scan path n [] = no_conflict
  scan path n (target ∷ peers) =
      let rest = next_peer target (scan path n peers) in
      let i = get_peer_conflict_paths path target in
      if is_neg i
      then rest
      else (if leb (length target.used_paths) n
          then not_enough
          else (let target' = remove_path_from_entry target (pos_part i) in
              taken target' (target' ∷ peers)))

  settle_path : Adding Route → Route → Scan Route → Adding Route
  settle_path a path no_conflict = record a { used = a.used ++ (path ∷ []) }
  settle_path a path not_enough = a
  settle_path a path (taken target peers) =
      let store = update_peer_entry_in_store a.store target in
      let used = a.used ++ (path ∷ []) in
      record {
        store = store;
        peers = filter_by_minimum_used_paths store peers (length used);
        used = used;
      }

  -- The body of the loop over the available paths. With no other peer, the loop over them is
  -- empty, so the path is taken here as well.
  unfoldable pub add_path : Adding Route → Route → Adding Route
  unfolding settle_path
  add_path a path = settle_path a path (scan path (length a.used) a.peers)

  unfoldable pub add_paths : Adding Route → List Route → Adding Route
  add_paths a [] = a
  add_paths a (path ∷ paths) = add_paths (add_path a path) paths

  abbrev pub Sort : Type 0
  Sort =
      (PeerPathEntry Route → PeerPathEntry Route → Bool)
      → List (PeerPathEntry Route)
      → List (PeerPathEntry Route)

  unfoldable pub sort_peer_path_entries :
      Sort → List (PeerPathEntry Route) → List (PeerPathEntry Route)
  sort_peer_path_entries sort_slice entries =
      sort_slice (λ e e'. ltb (length e.used_paths) (length e'.used_paths)) entries

  -- `sort_slice` stands for sort.Slice, and for the order in which Go ranges over the map.
  unfoldable pub add_peer_entry :
      Sort → PathSelectionStore Route → PeerPathEntry Route → PathSelectionStore Route
  unfolding sort_peer_path_entries
  add_peer_entry sort_slice store entry =
      let peers =
        sort_peer_path_entries sort_slice (replicate (length store) zero_entry ++ store) in
      let a =
        add_paths (record { store = store; peers = peers; used = entry.used_paths })
          entry.available_paths in
      update_peer_entry_in_store a.store (record entry {
        used_paths = get_conflict_free_paths (record entry { used_paths = a.used });
      })
