-- ===== src/PathSelection/Store.antt =====
-- pathselection/pathselectionstore.go: AddPeerEntry, which takes paths from other peers.
use mathlib.Core.Path.{subst}
use bittorrent_over_scion.Common.{
  ℕ, zero, suc, ◌+◌, ◌≡◌, refl, sym, ap, List, [], ◌∷◌, ◌++◌, Bool, some, leb, is_neg, pos_part,
  length, take, drop, replicate, get_elem?, bytes_equal, bytes_equal_refl, All, All-append,
  All-take, All-drop, All-replicate, Bool-cases, inl, inr, arith,
}
use bittorrent_over_scion.PathSelection.{
  Interface, PeerPathEntry, PathSelectionStore, Scan, no_conflict, not_enough, taken, Adding,
  zero_entry, get, update_peer_entry_in_store, remove_path_from_entry, next_peer,
  filter_by_minimum_used_paths, get_peer_conflict_paths, get_conflict_free_paths, scan, settle_path,
  add_path, add_paths, add_peer_entry, Sort, sort_peer_path_entries,
}
use bittorrent_over_scion.PathSelection.FreePaths.{IsFree, get_conflict_free_paths-IsFree}

abbrev pub Listed : {Route : Type 0} → List Route → Route → Type 0
Listed paths p = (k : ℕ) × (get_elem? paths k ≡ some p)

module _ {Route : Type 0} (interfaces : Route → List Interface) where
  -- A peer uses paths that are available to it, and no two of them conflict.
  pub record IsProper (e : PeerPathEntry Route) : Type 0 where
    pub listed : All (Listed e.available_paths) e.used_paths
    pub free : IsFree interfaces e.used_paths

  All-removed :
      (P : Route → Type 0) (i : ℕ) (ps : List Route)
      → All P ps
      → All P (take i ps ++ drop (i + 1) ps)
  All-removed P i ps h = All-append P _ _ (All-take P i ps h) (All-drop P (i + 1) ps h)

  next : (i : ℕ) → suc i + 1 ≡ suc (i + 1)
  next i = omega arith

  IsFree-removed :
      (i : ℕ) (ps : List Route)
      → IsFree interfaces ps
      → IsFree interfaces (take i ps ++ drop (i + 1) ps)
  IsFree-removed zero [] h = tt
  IsFree-removed (suc i) [] h = rw (next i) tt
  IsFree-removed zero (p ∷ ps) (now, h) = h
  IsFree-removed (suc i) (p ∷ ps) (now, h) =
      rw (next i) (All-removed _ i ps now, IsFree-removed i ps h)

  remove-IsProper :
      (e : PeerPathEntry Route) (i : ℕ) → IsProper e → IsProper (remove_path_from_entry e i)
  unfolding remove_path_from_entry
  remove-IsProper e i h = record {
    listed = All-removed (Listed e.available_paths) i e.used_paths h.listed;
    free = IsFree-removed i e.used_paths h.free;
  }

  pub zero-IsProper : IsProper zero_entry
  zero-IsProper = record { listed = tt; free = tt }

  update-IsProper :
      (store : PathSelectionStore Route) (e : PeerPathEntry Route)
      → All IsProper store
      → IsProper e
      → All IsProper (update_peer_entry_in_store store e)
  unfolding update_peer_entry_in_store
  update-IsProper [] e h k = (k, tt)
  update-IsProper (x ∷ store) e (now, h) k =
      elim (Bool-cases (bytes_equal x.peer_addr e.peer_addr)) [
        | inl same ↦ simp same (k, h)
        | inr other ↦ simp other (now, update-IsProper store e h k)
      ]

  -- A scan that takes a path leaves proper entries.
  abbrev Keeps : Scan Route → Type 0
  Keeps no_conflict = Unit {0}
  Keeps not_enough = Unit {0}
  Keeps (taken target peers) = IsProper target × All IsProper peers

  next_peer-Keeps :
      (e : PeerPathEntry Route) (r : Scan Route) → IsProper e → Keeps r → Keeps (next_peer e r)
  unfolding next_peer
  next_peer-Keeps e no_conflict h k = tt
  next_peer-Keeps e not_enough h k = tt
  next_peer-Keeps e (taken target peers) h (t, k) = (t, (h, k))

  scan-Keeps :
      (path : Route) (n : ℕ) (peers : List (PeerPathEntry Route))
      → All IsProper peers
      → Keeps (scan interfaces path n peers)
  unfolding scan
  scan-Keeps path n [] h = tt
  scan-Keeps path n (target ∷ peers) (now, h) =
      elim (Bool-cases (is_neg (get_peer_conflict_paths interfaces path target))) [
        | inl free ↦
            simp free (
              next_peer-Keeps target (scan interfaces path n peers) now (scan-Keeps path n peers h))
        | inr meets ↦ elim (Bool-cases (leb (length target.used_paths) n)) [
          | inl few ↦ simp (meets, few) tt
          | inr enough ↦
              let p =
                remove-IsProper target (pos_part (get_peer_conflict_paths interfaces path target))
                  now in
              simp (meets, enough) (p, (p, h))
        ]
      ]

  enough-IsProper :
      (store peers : List (PeerPathEntry Route)) (n : ℕ)
      → All IsProper peers
      → All IsProper (filter_by_minimum_used_paths store peers n)
  unfolding filter_by_minimum_used_paths
  enough-IsProper store peers n h =
      All-append IsProper _ _ (All-replicate IsProper (length store) zero_entry zero-IsProper)
        (go peers h)
    where
      go :
          (es : List (PeerPathEntry Route))
          → All IsProper es
          → All IsProper (filter_by_minimum_used_paths [] es n)
      go [] k = tt
      go (e ∷ es) (now, k) = elim (Bool-cases (leb n (length e.used_paths))) [
        | inl many ↦ simp many (now, go es k)
        | inr few ↦ simp few (go es k)
      ]

  module _ (available : List Route) where
    record Going (a : Adding Route) : Type 0 where
      store : All IsProper a.store
      peers : All IsProper a.peers
      used : All (Listed available) a.used

    settle-Going :
        (a : Adding Route) (path : Route) (r : Scan Route)
        → Listed available path
        → Going a
        → Keeps r
        → Going (settle_path interfaces a path r)
    unfolding settle_path
    settle-Going a path no_conflict l g k = record {
      store = g.store;
      peers = g.peers;
      used = All-append _ a.used (path ∷ []) g.used (l, tt);
    }
    settle-Going a path not_enough l g k = g
    settle-Going a path (taken target peers) l g (t, k) = record {
      store = update-IsProper a.store target g.store t;
      peers = enough-IsProper (update_peer_entry_in_store a.store target) peers _ k;
      used = All-append _ a.used (path ∷ []) g.used (l, tt);
    }

    add_paths-Going :
        (paths : List Route) (a : Adding Route)
        → All (Listed available) paths
        → Going a
        → Going (add_paths interfaces a paths)
    unfolding add_paths add_path
    add_paths-Going [] a l g = g
    add_paths-Going (path ∷ paths) a (now, l) g =
        add_paths-Going paths _ l
          (settle-Going a path _ now g (scan-Keeps path (length a.used) a.peers g.peers))

  Listed-later : (p : Route) (ps qs : List Route) → All (Listed ps) qs → All (Listed (p ∷ ps)) qs
  Listed-later p ps [] h = tt
  Listed-later p ps (q ∷ qs) ((k, e), h) = ((suc k, e), Listed-later p ps qs h)

  Listed-self : (ps : List Route) → All (Listed ps) ps
  Listed-self [] = tt
  Listed-self (p ∷ ps) = ((0, refl), Listed-later p ps ps (Listed-self ps))

  get-update :
      (store : PathSelectionStore Route) (e : PeerPathEntry Route)
      → get (update_peer_entry_in_store store e) e.peer_addr ≡ e
  unfolding get update_peer_entry_in_store
  get-update [] e = rw (bytes_equal_refl e.peer_addr)
  get-update (x ∷ store) e = elim (Bool-cases (bytes_equal x.peer_addr e.peer_addr)) [
    | inl same ↦ simp (same, bytes_equal_refl e.peer_addr)
    | inr other ↦ simp other (get-update store e)
  ]

  -- AddPeerEntry keeps a store in which each peer uses only paths that are available to it, and no
  -- two that conflict, such a store; and the new peer is in it, with the paths that were available
  -- to it. The new entry uses no path before, and the sort puts no entry out that is not put in.
  pub add_peer_entry-IsProper :
      (sort_slice : Sort interfaces)
      → ((less : PeerPathEntry Route → PeerPathEntry Route → Bool)
            (P : PeerPathEntry Route → Type 0) (es : List (PeerPathEntry Route))
          → All P es
          → All P (sort_slice less es))
      → (store : PathSelectionStore Route) (e : PeerPathEntry Route) → e.used_paths ≡ []
      → All IsProper store
      → All IsProper (add_peer_entry interfaces sort_slice store e)
        × ((get (add_peer_entry interfaces sort_slice store e) e.peer_addr).available_paths
            ≡ e.available_paths)
  unfolding add_peer_entry sort_peer_path_entries
  add_peer_entry-IsProper sort_slice sorted store e fresh h =
      let peers =
        sort_peer_path_entries interfaces sort_slice
          (replicate (length store) zero_entry ++ store) in
      let start : Adding Route = record { store = store; peers = peers; used = e.used_paths } in
      let before : All IsProper (replicate (length store) zero_entry ++ store) =
        All-append IsProper _ store (All-replicate IsProper (length store) zero_entry zero-IsProper)
          h in
      let g =
        add_paths-Going e.available_paths e.available_paths start (Listed-self e.available_paths)
          (record {
            store = h;
            peers = sorted _ IsProper _ before;
            used = subst (All (Listed e.available_paths)) (sym fresh) tt;
          }) in
      let a = add_paths interfaces start e.available_paths in
      let last : PeerPathEntry Route = record e { used_paths = a.used } in
      let free = get_conflict_free_paths-IsFree interfaces last in
      let made : PeerPathEntry Route = record e {
        used_paths = get_conflict_free_paths interfaces last;
      } in
      (
        update-IsProper a.store made g.store
            (record { listed = free.1 (Listed e.available_paths) g.used; free = free.0 }),
        ap (λ x. x.available_paths) (get-update a.store made),
      )
