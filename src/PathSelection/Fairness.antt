-- ===== src/PathSelection/Fairness.antt =====
-- pathselection/pathselectionstore.go: from which peers AddPeerEntry takes a path.
use bittorrent_over_scion.Common.{
  ℕ, ◌+◌, ◌≤◌, ◌≡◌, List, [], ◌∷◌, false, leb, length-append, length-take, length-drop, is_neg,
  pos_part, length, take, drop, Bool-cases, inl, inr, arith,
}
use bittorrent_over_scion.PathSelection.{
  Interface, PeerPathEntry, Scan, no_conflict, not_enough, taken, remove_path_from_entry, next_peer,
  get_peer_conflict_paths, scan,
}

module _ {Route : Type 0} (interfaces : Route → List Interface) where
  -- What is left to a peer that gives up a path.
  abbrev pub Leaves : ℕ → Scan Route → Type 0
  Leaves n no_conflict = Unit {0}
  Leaves n not_enough = Unit {0}
  Leaves n (taken target peers) = n ≤ length target.used_paths

  next_peer-Leaves :
      (n : ℕ) (e : PeerPathEntry Route) (r : Scan Route) → Leaves n r → Leaves n (next_peer e r)
  unfolding next_peer
  next_peer-Leaves n e no_conflict h = tt
  next_peer-Leaves n e not_enough h = tt
  next_peer-Leaves n e (taken target peers) h = h

  length-remove :
      (e : PeerPathEntry Route) (i n : ℕ)
      → leb (length e.used_paths) n ≡ false
      → n ≤ length (remove_path_from_entry e i).used_paths
  unfolding remove_path_from_entry
  length-remove e i n h = ground (
    arith,
    length-append {0} (take i e.used_paths) (drop (i + 1) e.used_paths),
    length-take {0} i e.used_paths,
    length-drop {0} (i + 1) e.used_paths,
  )

  -- A path is taken only from a peer that is left with at least as many paths as the new entry had
  -- before it got the path.
  pub scan-Leaves :
      (path : Route) (n : ℕ) (peers : List (PeerPathEntry Route))
      → Leaves n (scan interfaces path n peers)
  unfolding scan
  scan-Leaves path n [] = tt
  scan-Leaves path n (target ∷ peers) =
      elim (Bool-cases (is_neg (get_peer_conflict_paths interfaces path target))) [
        | inl free ↦
            simp free
              (next_peer-Leaves n target (scan interfaces path n peers) (scan-Leaves path n peers))
        | inr meets ↦ elim (Bool-cases (leb (length target.used_paths) n)) [
          | inl few ↦ simp (meets, few) tt
          | inr enough ↦
              simp (meets, enough)
                (length-remove target (pos_part (get_peer_conflict_paths interfaces path target)) n
                  enough)
        ]
      ]
