-- ===== src/PathSelection/Examples.antt =====
-- The theorems on path selection at concrete inputs. A path is the list of its interfaces.
use bittorrent_over_scion.Common.{ℕ, ◌≡◌, refl, List, [], ◌∷◌, true, false, All}
use bittorrent_over_scion.PathSelection.{
  Interface, PeerPathEntry, get, taken, scan, paths_conflict, get_conflict_free_paths,
  add_peer_entry, row_conflicts, rows_conflict, conflicts_any, keep_free, get_peer_conflict_paths,
  remove_path_from_entry,
}
use bittorrent_over_scion.PathSelection.FreePaths.{IsFree, Covers, get_conflict_free_paths-IsFree}
use bittorrent_over_scion.PathSelection.Store.{IsProper, add_peer_entry-IsProper}
use bittorrent_over_scion.PathSelection.Fairness.{Leaves, scan-Leaves}

abbrev Hops : Type 0
Hops = List Interface

abbrev same_hops : Hops → List Interface
same_hops p = p

abbrev hop : ℕ → Interface
hop n = record { ia = n; id = n }

-- Two paths that meet at an interface in the middle, and one that meets neither.
abbrev north : Hops
north = hop 1 ∷ hop 5 ∷ hop 9 ∷ []

abbrev south : Hops
south = hop 1 ∷ hop 4 ∷ hop 5 ∷ hop 9 ∷ []

abbrev west : Hops
west = hop 1 ∷ hop 7 ∷ hop 9 ∷ []

north_meets_south : paths_conflict same_hops north south ≡ true
unfolding paths_conflict rows_conflict row_conflicts
north_meets_south = refl

north_avoids_west : paths_conflict same_hops north west ≡ false
unfolding paths_conflict rows_conflict row_conflicts
north_avoids_west = refl

abbrev neighbour : PeerPathEntry Hops
neighbour = record {
  peer_addr = 1 ∷ [];
  available_paths = north ∷ west ∷ [];
  used_paths = north ∷ west ∷ [];
}

abbrev newcomer : PeerPathEntry Hops
newcomer = record { peer_addr = 2 ∷ []; available_paths = south ∷ west ∷ []; used_paths = [] }

neighbour-IsProper : IsProper same_hops neighbour
unfolding paths_conflict rows_conflict row_conflicts
neighbour-IsProper = record { listed = ((0, refl), ((1, refl), tt)); free = ((refl, tt), (tt, tt)) }

abbrev crowded : PeerPathEntry Hops
crowded = record {
  peer_addr = 3 ∷ [];
  available_paths = [];
  used_paths = north ∷ south ∷ west ∷ [];
}

crowded_paths : get_conflict_free_paths same_hops crowded ≡ north ∷ west ∷ []
unfolding get_conflict_free_paths keep_free conflicts_any paths_conflict rows_conflict row_conflicts
crowded_paths = refl

get_conflict_free_paths-IsFree_example :
    IsFree same_hops (get_conflict_free_paths same_hops crowded)
    × ((P : Hops → Type 0)
        → All P (north ∷ south ∷ west ∷ [])
        → All P (get_conflict_free_paths same_hops crowded))
    × All (Covers same_hops (get_conflict_free_paths same_hops crowded)) (north ∷ south ∷ west ∷ [])
get_conflict_free_paths-IsFree_example = get_conflict_free_paths-IsFree same_hops crowded

scan_takes :
    scan same_hops south 0 (neighbour ∷ [])
    ≡ taken (remove_path_from_entry neighbour 0) (remove_path_from_entry neighbour 0 ∷ [])
unfolding scan get_peer_conflict_paths paths_conflict rows_conflict row_conflicts
scan_takes = refl

scan-Leaves_example : Leaves same_hops 0 (scan same_hops south 0 (neighbour ∷ []))
scan-Leaves_example = scan-Leaves same_hops south 0 (neighbour ∷ [])

add_peer_entry-IsProper_example :
    All (IsProper same_hops) (add_peer_entry same_hops (λ less es. es) (neighbour ∷ []) newcomer)
    × ((get
          (add_peer_entry same_hops (λ less es. es) (neighbour ∷ []) newcomer)
          (2 ∷ [])).available_paths
        ≡ south ∷ west ∷ [])
add_peer_entry-IsProper_example =
    add_peer_entry-IsProper same_hops (λ less es. es) (λ less P es h. h) (neighbour ∷ []) newcomer
      refl (neighbour-IsProper, tt)
