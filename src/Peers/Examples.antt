-- ===== src/Peers/Examples.antt =====
-- Tests of the sets of peers, and their theorems at concrete inputs.
use bittorrent_over_scion.Common.{ℕ, ◌≡◌, refl, List, [], ◌∷◌, pos, replicate, err, malformed_peers}
use bittorrent_over_scion.Peers.{Peer, contains, add, new_peer_set, unmarshal}
use mathlib.Core.Quot
use bittorrent_over_scion.Common.{not, ◌&&◌, ◌||◌}
use bittorrent_over_scion.Peers.{same_peer}
use bittorrent_over_scion.Peers.Members.{Members, is_member, insert, remove, members_laws}
use bittorrent_over_scion.Peers.Sets.{IsSimple}

abbrev first : Peer
first = record { addr = 49 ∷ 57 ∷ []; index = pos 0 }

abbrev second : Peer
second = record { addr = 49 ∷ 57 ∷ []; index = pos 1 }

-- The second Add of a peer changes nothing.
add_twice : add (add new_peer_set first) first ≡ first ∷ []
unfolding add contains new_peer_set
add_twice = refl

unmarshal_odd : unmarshal (127 ∷ 0 ∷ 0 ∷ []) ≡ err malformed_peers
unfolding unmarshal
unmarshal_odd = refl

first-IsSimple : IsSimple (first ∷ [])
unfolding contains
first-IsSimple = (refl, tt)

abbrev two_records : List ℕ
two_records = replicate 12 1

abbrev both_members : Members
both_members = Quot.mk (first ∷ second ∷ [])

members_laws_example :
    (is_member second (insert first both_members)
      ≡ (same_peer first second || is_member second both_members))
    × (is_member second (remove first both_members)
        ≡ (not (same_peer first second) && is_member second both_members))
    × (insert first (insert second both_members) ≡ insert second (insert first both_members))
    × (insert first (insert first both_members) ≡ insert first both_members)
    × (remove first (insert first both_members) ≡ remove first both_members)
    × (insert first (remove first both_members) ≡ insert first both_members)
members_laws_example = members_laws both_members first second
