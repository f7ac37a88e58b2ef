-- ===== src/Peers/Members.antt =====
-- peers/peers.go: a PeerSet as a Go map has no order and holds each peer once. The lists of its keys
-- are therefore taken up to what they contain.
use mathlib.Core.Bool.{Bool-set}
use mathlib.Core.HLevel.{Π_prop}
use mathlib.Core.Quot
use mathlib.Core.Quot.{Quot, Quot-set}
use bittorrent_over_scion.Common.{◌≡◌, refl, Bool, true, false, ◌&&◌, ◌||◌, not}
use bittorrent_over_scion.Peers.{Peer, same_peer, PeerSet, contains, add, delete}
use bittorrent_over_scion.Peers.Sets.{contains-add, contains-delete}

abbrev pub SameMembers : PeerSet → PeerSet → Type 0
SameMembers ps qs = (p : Peer) → contains ps p ≡ contains qs p

abbrev pub Members : Type 0
Members = Quot SameMembers

pub add-SameMembers :
    (p : Peer) (ps qs : PeerSet) → SameMembers ps qs → SameMembers (add ps p) (add qs p)
add-SameMembers p ps qs h q = rw (contains-add ps p q, contains-add qs p q, h q) refl

pub delete-SameMembers :
    (p : Peer) (ps qs : PeerSet) → SameMembers ps qs → SameMembers (delete ps p) (delete qs p)
delete-SameMembers p ps qs h q = rw (contains-delete ps p q, contains-delete qs p q, h q) refl

unfoldable pub is_member : Peer → Members → Bool
is_member p = Quot.lift Bool-set (λ ps. contains ps p) (λ ps qs h. h p)

unfoldable pub insert : Peer → Members → Members
insert p =
    Quot.lift Quot-set (λ ps. Quot.mk (add ps p))
      (λ ps qs h. Quot.sound (add-SameMembers p ps qs h))

unfoldable pub remove : Peer → Members → Members
remove p =
    Quot.lift Quot-set (λ ps. Quot.mk (delete ps p))
      (λ ps qs h. Quot.sound (delete-SameMembers p ps qs h))

or_swap : (a b c : Bool) → (a || (b || c)) ≡ (b || (a || c))
or_swap true true c = refl
or_swap true false c = refl
or_swap false true c = refl
or_swap false false c = refl

or_again : (a c : Bool) → (a || (a || c)) ≡ (a || c)
or_again true c = refl
or_again false c = refl

or_without : (a c : Bool) → (not a && (a || c)) ≡ (not a && c)
or_without true c = refl
or_without false c = refl

without_or : (a c : Bool) → (a || (not a && c)) ≡ (a || c)
without_or true c = refl
without_or false c = refl

add_comm : (ps : PeerSet) (p q : Peer) → SameMembers (add (add ps q) p) (add (add ps p) q)
add_comm ps p q r =
    rw
      (
        contains-add (add ps q) p r,
        contains-add ps q r,
        contains-add (add ps p) q r,
        contains-add ps p r,
      )
      (or_swap (same_peer p r) (same_peer q r) (contains ps r))

add_idem : (ps : PeerSet) (p : Peer) → SameMembers (add (add ps p) p) (add ps p)
add_idem ps p r =
    rw (contains-add (add ps p) p r, contains-add ps p r) (or_again (same_peer p r) (contains ps r))

delete-add : (ps : PeerSet) (p : Peer) → SameMembers (delete (add ps p) p) (delete ps p)
delete-add ps p r =
    rw (contains-delete (add ps p) p r, contains-delete ps p r, contains-add ps p r)
      (or_without (same_peer p r) (contains ps r))

add-delete : (ps : PeerSet) (p : Peer) → SameMembers (add (delete ps p) p) (add ps p)
add-delete ps p r =
    rw (contains-add (delete ps p) p r, contains-add ps p r, contains-delete ps p r)
      (without_or (same_peer p r) (contains ps r))

-- Sets with the same members are equal.
pub members_ext : (s t : Members) → ((p : Peer) → is_member p s ≡ is_member p t) → s ≡ t
unfolding is_member
members_ext =
    Quot.ind (λ s. Π_prop (λ t. Π_prop (λ h. Quot-set _ _)))
      (λ ps. Quot.ind (λ t. Π_prop (λ h. Quot-set _ _)) (λ qs h. Quot.sound h))

is_member-insert :
    (p q : Peer) (s : Members) → is_member q (insert p s) ≡ (same_peer p q || is_member q s)
unfolding is_member insert
is_member-insert p q = Quot.ind (λ s. Bool-set _ _) (λ ps. contains-add ps p q)

is_member-remove :
    (p q : Peer) (s : Members) → is_member q (remove p s) ≡ (not (same_peer p q) && is_member q s)
unfolding is_member remove
is_member-remove p q = Quot.ind (λ s. Bool-set _ _) (λ ps. contains-delete ps p q)

insert_comm : (p q : Peer) (s : Members) → insert p (insert q s) ≡ insert q (insert p s)
unfolding insert
insert_comm p q = Quot.ind (λ s. Quot-set _ _) (λ ps. Quot.sound (add_comm ps p q))

insert_idem : (p : Peer) (s : Members) → insert p (insert p s) ≡ insert p s
unfolding insert
insert_idem p = Quot.ind (λ s. Quot-set _ _) (λ ps. Quot.sound (add_idem ps p))

remove-insert : (p : Peer) (s : Members) → remove p (insert p s) ≡ remove p s
unfolding insert remove
remove-insert p = Quot.ind (λ s. Quot-set _ _) (λ ps. Quot.sound (delete-add ps p))

insert-remove : (p : Peer) (s : Members) → insert p (remove p s) ≡ insert p s
unfolding insert remove
insert-remove p = Quot.ind (λ s. Quot-set _ _) (λ ps. Quot.sound (add-delete ps p))

-- The type of peer sets, in which two lists of a map's keys are equal when they contain the same
-- peers, has the methods: Add and Delete are functions on it, a peer is in the set after Add(p)
-- exactly if it was or is p, and after Delete(p) exactly if it was and is not p; two Adds commute;
-- and a method for p after a method for p leaves what the later one alone would.
pub members_laws :
    (s : Members) (p q : Peer)
    → (is_member q (insert p s) ≡ (same_peer p q || is_member q s))
      × (is_member q (remove p s) ≡ (not (same_peer p q) && is_member q s))
      × (insert p (insert q s) ≡ insert q (insert p s))
      × (insert p (insert p s) ≡ insert p s)
      × (remove p (insert p s) ≡ remove p s)
      × (insert p (remove p s) ≡ insert p s)
members_laws s p q = (
  is_member-insert p q s,
  is_member-remove p q s,
  insert_comm p q s,
  insert_idem p s,
  remove-insert p s,
  insert-remove p s,
)
