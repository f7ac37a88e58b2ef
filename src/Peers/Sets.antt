-- ===== src/Peers/Sets.antt =====
-- peers/peers.go: PeerSet as a set of peers.
use bittorrent_over_scion.Common.{
  ℕ, ◌*◌, ◌/◌, ◌%◌, ◌≡◌, ◌≢◌, ◌⊎◌, ◌==◌, ==_iff, refl, sym, ◌∙◌, ap, replicate, malformed_peers,
  List, [], ◌∷◌, true, false, ◌&&◌, ◌||◌, not, length, bytes_equal→eq, bytes_equal_refl, eqb_ℤ_iff,
  arith, Bool-cases, inl, inr, ok, err, length-replicate,
}
use mathlib.Core.Bool.{false≢true}
use bittorrent_over_scion.Peers.{
  Peer, zero_peer, same_peer, PeerSet, contains, add, delete, unmarshal,
}

pub same_peer→eq : (p q : Peer) → same_peer p q ≡ true → p ≡ q
same_peer→eq p q h = λ i. record { addr = same_addr i; index = same_index i }
  where
    same_addr : p.addr ≡ q.addr
    same_addr = bytes_equal→eq p.addr q.addr (ground arith)

    same_index : p.index ≡ q.index
    same_index = (eqb_ℤ_iff p.index q.index).0 (ground arith)

pub same_peer_refl : (p : Peer) → same_peer p p ≡ true
same_peer_refl p = rw (bytes_equal_refl p.addr, (eqb_ℤ_iff p.index p.index).1 refl)

contains_of_same :
    (ps : PeerSet) (p q : Peer) → same_peer p q ≡ true → contains ps p ≡ contains ps q
contains_of_same ps p q h = ap (contains ps) (same_peer→eq p q h)

-- After Add(p) the set contains q exactly when it did before or q is p.
pub contains-add :
    (ps : PeerSet) (p q : Peer) → contains (add ps p) q ≡ (same_peer p q || contains ps q)
unfolding add contains
contains-add ps p q = elim (Bool-cases (contains ps p)) [
  | inl old ↦ rw old (elim (Bool-cases (same_peer p q)) [
    | inl same ↦ rw (same, ← contains_of_same ps p q same) old
    | inr other ↦ rw other
  ])
  | inr new ↦ rw new (elim (Bool-cases (same_peer p q)) [ inl e ↦ rw e | inr e ↦ rw e ])
]

same_peer_trans : (p q r : Peer) → same_peer p q ≡ true → same_peer p r ≡ same_peer q r
same_peer_trans p q r h = ap (λ x. same_peer x r) (same_peer→eq p q h)

-- After Delete(p) the set contains q exactly when it did before and q is not p.
pub contains-delete :
    (ps : PeerSet) (p q : Peer) → contains (delete ps p) q ≡ (not (same_peer p q) && contains ps q)
unfolding delete contains
contains-delete [] p q = elim (Bool-cases (same_peer p q)) [ inl e ↦ rw e | inr e ↦ rw e ]
contains-delete (x ∷ ps) p q = elim (Bool-cases (same_peer x p)) [
  | inl gone ↦
      rw (gone, contains-delete ps p q, same_peer_trans x p q gone)
        (elim (Bool-cases (same_peer p q)) [ inl e ↦ rw e | inr e ↦ rw e ])
  | inr stays ↦ rw stays (elim (Bool-cases (same_peer x q)) [
    | inl same ↦ rw (same, not_same x p q same stays)
    | inr other ↦ rw other (contains-delete ps p q)
  ])
]
  where
    not_same : (a b c : Peer) → same_peer a c ≡ true → same_peer a b ≡ false → same_peer b c ≡ false
    not_same a b c h k = elim (Bool-cases (same_peer b c)) [
      | inl e ↦
          absurd
            (false≢true (sym k ∙ rw (same_peer→eq a c h, same_peer→eq b c e) (same_peer_refl c)))
      | inr e ↦ e
    ]

-- No peer stands in the set twice.
abbrev pub IsSimple : PeerSet → Type 0
IsSimple [] = Unit {0}
IsSimple (p ∷ ps) = (contains ps p ≡ false) × IsSimple ps

-- Add keeps a set in which no peer stands twice one in which no peer stands twice.
pub add-IsSimple : (ps : PeerSet) (p : Peer) → IsSimple ps → IsSimple (add ps p)
unfolding add
add-IsSimple ps p h = elim (Bool-cases (contains ps p)) [ inl e ↦ rw e h | inr e ↦ rw e (e, h) ]

-- Unmarshal refuses a length that is no multiple of 6, and of any other returns one peer for each 6
-- bytes.
pub unmarshal_cases :
    (bin : List ℕ)
    → ((ps : List Peer) × (unmarshal bin ≡ ok ps) × (6 * length ps ≡ length bin))
      ⊎ ((unmarshal bin ≡ err malformed_peers) × (length bin % 6 ≢ 0))
unfolding unmarshal
unmarshal_cases bin = elim (Bool-cases (length bin % 6 == 0)) [
  | inl e ↦ inl (
    replicate (length bin / 6) zero_peer,
    rw e,
    rw length-replicate (omega (arith, (==_iff _ _).0 e)),
  )
  | inr e ↦ inr (rw e, λ z. ground arith)
]
