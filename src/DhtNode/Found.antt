-- ===== src/DhtNode/Found.antt =====
-- dht_node/dht_node.go: the peers that announcements find, and which of them are passed on.
use bittorrent_over_scion.Common.{
  ℕ, ◌+◌, ◌≡◌, refl, ap, List, [], ◌∷◌, ◌++◌, Bool, ◌&&◌, not, if◌then◌else◌, pos, eqb_ℤ, Option,
  none, some, arith, Bool-cases, inl, inr,
}
use bittorrent_over_scion.DhtNode.{PeerCalls}

module _ {DhtPeer : Type 0} where
  -- All peers that the announcements found.
  abbrev pub found_in : List (List DhtPeer) → List DhtPeer
  found_in [] = []
  found_in (v ∷ vs) = v ++ found_in vs

  abbrev pub stream_of : Option (List (List DhtPeer)) → List DhtPeer
  stream_of none = []
  stream_of (some vs) = found_in vs

  abbrev pub found_by : List (Option (List (List DhtPeer))) → List DhtPeer
  found_by [] = []
  found_by (r ∷ rs) = stream_of r ++ found_by rs

module _ {DhtPeer Addr : Type 0} (calls : PeerCalls DhtPeer Addr) where
  -- A peer with a port, and on another host or in another AS than the node.
  abbrev pub is_other : Addr → DhtPeer → Bool
  is_other here cp =
      not (eqb_ℤ (calls.port cp) (pos 0)) && not (calls.ip_equal cp here && calls.ia_equal cp here)

  abbrev pub others : Addr → List DhtPeer → List DhtPeer
  others here [] = []
  others here (cp ∷ cps) =
      let rest = others here cps in if is_other here cp then cp ∷ rest else rest

  pub others-append :
      (here : Addr) (xs ys : List DhtPeer)
      → others here (xs ++ ys) ≡ others here xs ++ others here ys
  others-append here [] ys = refl
  others-append here (x ∷ xs) ys = elim (Bool-cases (is_other here x)) [
    | inl e ↦ rw e (ap (x ∷◌) (others-append here xs ys))
    | inr e ↦ rw e (others-append here xs ys)
  ]

  abbrev pub blocked_of : Addr → List DhtPeer → ℕ
  blocked_of here [] = 0
  blocked_of here (cp ∷ cps) =
      let rest = blocked_of here cps in if is_other here cp then rest else rest + 1

  pub blocked_of-append :
      (here : Addr) (xs ys : List DhtPeer)
      → blocked_of here (xs ++ ys) ≡ blocked_of here xs + blocked_of here ys
  blocked_of-append here [] ys = omega arith
  blocked_of-append here (x ∷ xs) ys = elim (Bool-cases (is_other here x)) [
    | inl e ↦ rw e (blocked_of-append here xs ys)
    | inr e ↦ rw e (omega (arith, blocked_of-append here xs ys))
  ]
