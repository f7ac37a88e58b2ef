-- ===== src/P2p/Discovery/Starting.antt =====
-- p2p/p2p.go and dht_node/dht_node.go: which workers the peers of the DHT start.
use mathlib.Core.Bool.{false≢true}
use bittorrent_over_scion.Common.{
  ◌≡◌, refl, sym, ap, ◌∙◌, List, [], ◌∷◌, ◌++◌, Bool, true, false, ◌&&◌, ◌||◌, not, Option,
  Bool-cases, inl, inr, pos,
}
use bittorrent_over_scion.Peers.{Peer, PeerSet, contains, add, same_peer}
use bittorrent_over_scion.Peers.Sets.{IsSimple, contains-add, same_peer→eq, same_peer_refl}
use bittorrent_over_scion.DhtNode.{DhtNode, PeerCalls, announce_loop}
use bittorrent_over_scion.DhtNode.Found.{others, found_by}
use bittorrent_over_scion.DhtNode.Announcements.{IsBounded, tell, announce_loop_lem}
use bittorrent_over_scion.P2p.Discovery.{Discovered, on_new_peer}

contains-snoc :
    (ps : List Peer) (p q : Peer) → contains (ps ++ (p ∷ [])) q ≡ (same_peer p q || contains ps q)
unfolding contains
contains-snoc [] p q = elim (Bool-cases (same_peer p q)) [ inl e ↦ rw e | inr e ↦ rw e ]
contains-snoc (x ∷ ps) p q = elim (Bool-cases (same_peer x q)) [
  | inl e ↦ rw e (sym (or_true (same_peer p q)))
  | inr e ↦ rw e (contains-snoc ps p q)
]
  where
    or_true : (b : Bool) → (b || true) ≡ true
    or_true true = refl
    or_true false = refl

same_peer-sym : (p q : Peer) → same_peer p q ≡ false → same_peer q p ≡ false
same_peer-sym p q h = elim (Bool-cases (same_peer q p)) [
  | inl e ↦ absurd (false≢true (sym h ∙ ap (same_peer p) (same_peer→eq q p e) ∙ same_peer_refl p))
  | inr e ↦ e
]

IsSimple-snoc :
    (ps : List Peer) (p : Peer) → contains ps p ≡ false → IsSimple ps → IsSimple (ps ++ (p ∷ []))
unfolding contains
IsSimple-snoc [] p new h = (refl, tt)
IsSimple-snoc (x ∷ ps) p new (now, h) = elim (Bool-cases (same_peer x p)) [
  | inl e ↦ absurd (false≢true (sym new ∙ rw e))
  | inr e ↦
      let behind : contains ps p ≡ false = sym (rw e) ∙ new in
      (contains-snoc ps p x ∙ rw (same_peer-sym x p e) now, IsSimple-snoc ps p behind h)
]

contains-same : (ps : List Peer) (p q : Peer) → same_peer p q ≡ true → contains ps p ≡ contains ps q
contains-same ps p q e = ap (contains ps) (same_peer→eq p q e)

-- The workers are those of the peers that the set has now and had not, each once.
record IsStarted (known : PeerSet) (t : Discovered) : Type 0 where
  once : IsSimple t.started
  exactly : (q : Peer) → contains t.started q ≡ (contains t.peer_set q && not (contains known q))
  kept : (q : Peer) → contains t.peer_set q ≡ false → contains known q ≡ false

on_new_peer-IsStarted :
    (known : PeerSet) (t : Discovered) (p : Peer)
    → IsStarted known t
    → IsStarted known (on_new_peer p t)
unfolding on_new_peer
on_new_peer-IsStarted known t p h = elim (Bool-cases (contains t.peer_set p)) [
  | inl old ↦ rw old (record {
    once = h.once;
    exactly = λ q. h.exactly q ∙ ap (λ b. b && not (contains known q)) (sym (stays q old));
    kept = kept;
  })
  | inr new ↦ rw new (record {
    once = IsSimple-snoc t.started p (h.exactly p ∙ rw new refl) h.once;
    exactly =
        λ q. contains-snoc t.started p q ∙ ap (same_peer p q ||◌) (h.exactly q) ∙ joined q new;
    kept = kept;
  })
]
  where
    stays :
        (q : Peer)
        → contains t.peer_set p ≡ true
        → contains (add t.peer_set p) q ≡ contains t.peer_set q
    stays q old = contains-add t.peer_set p q ∙ elim (Bool-cases (same_peer p q)) [
      | inl e ↦ rw e (sym (sym (contains-same t.peer_set p q e) ∙ old))
      | inr e ↦ rw e
    ]

    kept : (q : Peer) → contains (add t.peer_set p) q ≡ false → contains known q ≡ false
    kept q gone =
        h.kept q
          (right (same_peer p q) (contains t.peer_set q) (sym (contains-add t.peer_set p q) ∙ gone))
      where
        right : (a b : Bool) → (a || b) ≡ false → b ≡ false
        right false b e = e
        right true b e = absurd (false≢true (sym e))

    joined :
        (q : Peer)
        → contains t.peer_set p ≡ false
        → (same_peer p q || contains t.peer_set q && not (contains known q))
          ≡ (contains (add t.peer_set p) q && not (contains known q))
    joined q new = rw (contains-add t.peer_set p q) (elim (Bool-cases (same_peer p q)) [
      | inl e ↦ rw (e, sym (contains-same known p q e) ∙ h.kept p new)
      | inr e ↦ rw e
    ])

nothing-IsStarted : (known : PeerSet) → IsStarted known (record { peer_set = known; started = [] })
unfolding contains
nothing-IsStarted known = record {
  once = tt;
  exactly = λ q. no_one (contains known q);
  kept = λ q gone. gone;
}
  where
    no_one : (b : Bool) → false ≡ (b && not b)
    no_one true = refl
    no_one false = refl

module _ {DhtPeer Addr : Type 0} (calls : PeerCalls DhtPeer Addr) where
  -- A peer of the DHT, as a peer: the text of its address, and the index 0.
  abbrev pub found_peer : DhtPeer → Peer
  found_peer cp = record { addr = calls.to_text cp; index = pos 0 }

  -- Whether one of the peers of the DHT is `q`.
  abbrev pub has_found : List DhtPeer → Peer → Bool
  has_found [] q = false
  has_found (cp ∷ cps) q = same_peer (found_peer cp) q || has_found cps q

  tell-peer_set :
      (t : Discovered) (cps : List DhtPeer) (q : Peer)
      → contains (tell calls on_new_peer t cps).peer_set q
        ≡ (has_found cps q || contains t.peer_set q)
  unfolding on_new_peer
  tell-peer_set t [] q = refl
  tell-peer_set t (cp ∷ cps) q =
      tell-peer_set (on_new_peer (found_peer cp) t) cps q
      ∙ ap (has_found cps q ||◌) (contains-add t.peer_set (found_peer cp) q)
      ∙ turned (has_found cps q) (same_peer (found_peer cp) q) (contains t.peer_set q)
    where
      turned : (a b c : Bool) → (a || (b || c)) ≡ ((b || a) || c)
      turned false false c = refl
      turned false true c = refl
      turned true false c = refl
      turned true true c = refl

  tell-IsStarted :
      (known : PeerSet) (t : Discovered) (cps : List DhtPeer)
      → IsStarted known t
      → IsStarted known (tell calls on_new_peer t cps)
  tell-IsStarted known t [] h = h
  tell-IsStarted known t (cp ∷ cps) h =
      tell-IsStarted known (on_new_peer (found_peer cp) t) cps (on_new_peer-IsStarted known t _ h)

  -- Whatever streams of peers the announcements of the leecher's DHT node open, failed ones
  -- included, each read to its end before the next announcement: EnableDht starts a worker for
  -- exactly the found peers that have a port, are not on the node's own host and were not in the
  -- peer set before, and just one for each.
  pub announce_loop-starts :
      (d : DhtNode Addr) (known : PeerSet) (rs : List (Option (List (List DhtPeer))))
      → IsBounded d.stats
      → let t =
          (announce_loop calls on_new_peer d (record { peer_set = known; started = [] }) rs).1 in
        IsSimple t.started
        × ((q : Peer)
            → contains t.started q
              ≡ (has_found (others calls d.node_addr (found_by rs)) q && not (contains known q)))
  announce_loop-starts d known rs b =
      rw (announce_loop_lem calls on_new_peer d (record { peer_set = known; started = [] }) rs b)
        (starts (others calls d.node_addr (found_by rs)))
    where
      unknown : (a b : Bool) → ((a || b) && not b) ≡ (a && not b)
      unknown true true = refl
      unknown true false = refl
      unknown false true = refl
      unknown false false = refl

      starts :
          (found : List DhtPeer)
          → IsSimple
              (tell calls on_new_peer (record { peer_set = known; started = [] }) found).started
            × ((q : Peer)
                → contains
                    (tell calls on_new_peer
                      (record { peer_set = known; started = [] })
                      found).started
                    q
                  ≡ (has_found found q && not (contains known q)))
      starts found =
          let none_yet : Discovered = record { peer_set = known; started = [] } in
          let h = tell-IsStarted known none_yet found (nothing-IsStarted known) in
          (
            h.once,
            λ q.
                h.exactly q
                ∙ ap (λ x. x && not (contains known q)) (tell-peer_set none_yet found q)
                ∙ unknown (has_found found q) (contains known q),
          )
