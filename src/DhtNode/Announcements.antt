-- ===== src/DhtNode/Announcements.antt =====
-- dht_node/dht_node.go: what a node passes on of the peers that its announcements find.
use mathlib.Core.Path.{ap₂}
use bittorrent_over_scion.Common.{
  ℕ, ◌+◌, ◌%◌, ◌^◌, ◌<◌, ◌≡◌, refl, sym, ap, ◌∙◌, List, [], ◌∷◌, ◌++◌, length, ◌&&◌, pos, eqb_ℤ,
  Option, none, some, arith, Bool-cases, inl, inr, length-append,
}
use bittorrent_over_scion.Peers.{Peer}
use bittorrent_over_scion.DhtNode.Found.{
  others, others-append, blocked_of, blocked_of-append, found_in, stream_of, found_by,
}
use bittorrent_over_scion.DhtNode.{
  DhtStats, DhtNode, PeerCalls, add_uint32, convert_peer, consume_peer, consume_values,
  consume_peers, announce_and_get_peers, announce_loop,
}

-- Counters of 32 bits.
pub record IsBounded (s : DhtStats) : Type 0 where
  pub blocked : s.blocked_peers < 2 ^ 32
  pub received : s.received_peers_while_traversing < 2 ^ 32
  pub started : s.announces_started < 2 ^ 32

module _ {DhtPeer Addr : Type 0} (calls : PeerCalls DhtPeer Addr) where
  -- The node after `n` announcements that have found `cps`.
  abbrev pub after : DhtNode Addr → ℕ → List DhtPeer → DhtNode Addr
  after d n cps = record d {
    stats = record d.stats {
      blocked_peers = (d.stats.blocked_peers + blocked_of calls d.node_addr cps) % 2 ^ 32;
      received_peers_while_traversing =
          (d.stats.received_peers_while_traversing + length cps) % 2 ^ 32;
      announces_started = (d.stats.announces_started + n) % 2 ^ 32;
    };
  }

  wrap_once : (a b c : ℕ) → ((a + b) % 2 ^ 32 + c) % 2 ^ 32 ≡ (a + (b + c)) % 2 ^ 32
  wrap_once a b c = omega arith

  wrap_none : (a : ℕ) → a < 2 ^ 32 → (a + 0) % 2 ^ 32 ≡ a
  wrap_none a lt = omega arith

  -- A node with other counters.
  abbrev counting : DhtNode Addr → ℕ → ℕ → ℕ → DhtNode Addr
  counting d b r a = record d {
    stats = record d.stats {
      blocked_peers = b;
      received_peers_while_traversing = r;
      announces_started = a;
    };
  }

  counting-same :
      (d : DhtNode Addr) {b r a b' r' a' : ℕ}
      → b ≡ b'
      → r ≡ r'
      → a ≡ a'
      → counting d b r a ≡ counting d b' r' a'
  counting-same d p q r = λ i. counting d (p i) (q i) (r i)

  after-nothing : (d : DhtNode Addr) → IsBounded d.stats → after d 0 [] ≡ d
  after-nothing d b =
      counting-same d (wrap_none _ b.blocked) (wrap_none _ b.received) (wrap_none _ b.started)

  -- What an announcement counts at its start.
  started_once :
      (d : DhtNode Addr)
      → IsBounded d.stats
      → record d {
        stats = record d.stats { announces_started = add_uint32 d.stats.announces_started };
      }
        ≡ after d 1 []
  unfolding add_uint32
  started_once d b =
      counting-same d (sym (wrap_none _ b.blocked)) (sym (wrap_none _ b.received)) refl

  after-after :
      (d : DhtNode Addr) (n m : ℕ) (xs ys : List DhtPeer)
      → after (after d n xs) m ys ≡ after d (n + m) (xs ++ ys)
  after-after d n m xs ys =
      counting-same d
        (wrap_once _ _ _
          ∙ ap (λ k. (d.stats.blocked_peers + k) % 2 ^ 32)
              (sym (blocked_of-append calls d.node_addr xs ys)))
        (wrap_once _ _ _
          ∙ ap (λ k. (d.stats.received_peers_while_traversing + k) % 2 ^ 32)
              (sym (length-append xs ys)))
        (wrap_once _ _ _)

  after-IsBounded :
      (d : DhtNode Addr) (n : ℕ) (cps : List DhtPeer) → IsBounded (after d n cps).stats
  after-IsBounded d n cps = record {
    blocked = omega arith;
    received = omega arith;
    started = omega arith;
  }

  module _ {S : Type 0} (on_new_peer_received : Peer → S → S) where
    -- The callback is called with the text of each peer's address, and the index 0.
    abbrev pub tell : S → List DhtPeer → S
    tell s [] = s
    tell s (cp ∷ cps) =
        tell (on_new_peer_received (record { addr = calls.to_text cp; index = pos 0 }) s) cps

    tell-append : (s : S) (xs ys : List DhtPeer) → tell s (xs ++ ys) ≡ tell (tell s xs) ys
    tell-append s [] ys = refl
    tell-append s (x ∷ xs) ys =
        tell-append (on_new_peer_received (record { addr = calls.to_text x; index = pos 0 }) s) xs
          ys

    -- The node and the other side after `n` announcements that have found `cps`.
    abbrev pub outcome : DhtNode Addr → S → ℕ → List DhtPeer → DhtNode Addr × S
    outcome d s n cps = (after d n cps, tell s (others calls d.node_addr cps))

    outcome-outcome :
        (d : DhtNode Addr) (s : S) (n m : ℕ) (xs ys : List DhtPeer)
        → outcome (outcome d s n xs).0 (outcome d s n xs).1 m ys ≡ outcome d s (n + m) (xs ++ ys)
    outcome-outcome d s n m xs ys =
        ap₂ (λ x y. (x, y)) (after-after d n m xs ys)
          (sym (tell-append s (others calls d.node_addr xs) (others calls d.node_addr ys))
            ∙ ap (tell s) (sym (others-append calls d.node_addr xs ys)))

    consume_peer_lem :
        (d : DhtNode Addr) (s : S) (cp : DhtPeer)
        → IsBounded d.stats
        → consume_peer calls on_new_peer_received d s cp ≡ outcome d s 0 (cp ∷ [])
    unfolding consume_peer add_uint32 convert_peer
    consume_peer_lem d s cp b =
        let same_started = sym (wrap_none d.stats.announces_started b.started) in
        elim (Bool-cases (eqb_ℤ (calls.port cp) (pos 0))) [
          | inl zero_port ↦ rw zero_port (ap (λ x. (x, s)) (counting-same d refl refl same_started))
          | inr some_port ↦
              rw some_port
                (elim (Bool-cases
                  (calls.ip_equal cp d.node_addr && calls.ia_equal cp d.node_addr)) [
                    | inl self ↦ rw self (ap (λ x. (x, s)) (counting-same d refl refl same_started))
                    | inr other ↦ rw other (
                        ap (λ x. (x, on_new_peer_received (convert_peer calls cp) s))
                          (counting-same d (sym (wrap_none _ b.blocked)) refl same_started))
                  ])
        ]

    consume_values_lem :
        (d : DhtNode Addr) (s : S) (cps : List DhtPeer)
        → IsBounded d.stats
        → consume_values calls on_new_peer_received d s cps ≡ outcome d s 0 cps
    unfolding consume_values
    consume_values_lem d s [] b = ap (λ x. (x, s)) (sym (after-nothing d b))
    consume_values_lem d s (cp ∷ cps) b =
        ap (λ next. consume_values calls on_new_peer_received next.0 next.1 cps)
          (consume_peer_lem d s cp b)
        ∙ consume_values_lem (after d 0 (cp ∷ [])) (tell s (others calls d.node_addr (cp ∷ []))) cps
            (after-IsBounded d 0 (cp ∷ []))
        ∙ outcome-outcome d s 0 0 (cp ∷ []) cps

    consume_peers_lem :
        (d : DhtNode Addr) (s : S) (vs : List (List DhtPeer))
        → IsBounded d.stats
        → consume_peers calls on_new_peer_received d s vs ≡ outcome d s 0 (found_in vs)
    unfolding consume_peers
    consume_peers_lem d s [] b = ap (λ x. (x, s)) (sym (after-nothing d b))
    consume_peers_lem d s (v ∷ vs) b =
        ap (λ next. consume_peers calls on_new_peer_received next.0 next.1 vs)
          (consume_values_lem d s v b)
        ∙ consume_peers_lem (after d 0 v) (tell s (others calls d.node_addr v)) vs
            (after-IsBounded d 0 v)
        ∙ outcome-outcome d s 0 0 v (found_in vs)

    announce_lem :
        (d : DhtNode Addr) (s : S) (r : Option (List (List DhtPeer)))
        → IsBounded d.stats
        → announce_and_get_peers calls on_new_peer_received d s r ≡ outcome d s 1 (stream_of r)
    unfolding announce_and_get_peers add_uint32
    announce_lem d s none b = ap (λ x. (x, s)) (started_once d b)
    announce_lem d s (some vs) b =
        ap (λ x. consume_peers calls on_new_peer_received x s vs) (started_once d b)
        ∙ consume_peers_lem (after d 1 []) s vs (after-IsBounded d 1 [])
        ∙ outcome-outcome d s 1 0 [] (found_in vs)

    -- For any callback and any announcements, failed ones included, the stream of each read to its
    -- end before the next: the node's loop tells the callback the found peers that have a port and
    -- are not on the node's own host, in their order, and its counters are, modulo 2^32, the
    -- announcements, the peers found and the peers left out. The counters had 32 bits before.
    pub announce_loop_lem :
        (d : DhtNode Addr) (s : S) (rs : List (Option (List (List DhtPeer))))
        → IsBounded d.stats
        → announce_loop calls on_new_peer_received d s rs
          ≡ (after d (length rs) (found_by rs), tell s (others calls d.node_addr (found_by rs)))
    unfolding announce_loop
    announce_loop_lem d s [] b = ap (λ x. (x, s)) (sym (after-nothing d b))
    announce_loop_lem d s (r ∷ rs) b =
        ap (λ next. announce_loop calls on_new_peer_received next.0 next.1 rs)
          (announce_lem d s r b)
        ∙ announce_loop_lem (after d 1 (stream_of r))
            (tell s (others calls d.node_addr (stream_of r))) rs (after-IsBounded d 1 (stream_of r))
        ∙ outcome-outcome d s 1 (length rs) (stream_of r) (found_by rs)
        ∙ ap (λ n. outcome d s n (stream_of r ++ found_by rs)) (omega arith)
