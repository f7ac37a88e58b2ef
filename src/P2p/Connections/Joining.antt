-- ===== src/P2p/Connections/Joining.antt =====
-- p2p/p2p.go: which clients join a running download.
use mathlib.Core.Path.{subst}
use bittorrent_over_scion.Common.{
  ℕ, ◌≡◌, refl, sym, ap, ◌∙◌, List, [], ◌∷◌, ◌++◌, append_assoc, append-nil, true, false, not, ◌||◌,
  if◌then◌else◌, bytes_equal, or_false, or_assoc, bytes_equal→eq, Bool-cases, inl, inr, All,
  All-append, ok, halt, panic, and_then,
}
use bittorrent_over_scion.Common.Ids.{has_id, IsDistinct, has_id-append, IsDistinct-snoc}
use bittorrent_over_scion.Client.{Client}
use bittorrent_over_scion.P2p.Connections.{
  Connected, copy_of, append_copy, id_of, join_one, join_new,
}

-- All connections but that of the dial.
abbrev pub but_last {ℓ} : {A : Type ℓ} → List A → List A
but_last [] = []
but_last (v ∷ []) = []
but_last (v ∷ w ∷ vs) = v ∷ but_last (w ∷ vs)

-- A client for the same peer and torrent, with the same bitfield, that is not choked and has no
-- DHT node.
pub record IsCopy {C Addr : Type 0} (first : Client Addr) (joined : Connected C Addr) : Type 0 where
  pub unchoked : joined.client.choked ≡ false
  pub same_bitfield : joined.client.bitfield ≡ first.bitfield
  pub same_peer : joined.client.peer ≡ first.peer
  pub same_hash : joined.client.info_hash ≡ first.info_hash
  pub same_id : joined.client.peer_id ≡ first.peer_id
  pub same_config : joined.client.discovery_config ≡ first.discovery_config
  pub no_node : joined.client.has_dht_node ≡ false

copy_of-IsCopy : {C Addr : Type 0} (first : Client Addr) (v : C) → IsCopy first (copy_of first v)
copy_of-IsCopy first v = record {
  unchoked = refl;
  same_bitfield = refl;
  same_peer = refl;
  same_hash = refl;
  same_id = refl;
  same_config = refl;
  no_node = refl;
}

module _ {C Addr : Type 0} (id : C → List ℕ) where
  -- The clients that joined are copies of the first one, and every id that had a client or was
  -- reported has just one.
  pub record IsJoined (first : Connected C Addr) (clients : List (Connected C Addr))
      (conns : List C) (joined : List (Connected C Addr)) : Type 0 where
    pub news : List (Connected C Addr)
    pub ends : joined ≡ first ∷ (clients ++ news)
    pub copies : All (IsCopy first.client) news
    pub once : IsDistinct (id_of id) joined
    pub all_ids :
        (x : List ℕ)
        → has_id (id_of id) joined x
          ≡ (has_id (id_of id) (first ∷ clients) x || has_id id (but_last conns) x)

  has_id-old :
      (clients : List (Connected C Addr)) (v : C) (x : List ℕ)
      → has_id (id_of id) clients (id v) ≡ true
      → has_id (id_of id) clients x ≡ (has_id (id_of id) clients x || has_id id (v ∷ []) x)
  unfolding has_id
  has_id-old clients v x old = elim (Bool-cases (bytes_equal (id v) x)) [
    | inl same ↦
        let known = sym (ap (has_id (id_of id) clients) (bytes_equal→eq (id v) x same)) ∙ old in
        known ∙ sym (rw known refl)
    | inr other ↦ rw other (or_false (has_id (id_of id) clients x))
  ]

  join_one-old :
      (first : Connected C Addr) (clients : List (Connected C Addr)) (v : C)
      → has_id (id_of id) (first ∷ clients) (id v) ≡ true
      → join_one id (first ∷ clients) v ≡ ok (first ∷ clients)
  unfolding join_one
  join_one-old first clients v old =
      ap (λ b. if not b then append_copy (first ∷ clients) v else ok (first ∷ clients)) old

  join_one-new :
      (first : Connected C Addr) (clients : List (Connected C Addr)) (v : C)
      → has_id (id_of id) (first ∷ clients) (id v) ≡ false
      → join_one id (first ∷ clients) v ≡ ok (first ∷ (clients ++ (copy_of first.client v ∷ [])))
  unfolding join_one append_copy
  join_one-new first clients v new =
      ap (λ b. if not b then append_copy (first ∷ clients) v else ok (first ∷ clients)) new

  has_copy :
      (f : Client Addr) (v : C) (x : List ℕ)
      → has_id (id_of id) (copy_of f v ∷ []) x ≡ has_id id (v ∷ []) x
  unfolding has_id
  has_copy f v x = refl

  -- One round of the loop.
  join_one-IsJoined :
      (first : Connected C Addr) (clients : List (Connected C Addr)) (v w : C)
      → IsDistinct (id_of id) (first ∷ clients)
      → (joined : List (Connected C Addr)) × (join_one id (first ∷ clients) v ≡ ok joined)
        × IsJoined first clients (v ∷ w ∷ []) joined
  join_one-IsJoined first clients v w h =
      elim (Bool-cases (has_id (id_of id) (first ∷ clients) (id v))) [
        | inl old ↦ (
          first ∷ clients,
          join_one-old first clients v old,
          record {
            news = [];
            ends = ap (first ∷◌) (sym (append-nil clients));
            copies = tt;
            once = h;
            all_ids = λ x. has_id-old (first ∷ clients) v x old;
          },
        )
        | inr new ↦ (
          first ∷ (clients ++ (copy_of first.client v ∷ [])),
          join_one-new first clients v new,
          record {
            news = copy_of first.client v ∷ [];
            ends = refl;
            copies = (copy_of-IsCopy first.client v, tt);
            once = IsDistinct-snoc (id_of id) (first ∷ clients) (copy_of first.client v) new h;
            all_ids = λ x.
                has_id-append (id_of id) (first ∷ clients) (copy_of first.client v ∷ []) x
                ∙ ap (has_id (id_of id) (first ∷ clients) x ||◌) (has_copy first.client v x);
          },
        )
      ]

  none-IsJoined :
      (first : Connected C Addr) (clients : List (Connected C Addr)) (conns : List C)
      → IsDistinct (id_of id) (first ∷ clients)
      → but_last conns ≡ []
      → IsJoined first clients conns (first ∷ clients)
  unfolding has_id
  none-IsJoined first clients conns h none_else = record {
    news = [];
    ends = ap (first ∷◌) (sym (append-nil clients));
    copies = tt;
    once = h;
    all_ids = λ x.
        or_false (has_id (id_of id) (first ∷ clients) x)
        ∙ ap (λ vs. has_id (id_of id) (first ∷ clients) x || has_id id vs x) (sym none_else);
  }

  -- A worker with a client at least, no two of them for one id of a connection: whatever
  -- connections its socket reports, the old clients stay, the new ones are copies of the first one,
  -- not choked, and every id that had a client or was reported, but for that of the last
  -- connection, has just one client.
  pub join_new-IsJoined :
      (first : Connected C Addr) (clients : List (Connected C Addr)) (conns : List C)
      → IsDistinct (id_of id) (first ∷ clients)
      → (joined : List (Connected C Addr)) × (join_new id (first ∷ clients) conns ≡ ok joined)
        × IsJoined first clients conns joined
  unfolding join_new
  join_new-IsJoined first clients [] h =
      (first ∷ clients, refl, none-IsJoined first clients _ h refl)
  join_new-IsJoined first clients (v ∷ []) h =
      (first ∷ clients, refl, none-IsJoined first clients _ h refl)
  join_new-IsJoined first clients (v ∷ w ∷ conns) h =
      let (mid, e, one) = join_one-IsJoined first clients v w h in
      let mid_once = subst (IsDistinct (id_of id)) one.ends one.once in
      let (joined, e', rest) = join_new-IsJoined first (clients ++ one.news) (w ∷ conns) mid_once in
      (
        joined,
        ap (λ r. and_then r (λ l. join_new id l (w ∷ conns))) e
            ∙ ap (λ l. join_new id l (w ∷ conns)) one.ends
            ∙ e',
        record {
          news = one.news ++ rest.news;
          ends = rest.ends ∙ ap (first ∷◌) (append_assoc clients one.news rest.news);
          copies = All-append _ one.news rest.news one.copies rest.copies;
          once = rest.once;
          all_ids = λ x.
              rest.all_ids x
              ∙ ap (λ l. has_id (id_of id) l x || has_id id (but_last (w ∷ conns)) x) (sym one.ends)
              ∙ ap (◌|| has_id id (but_last (w ∷ conns)) x) (one.all_ids x)
              ∙ or_assoc (has_id (id_of id) (first ∷ clients) x) (has_id id (v ∷ []) x)
                  (has_id id (but_last (w ∷ conns)) x)
              ∙ ap (has_id (id_of id) (first ∷ clients) x ||◌)
                  (sym (has_id-append id (v ∷ []) (but_last (w ∷ conns)) x));
        },
      )

  -- With no client there is nothing to copy.
  pub join_new_panics :
      (v w : C) (conns : List C) → join_new {Addr = Addr} id [] (v ∷ w ∷ conns) ≡ halt panic
  unfolding join_new join_one append_copy has_id
  join_new_panics v w conns = refl
