-- ===== src/Server/Leechers/Agreement.antt =====
-- server/server.go: the selections of the leechers and the path store agree.
use mathlib.Core.Bool.{false≢true}
use mathlib.Core.Path.{subst}
use bittorrent_over_scion.Common.{
  ℕ, ◌≡◌, refl, sym, ap, ◌∙◌, List, [], ◌∷◌, map, Bool, false, bytes_equal, bytes_equal→eq,
  bytes_equal_refl, Bool-cases, inl, inr, All, All-append,
}
use bittorrent_over_scion.PathSelection.{
  Interface, PeerPathEntry, PathSelectionStore, Sort, get, new_path_selection_store,
}
use bittorrent_over_scion.PathSelection.FreePaths.{IsFree}
use bittorrent_over_scion.PathSelection.Store.{IsProper, zero-IsProper, add_peer_entry-IsProper}
use bittorrent_over_scion.Server.Leechers.{
  ExtPeer, Leechers, no_leechers, use_paths, delete_entry, without_peer, forget_leecher,
  update_disjoint_pathselection, Event, connects, leaves, handle_event, handle_events,
}

module _ {Route : Type 0} (interfaces : Route → List Interface) where
  -- Every selection has the paths that the store has for the leecher, and the store is proper.
  pub record IsAgreed (s : Leechers Route) : Type 0 where
    pub proper : All (IsProper interfaces) s.path_store
    pub agreed : All (λ v. v.selection.used_paths ≡ (get s.path_store v.id).used_paths) s.ext_peers

  get-delete_entry :
      (store : PathSelectionStore Route) (id other : List ℕ)
      → bytes_equal other id ≡ false
      → get (delete_entry store id) other ≡ get store other
  unfolding get delete_entry
  get-delete_entry [] id other ne = refl
  get-delete_entry (e ∷ store) id other ne = elim (Bool-cases (bytes_equal e.peer_addr id)) [
    | inl gone ↦
        let same_id : e.peer_addr ≡ id = bytes_equal→eq _ _ gone in
        let on : bytes_equal e.peer_addr other ≡ false =
          elim (Bool-cases (bytes_equal e.peer_addr other)) [
            | inr on ↦ on
            | inl here ↦
                let same : other ≡ id = sym (bytes_equal→eq _ _ here) ∙ same_id in
                absurd (false≢true (sym ne ∙ ap (λ l. bytes_equal l id) same ∙ bytes_equal_refl id))
          ] in
        simp (gone, on) (get-delete_entry store id other ne)
    | inr kept ↦ simp kept (elim (Bool-cases (bytes_equal e.peer_addr other)) [
      | inl here ↦ rw here
      | inr on ↦ rw on (get-delete_entry store id other ne)
    ])
  ]

  delete_entry-IsProper :
      (store : PathSelectionStore Route) (id : List ℕ)
      → All (IsProper interfaces) store
      → All (IsProper interfaces) (delete_entry store id)
  unfolding delete_entry
  delete_entry-IsProper [] id h = tt
  delete_entry-IsProper (e ∷ store) id (now, h) = elim (Bool-cases (bytes_equal e.peer_addr id)) [
    | inl gone ↦ simp gone (delete_entry-IsProper store id h)
    | inr kept ↦ simp kept (now, delete_entry-IsProper store id h)
  ]

  without_peer-agreed :
      (store : PathSelectionStore Route) (peers : List (ExtPeer Route)) (remote : List ℕ)
      → All (λ v. v.selection.used_paths ≡ (get store v.id).used_paths) peers
      → All
          (λ v. v.selection.used_paths ≡ (get (delete_entry store remote) v.id).used_paths)
          (without_peer peers remote)
  unfolding without_peer
  without_peer-agreed store [] remote h = tt
  without_peer-agreed store (p ∷ peers) remote (now, h) =
      elim (Bool-cases (bytes_equal p.id remote)) [
        | inl gone ↦ simp gone (without_peer-agreed store peers remote h)
        | inr kept ↦ simp kept (
          now ∙ sym (ap (λ e. e.used_paths) (get-delete_entry store remote p.id kept)),
          without_peer-agreed store peers remote h,
        )
      ]

  use_paths-agreed :
      (store : PathSelectionStore Route) (peers : List (ExtPeer Route))
      → All
          (λ v. v.selection.used_paths ≡ (get store v.id).used_paths)
          (map (use_paths store) peers)
  use_paths-agreed store [] = tt
  use_paths-agreed store (p ∷ peers) = (refl, use_paths-agreed store peers)

  get-IsProper :
      (store : PathSelectionStore Route) (id : List ℕ)
      → All (IsProper interfaces) store
      → IsProper interfaces (get store id)
  unfolding get
  get-IsProper [] id h = zero-IsProper interfaces
  get-IsProper (e ∷ store) id (now, h) = elim (Bool-cases (bytes_equal e.peer_addr id)) [
    | inl here ↦ simp here now
    | inr on ↦ simp on (get-IsProper store id h)
  ]

  module _ (sort_slice : Sort interfaces)
      (sorted : (less : PeerPathEntry Route → PeerPathEntry Route → Bool)
          (P : PeerPathEntry Route → Type 0) (es : List (PeerPathEntry Route))
        → All P es
        → All P (sort_slice less es)) where
    handle_event-IsAgreed :
        (s : Leechers Route) (e : Event Route)
        → IsAgreed s
        → IsAgreed (handle_event interfaces sort_slice s e)
    unfolding handle_event update_disjoint_pathselection forget_leecher
    handle_event-IsAgreed s (connects remote num_paths paths) h = record {
      proper =
          (add_peer_entry-IsProper interfaces sort_slice sorted s.path_store
            (record { peer_addr = remote; available_paths = paths; used_paths = [] }) refl
            h.proper).0;
      agreed = All-append _ _ _ (use_paths-agreed _ s.ext_peers) (refl, tt);
    }
    handle_event-IsAgreed s (leaves remote) h = record {
      proper = delete_entry-IsProper s.path_store remote h.proper;
      agreed = without_peer-agreed s.path_store s.ext_peers remote h.agreed;
    }

    handle_events-IsAgreed :
        (es : List (Event Route)) (s : Leechers Route)
        → IsAgreed s
        → IsAgreed (handle_events interfaces sort_slice s es)
    unfolding handle_events
    handle_events-IsAgreed [] s h = h
    handle_events-IsAgreed (e ∷ es) s h = handle_events-IsAgreed es _ (handle_event-IsAgreed s e h)

    -- After any leechers have connected to a new server and left it, in any order, the paths of
    -- each leecher's selection are those that the store has for the leecher, and no two of them
    -- conflict. The sort puts out no entry that it was not given.
    pub leechers-IsFree :
        (es : List (Event Route))
        → let s = handle_events interfaces sort_slice no_leechers es in
          All
            (λ v.
              (v.selection.used_paths ≡ (get s.path_store v.id).used_paths)
              × IsFree interfaces v.selection.used_paths)
            s.ext_peers
    unfolding no_leechers new_path_selection_store
    leechers-IsFree es =
        let h = handle_events-IsAgreed es no_leechers (record { proper = tt; agreed = tt }) in
        let s = handle_events interfaces sort_slice no_leechers es in
        free s.path_store s.ext_peers h.proper h.agreed
      where
        free :
            (store : PathSelectionStore Route) (peers : List (ExtPeer Route))
            → All (IsProper interfaces) store
            → All (λ v. v.selection.used_paths ≡ (get store v.id).used_paths) peers
            → All
                (λ v.
                  (v.selection.used_paths ≡ (get store v.id).used_paths)
                  × IsFree interfaces v.selection.used_paths)
                peers
        free store [] h k = tt
        free store (p ∷ peers) h (now, k) = (
          (now, subst (IsFree interfaces) (sym now) (get-IsProper store p.id h).free),
          free store peers h k,
        )
