-- ===== src/Server/Connections/Tracking.antt =====
-- server/server.go: what a change of the connections starts.
use mathlib.Core.Path.{subst}
use bittorrent_over_scion.Common.{
  ℕ, ◌≡◌, refl, sym, ap, ◌∙◌, List, [], ◌∷◌, ◌++◌, append_assoc, append-nil, Bool, true, false, not,
  ◌||◌, if◌then◌else◌, bytes_equal, or_false, bytes_equal→eq, Bool-cases, inl, inr,
}
use bittorrent_over_scion.Common.Ids.{
  has_id, keep_if, IsDistinct, has_id-append, IsDistinct-snoc, keep_if-IsDistinct,
}
use bittorrent_over_scion.Server.Connections.{
  Connections, Change, open_conn, open_new, shut_closed, on_connections_change,
}

module _ {C : Type 0} (id : C → List ℕ) where
  -- After `conns` were reported: the new ones are started and open, and every id that was open or
  -- reported is open, once.
  pub record IsOpened (s : Connections C) (conns : List C) (s' : Connections C) : Type 0 where
    pub news : List C
    pub opened : s'.conns ≡ s.conns ++ news
    pub begun : s'.started ≡ s.started ++ news
    pub shut_same : s'.shut ≡ s.shut
    pub once : IsDistinct id s'.conns
    pub all_ids : (x : List ℕ) → has_id id s'.conns x ≡ (has_id id s.conns x || has_id id conns x)

  -- One round of the loop.
  open_new-old :
      (s : Connections C) (conn : C) (conns : List C)
      → has_id id s.conns (id conn) ≡ true
      → open_new id s (conn ∷ conns) ≡ open_new id s conns
  unfolding open_new
  open_new-old s conn conns old =
      ap (λ b. open_new id (if not b then open_conn id s conn else s) conns) old

  open_new-new :
      (s : Connections C) (conn : C) (conns : List C)
      → has_id id s.conns (id conn) ≡ false
      → open_new id s (conn ∷ conns) ≡ open_new id (open_conn id s conn) conns
  unfolding open_new
  open_new-new s conn conns new =
      ap (λ b. open_new id (if not b then open_conn id s conn else s) conns) new

  open_new-ids :
      (s : Connections C) (conns : List C) (x : List ℕ)
      → has_id id (open_new id s conns).conns x ≡ (has_id id s.conns x || has_id id conns x)
  unfolding open_new has_id
  open_new-ids s [] x = or_false (has_id id s.conns x)
  open_new-ids s (conn ∷ conns) x = elim (Bool-cases (has_id id s.conns (id conn))) [
    | inl old ↦
        ap (λ t. has_id id t.conns x) (open_new-old s conn conns old)
        ∙ open_new-ids s conns x
        ∙ elim (Bool-cases (bytes_equal (id conn) x)) [
          | inl same ↦
              rw (same, sym (ap (has_id id s.conns) (bytes_equal→eq (id conn) x same)) ∙ old) refl
          | inr other ↦ rw other refl
        ]
    | inr new ↦
        ap (λ t. has_id id t.conns x) (open_new-new s conn conns new)
        ∙ open_new-ids (open_conn id s conn) conns x
        ∙ ap (◌|| has_id id conns x) (has_id-append id s.conns (conn ∷ []) x)
        ∙ turned (has_id id s.conns x) (bytes_equal (id conn) x) (has_id id conns x)
  ]
    where
      turned :
          (a b c : Bool)
          → ((a || (if b then true else false)) || c) ≡ (a || (if b then true else c))
      turned true b c = refl
      turned false true c = refl
      turned false false c = refl

  pub open_new-IsOpened :
      (s : Connections C) (conns : List C)
      → IsDistinct id s.conns
      → IsOpened s conns (open_new id s conns)
  unfolding open_new
  open_new-IsOpened s [] h = record {
    news = [];
    opened = sym (append-nil s.conns);
    begun = sym (append-nil s.started);
    shut_same = refl;
    once = h;
    all_ids = open_new-ids s [];
  }
  open_new-IsOpened s (conn ∷ conns) h = elim (Bool-cases (has_id id s.conns (id conn))) [
    | inl old ↦
        let later = open_new-IsOpened s conns h in
        let step = open_new-old s conn conns old in
        record {
          news = later.news;
          opened = ap (λ t. t.conns) step ∙ later.opened;
          begun = ap (λ t. t.started) step ∙ later.begun;
          shut_same = ap (λ t. t.shut) step ∙ later.shut_same;
          once = subst (λ t. IsDistinct id t.conns) (sym step) later.once;
          all_ids = open_new-ids s (conn ∷ conns);
        }
    | inr new ↦
        let later =
          open_new-IsOpened (open_conn id s conn) conns (IsDistinct-snoc id s.conns conn new h) in
        let step = open_new-new s conn conns new in
        record {
          news = conn ∷ later.news;
          opened =
              ap (λ t. t.conns) step ∙ later.opened ∙ append_assoc s.conns (conn ∷ []) later.news;
          begun =
              ap (λ t. t.started) step
              ∙ later.begun
              ∙ append_assoc s.started (conn ∷ []) later.news;
          shut_same = ap (λ t. t.shut) step ∙ later.shut_same;
          once = subst (λ t. IsDistinct id t.conns) (sym step) later.once;
          all_ids = open_new-ids s (conn ∷ conns);
        }
  ]

  -- After a change: those that are closed are shut and open no more, new ones are started and open,
  -- and every id that is still open or was reported is open, once.
  pub record IsChanged (s : Connections C) (change : Change C) (s' : Connections C) : Type 0 where
    pub news : List C
    pub opened : s'.conns ≡ keep_if (λ v. not (change.closed v)) s.conns ++ news
    pub begun : s'.started ≡ s.started ++ news
    pub shut : s'.shut ≡ s.shut ++ keep_if change.closed s.conns
    pub once : IsDistinct id s'.conns
    pub all_ids :
        (x : List ℕ)
        → has_id id s'.conns x
          ≡ (has_id id (keep_if (λ v. not (change.closed v)) s.conns) x || has_id id change.conns x)

  -- Where no two open connections have one id: after a change the open connections are those that
  -- were open and are not reported as closed, followed by new ones; those that are reported as
  -- closed were shut; exactly the new ones were started; and every id that is open or was reported
  -- is open just once.
  pub on_connections_change-IsChanged :
      (s : Connections C) (change : Change C)
      → IsDistinct id s.conns
      → IsChanged s change (on_connections_change id s change)
  unfolding on_connections_change shut_closed
  on_connections_change-IsChanged s change h =
      let later =
        open_new-IsOpened (shut_closed id s change.closed) change.conns
          (keep_if-IsDistinct id (λ v. not (change.closed v)) s.conns h) in
      record {
        news = later.news;
        opened = later.opened;
        begun = later.begun;
        shut = later.shut_same;
        once = later.once;
        all_ids = later.all_ids;
      }
