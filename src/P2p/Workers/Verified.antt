-- ===== src/P2p/Workers/Verified.antt =====
-- p2p/p2p.go: what Download receives from workers that check the hash.
use mathlib.Core.Path.{subst}
use bittorrent_over_scion.Common.{
  ℕ, ◌≡◌, refl, sym, ap, ◌∙◌, List, [], ◌∷◌, ◌++◌, some, All, All-append,
}
use bittorrent_over_scion.Common.Stream.{Conn}
use bittorrent_over_scion.Client.{Client}
use bittorrent_over_scion.P2p.{PieceWork, PieceResult}
use bittorrent_over_scion.P2p.Integrity.{
  Round, put_back, gave_up, delivered, died, work_round, work_round-verified,
}
use bittorrent_over_scion.P2p.Workers.{
  IsChecked, Job, idle, working, returning, leaving, offering, ended, Channels, Worker, Downloading,
  after_round, Act, takes, works, returns, leaves, offers, finishes, Step, acts, joins, retries,
  closes, Reach, here, next,
}

pub All-split {ℓ κ} :
    {A : Type ℓ} (P : A → Type κ) (xs : List A) (y : A) (ys : List A)
    → All P (xs ++ (y ∷ ys))
    → All P xs × P y × All P ys
All-split P [] y ys (h, k) = (tt, h, k)
All-split P (x ∷ xs) y ys (h, k) = let (a, b, d) = All-split P xs y ys k in ((h, a), b, d)

module _ (sha1 : List ℕ → List ℕ) (P : PieceWork → Type 0) where
  -- A result for a known work, with its hash.
  pub record IsRight (r : PieceResult) : Type 0 where
    pub work : PieceWork
    pub known : P work
    pub same_index : r.index ≡ work.index
    pub same_hash : sha1 r.buf ≡ work.hash

  abbrev pub InHands : Job → Type 0
  InHands idle = Unit {0}
  InHands (working pw) = P pw
  InHands (returning pw) = P pw
  InHands (leaving pw) = P pw
  InHands (offering r) = IsRight r
  InHands ended = Unit {0}

  pub record HoldsRight (h : Channels) : Type 0 where
    pub waiting : All P h.queue
    pub received : All IsRight h.results

  module _ {Addr : Type 0} (c : Conn) where
    abbrev pub IsSound : Worker Addr c → Type 0
    IsSound w = InHands w.job

    after-IsSound :
        (w : Worker Addr c) (pw : PieceWork) (a : Round Addr × c.State) (w' : Worker Addr c)
        → P pw
        → ((cl : Client Addr) (r : PieceResult) → a.0 ≡ delivered cl r → IsRight r)
        → after_round sha1 c w pw a ≡ some w'
        → IsSound w' × (w'.checked ≡ w.checked)
    unfolding after_round
    after-IsSound w pw (put_back, s) w' p right e =
        let same : record w { conn = s; job = returning pw } ≡ w' = cc in
        subst (λ x. IsSound x × (x.checked ≡ w.checked)) same (p, refl)
    after-IsSound w pw (gave_up, s) w' p right e =
        let same : record w { conn = s; job = leaving pw } ≡ w' = cc in
        subst (λ x. IsSound x × (x.checked ≡ w.checked)) same (p, refl)
    after-IsSound w pw (delivered cl r, s) w' p right e =
        let same : record w { client = cl; conn = s; job = offering r } ≡ w' = cc in
        subst (λ x. IsSound x × (x.checked ≡ w.checked)) same (right cl r refl, refl)
    after-IsSound w pw (died h, s) w' p right e = cc

    after-checked :
        (w : Worker Addr c) (pw : PieceWork) (a : Round Addr × c.State) (w' : Worker Addr c)
        → after_round sha1 c w pw a ≡ some w'
        → w'.checked ≡ w.checked
    unfolding after_round
    after-checked w pw (put_back, s) w' e =
        let same : record w { conn = s; job = returning pw } ≡ w' = cc in
        sym (ap (λ x. x.checked) same)
    after-checked w pw (gave_up, s) w' e =
        let same : record w { conn = s; job = leaving pw } ≡ w' = cc in
        sym (ap (λ x. x.checked) same)
    after-checked w pw (delivered cl r, s) w' e =
        let same : record w { client = cl; conn = s; job = offering r } ≡ w' = cc in
        sym (ap (λ x. x.checked) same)
    after-checked w pw (died h, s) w' e = cc

    module _ (n : ℕ) where
      Act-checked :
          {h h' : Channels} {w w' : Worker Addr c} → Act sha1 c n h w h' w' → w'.checked ≡ w.checked
      Act-checked (takes pw rest e q eh ew) = ap (λ x. x.checked) ew
      Act-checked {w} {w'} (works fuel pw e a eh) = after-checked w pw _ w' a
      Act-checked (returns pw e room eh ew) = ap (λ x. x.checked) ew
      Act-checked (leaves pw e room eh ew) = ap (λ x. x.checked) ew
      Act-checked (offers r e wanted eh ew) = ap (λ x. x.checked) ew
      Act-checked (finishes e q shut eh ew) = ap (λ x. x.checked) ew

      Act-Sound :
          {h h' : Channels} {w w' : Worker Addr c}
          → Act sha1 c n h w h' w'
          → IsChecked w
          → HoldsRight h
          → IsSound w
          → HoldsRight h' × IsSound w'
      Act-Sound {h} {w} (takes pw rest e q eh ew) k r s =
          let (p, ps) = subst (All P) q r.waiting in
          (
            subst HoldsRight (sym eh) (record { waiting = ps; received = r.received }),
            subst IsSound (sym ew) p,
          )
      Act-Sound {w} {w'} (works fuel pw e a eh) k r s =
          let p : P pw = subst InHands e s in
          let right : (cl : Client Addr) (x : PieceResult)
              → (work_round sha1 c w.checked fuel w.client pw w.conn).0 ≡ delivered cl x
              → IsRight x =
            λ cl x d.
              let (has, hash, index) =
                work_round-verified sha1 c fuel w.client pw w.conn cl x (rw k at d) in
              record { work = pw; known = p; same_index = index; same_hash = hash } in
          (subst HoldsRight (sym eh) r, (after-IsSound w pw _ w' p right a).0)
      Act-Sound {h} (returns pw e room eh ew) k r s = (
        subst HoldsRight (sym eh) (record {
          waiting = All-append P h.queue (pw ∷ []) r.waiting (subst InHands e s, tt);
          received = r.received;
        }),
        subst IsSound (sym ew) tt,
      )
      Act-Sound {h} (leaves pw e room eh ew) k r s = (
        subst HoldsRight (sym eh) (record {
          waiting = All-append P h.queue (pw ∷ []) r.waiting (subst InHands e s, tt);
          received = r.received;
        }),
        subst IsSound (sym ew) tt,
      )
      Act-Sound {h} (offers x e wanted eh ew) k r s = (
        subst HoldsRight (sym eh) (record {
          waiting = r.waiting;
          received = All-append IsRight h.results (x ∷ []) r.received (subst InHands e s, tt);
        }),
        subst IsSound (sym ew) tt,
      )
      Act-Sound (finishes e q shut eh ew) k r s =
          (subst HoldsRight (sym eh) r, subst IsSound (sym ew) tt)

      -- Workers that check stay workers that check, and none goes.
      Step-IsChecked :
          {s t : Downloading Addr c}
          → Step sha1 c n s t
          → All IsChecked t.workers
          → All IsChecked s.workers
      Step-IsChecked (acts before after w w' es et act) k =
          let (a, b, d) = All-split IsChecked before w' after (subst (All IsChecked) et k) in
          subst (All IsChecked) (sym es)
            (All-append IsChecked before (w ∷ after) a (sym (Act-checked act) ∙ b, d))
      Step-IsChecked {s} (joins w e et) k = (subst (λ x. All IsChecked x.workers) et k).1
      Step-IsChecked {s} (retries w pw rest e checks q et) k =
          (subst (λ x. All IsChecked x.workers) et k).1
      Step-IsChecked (closes all et) k = subst (λ x. All IsChecked x.workers) et k

      pub record IsVerified (s : Downloading Addr c) : Type 0 where
        pub channels : HoldsRight s.channels
        pub workers : All IsSound s.workers

      Step-IsVerified :
          {s t : Downloading Addr c}
          → Step sha1 c n s t
          → All IsChecked t.workers
          → IsVerified s
          → IsVerified t
      Step-IsVerified (acts before after w w' es et act) k v =
          let (ka, kb, kd) = All-split IsChecked before w' after (subst (All IsChecked) et k) in
          let (a, b, d) = All-split IsSound before w after (subst (All IsSound) es v.workers) in
          let (h, b') = Act-Sound act (sym (Act-checked act) ∙ kb) v.channels b in
          record {
            channels = h;
            workers =
                subst (All IsSound) (sym et) (All-append IsSound before (w' ∷ after) a (b', d));
          }
      Step-IsVerified (joins w e et) k v =
          subst IsVerified (sym et)
            (record { channels = v.channels; workers = (subst InHands (sym e) tt, v.workers) })
      Step-IsVerified (retries w pw rest e checks q et) k v =
          let (p, ps) = subst (All P) q v.channels.waiting in
          subst IsVerified (sym et) (record {
            channels = record { waiting = ps; received = v.channels.received };
            workers = (subst InHands (sym e) p, v.workers);
          })
      Step-IsVerified (closes all et) k v = subst IsVerified (sym et) (record {
        channels = record { waiting = v.channels.waiting; received = v.channels.received };
        workers = v.workers;
      })

      pub Reach-IsVerified :
          {s t : Downloading Addr c}
          → Reach sha1 c n s t
          → IsVerified s
          → All IsChecked t.workers
          → IsVerified t
      Reach-IsVerified here v k = v
      Reach-IsVerified (next r st) v k =
          Step-IsVerified st k (Reach-IsVerified r v (Step-IsChecked st k))
