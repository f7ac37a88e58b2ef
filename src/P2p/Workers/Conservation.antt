-- ===== src/P2p/Workers/Conservation.antt =====
-- p2p/p2p.go: no step of the workers loses a piece or makes one up.
use bittorrent_over_scion.Common.{
  ℕ, ◌+◌, ◌≡◌, refl, sym, ap, ◌∙◌, List, [], ◌∷◌, ◌++◌, some, ℤ, arith,
}
use bittorrent_over_scion.Common.Stream.{Conn}
use bittorrent_over_scion.Client.{Client}
use bittorrent_over_scion.P2p.{PieceWork, PieceResult}
use bittorrent_over_scion.P2p.Integrity.{
  Round, put_back, gave_up, delivered, died, work_round-index,
}
use bittorrent_over_scion.P2p.Workers.{
  Job, idle, working, returning, leaving, offering, ended, Channels, Worker, Downloading,
  after_round, Act, takes, works, returns, leaves, offers, finishes, Step, acts, joins, retries,
  closes, Reach, here, next,
}

-- The sum of the weights of a list's items.
abbrev pub weigh {ℓ} : {A : Type ℓ} → (A → ℕ) → List A → ℕ
weigh f [] = 0
weigh f (x ∷ xs) = f x + weigh f xs

pub weigh-append {ℓ} :
    {A : Type ℓ} (f : A → ℕ) (xs ys : List A) → weigh f (xs ++ ys) ≡ weigh f xs + weigh f ys
weigh-append f [] ys = omega arith
weigh-append f (x ∷ xs) ys = omega (arith, weigh-append f xs ys)

module _ (f : ℤ → ℕ) where
  abbrev pub of_work : PieceWork → ℕ
  of_work pw = f pw.index

  abbrev pub of_result : PieceResult → ℕ
  of_result r = f r.index

  -- The piece that a worker has in its hands.
  abbrev pub of_job : Job → ℕ
  of_job idle = 0
  of_job (working pw) = of_work pw
  of_job (returning pw) = of_work pw
  of_job (leaving pw) = of_work pw
  of_job (offering r) = of_result r
  of_job ended = 0

  abbrev pub in_channels : Channels → ℕ
  in_channels h = weigh of_work h.queue + weigh of_result h.results

  module _ {Addr : Type 0} {c : Conn} where
    abbrev pub of_worker : Worker Addr c → ℕ
    of_worker w = of_job w.job

    -- Everything: what waits, what workers hold, and what Download has received.
    abbrev pub in_all : Downloading Addr c → ℕ
    in_all s = in_channels s.channels + weigh of_worker s.workers

    module _ (sha1 : List ℕ → List ℕ) (n : ℕ) where
      after-weight :
          (w : Worker Addr c) (pw : PieceWork) (a : Round Addr × c.State) (w' : Worker Addr c)
          → ((cl : Client Addr) (r : PieceResult) → a.0 ≡ delivered cl r → r.index ≡ pw.index)
          → after_round sha1 c w pw a ≡ some w'
          → of_worker w' ≡ of_work pw
      unfolding after_round
      after-weight w pw (put_back, s) w' same e =
          let same_worker : record w { conn = s; job = returning pw } ≡ w' = cc in
          sym (ap of_worker same_worker)
      after-weight w pw (gave_up, s) w' same e =
          let same_worker : record w { conn = s; job = leaving pw } ≡ w' = cc in
          sym (ap of_worker same_worker)
      after-weight w pw (delivered cl r, s) w' same e =
          let same_worker : record w { client = cl; conn = s; job = offering r } ≡ w' = cc in
          sym (ap of_worker same_worker) ∙ ap f (same cl r refl)
      after-weight w pw (died h, s) w' same e = cc

      Act-weight :
          {h h' : Channels} {w w' : Worker Addr c}
          → Act sha1 c n h w h' w'
          → in_channels h' + of_worker w' ≡ in_channels h + of_worker w
      Act-weight {h} (takes pw rest idle_now waits eh ew) =
          omega (
            arith,
            ap in_channels eh,
            ap of_worker ew,
            ap of_job idle_now,
            ap (weigh of_work) waits,
          )
      Act-weight {w} {w'} (works fuel pw busy round eh) = omega (
        arith,
        ap in_channels eh,
        ap of_job busy,
        after-weight w pw _ w'
            (λ cl r. work_round-index sha1 c w.checked fuel w.client pw w.conn cl r) round,
      )
      Act-weight {h} (returns pw has room eh ew) = omega (
        arith,
        ap in_channels eh,
        ap of_worker ew,
        ap of_job has,
        weigh-append of_work h.queue (pw ∷ []),
      )
      Act-weight {h} (leaves pw has room eh ew) = omega (
        arith,
        ap in_channels eh,
        ap of_worker ew,
        ap of_job has,
        weigh-append of_work h.queue (pw ∷ []),
      )
      Act-weight {h} (offers r has wanted eh ew) = omega (
        arith,
        ap in_channels eh,
        ap of_worker ew,
        ap of_job has,
        weigh-append of_result h.results (r ∷ []),
      )
      Act-weight (finishes idle_now none_waits shut eh ew) =
          omega (arith, ap in_channels eh, ap of_worker ew, ap of_job idle_now)

      Step-weight : {s t : Downloading Addr c} → Step sha1 c n s t → in_all t ≡ in_all s
      Step-weight (acts before after w w' es et act) = omega (
        arith,
        ap (weigh of_worker) es,
        ap (weigh of_worker) et,
        Act-weight act,
        weigh-append of_worker before (w ∷ after),
        weigh-append of_worker before (w' ∷ after),
      )
      Step-weight (joins w fresh et) = omega (arith, ap in_all et, ap of_job fresh)
      Step-weight (retries w pw rest has checks waits et) =
          omega (arith, ap in_all et, ap of_job has, ap (weigh of_work) waits)
      Step-weight (closes all et) = omega (arith, ap in_all et)

      -- No step of a download loses a piece or makes one up: for any weight of the piece numbers,
      -- what waits in the queue, what the workers hold and what Download has received weigh
      -- together what they did before.
      pub Reach-weight : {s t : Downloading Addr c} → Reach sha1 c n s t → in_all t ≡ in_all s
      Reach-weight here = refl
      Reach-weight (next r st) = Step-weight st ∙ Reach-weight r
