-- ===== src/P2p/Workers/Room.antt =====
-- p2p/p2p.go: a send to workQueue never blocks and never meets a closed channel.
use mathlib.Core.Bool.{false≢true}
use bittorrent_over_scion.Common.{
  ℕ, ◌+◌, ◌≤◌, ◌≡◌, ◌⊎◌, inl, inr, refl, sym, ap, ◌∙◌, List, [], ◌∷◌, ◌++◌, true, length,
  length-append, ℤ, arith, Bool-cases,
}
use bittorrent_over_scion.Common.Stream.{Conn}
use bittorrent_over_scion.P2p.{Torrent, PieceWork, PieceResult, queue_from}
use bittorrent_over_scion.P2p.Workers.{
  returning, leaving, Channels, HasRoom, Worker, Downloading, Act, takes, works, returns, leaves,
  offers, finishes, Step, acts, joins, retries, closes, Reach, here, next, start,
}
use bittorrent_over_scion.P2p.Workers.Conservation.{
  weigh, weigh-append, of_work, of_result, of_job, of_worker, Reach-weight,
}

-- Download takes no more results than there are pieces, and closes the queue when it has them all.
pub record IsCollecting (n : ℕ) (h : Channels) : Type 0 where
  pub bounded : length h.results ≤ n
  pub complete : h.closed ≡ true → length h.results ≡ n

same-IsCollecting :
    {n : ℕ} {h h' : Channels}
    → h'.results ≡ h.results
    → h'.closed ≡ h.closed
    → IsCollecting n h
    → IsCollecting n h'
same-IsCollecting er ec i = record {
  bounded = omega (arith, ap length er, i.bounded);
  complete = λ e. ap length er ∙ i.complete (sym ec ∙ e);
}

module _ {Addr : Type 0} (sha1 : List ℕ → List ℕ) (c : Conn) (n : ℕ) where
  Act-IsCollecting :
      {h h' : Channels} {w w' : Worker Addr c}
      → Act sha1 c n h w h' w'
      → IsCollecting n h
      → IsCollecting n h'
  Act-IsCollecting (takes pw rest e q eh ew) i =
      same-IsCollecting (ap (λ x. x.results) eh) (ap (λ x. x.closed) eh) i
  Act-IsCollecting (works fuel pw e a eh) i =
      same-IsCollecting (ap (λ x. x.results) eh) (ap (λ x. x.closed) eh) i
  Act-IsCollecting (returns pw e room eh ew) i =
      same-IsCollecting (ap (λ x. x.results) eh) (ap (λ x. x.closed) eh) i
  Act-IsCollecting (leaves pw e room eh ew) i =
      same-IsCollecting (ap (λ x. x.results) eh) (ap (λ x. x.closed) eh) i
  Act-IsCollecting {h} (offers r e wanted eh ew) i = record {
    bounded = omega (arith, ap (λ x. length x.results) eh, length-append h.results (r ∷ []));
    complete =
        λ shut. absurd (omega (arith, wanted, i.complete (sym (ap (λ x. x.closed) eh) ∙ shut)));
  }
  Act-IsCollecting (finishes e q shut eh ew) i =
      same-IsCollecting (ap (λ x. x.results) eh) (ap (λ x. x.closed) eh) i

  Step-IsCollecting :
      {s t : Downloading Addr c}
      → Step sha1 c n s t
      → IsCollecting n s.channels
      → IsCollecting n t.channels
  Step-IsCollecting (acts before after w w' es et act) i = Act-IsCollecting act i
  Step-IsCollecting (joins w e et) i =
      same-IsCollecting (ap (λ x. x.channels.results) et) (ap (λ x. x.channels.closed) et) i
  Step-IsCollecting (retries w pw rest e checks q et) i =
      same-IsCollecting (ap (λ x. x.channels.results) et) (ap (λ x. x.channels.closed) et) i
  Step-IsCollecting (closes all et) i = record {
    bounded = omega (arith, ap (λ x. length x.channels.results) et, all);
    complete = λ shut. ap (λ x. length x.channels.results) et ∙ all;
  }

  pub Reach-IsCollecting :
      (t : Torrent) {s : Downloading Addr c}
      → Reach sha1 c n (start sha1 c t) s
      → IsCollecting n s.channels
  unfolding start
  Reach-IsCollecting t here = record {
    bounded = omega arith;
    complete = λ e. absurd (false≢true e);
  }
  Reach-IsCollecting t (next r st) = Step-IsCollecting st (Reach-IsCollecting t r)

abbrev pub one : ℤ → ℕ
one i = 1

pub weigh-one : (ws : List PieceWork) → weigh (of_work one) ws ≡ length ws
weigh-one [] = refl
weigh-one (w ∷ ws) = omega (arith, weigh-one ws)

pub weigh-one_result : (rs : List PieceResult) → weigh (of_result one) rs ≡ length rs
weigh-one_result [] = refl
weigh-one_result (r ∷ rs) = omega (arith, weigh-one_result rs)

pub length-queue_from :
    (t : Torrent) (i : ℕ) (hashes : List (List ℕ)) → length (queue_from t i hashes) ≡ length hashes
unfolding queue_from
length-queue_from t i [] = refl
length-queue_from t i (x ∷ hashes) = omega (arith, length-queue_from t (i + 1) hashes)

module _ {Addr : Type 0} (sha1 : List ℕ → List ℕ) (c : Conn) (t : Torrent) where
  -- Pieces in the queue, in the hands of workers and received are as many as the torrent has.
  pub Reach-count :
      {s : Downloading Addr c}
      → Reach sha1 c (length t.piece_hashes) (start sha1 c t) s
      → length s.channels.queue + weigh (of_worker one) s.workers + length s.channels.results
        ≡ length t.piece_hashes
  unfolding start
  Reach-count {s} r = omega (
    arith,
    Reach-weight one sha1 (length t.piece_hashes) r,
    weigh-one s.channels.queue,
    weigh-one_result s.channels.results,
    weigh-one (queue_from t 0 t.piece_hashes),
    length-queue_from t 0 t.piece_hashes,
  )

  -- In every state that a download reaches, whatever its workers, checked or not: while a worker is
  -- about to send a piece back to workQueue, the queue has room and is not closed, so that the send
  -- neither blocks nor panics.
  pub put_back-HasRoom :
      (s : Downloading Addr c) (before after : List (Worker Addr c)) (w : Worker Addr c)
      (pw : PieceWork)
      → Reach sha1 c (length t.piece_hashes) (start sha1 c t) s
      → s.workers ≡ before ++ (w ∷ after)
      → (w.job ≡ returning pw) ⊎ (w.job ≡ leaving pw)
      → HasRoom (length t.piece_hashes) s.channels
  put_back-HasRoom s before after w pw r es holds =
      let held : of_worker one w ≡ 1 = holding holds in
      let all = weigh-append (of_worker one) before (w ∷ after) in
      let n = Reach-count r in
      record {
        free = omega (arith, held, all, n, ap (weigh (of_worker one)) es);
        is_open = elim (Bool-cases s.channels.closed) [
          | inl shut ↦ absurd (
              omega (
                arith,
                held,
                all,
                n,
                ap (weigh (of_worker one)) es,
                (Reach-IsCollecting sha1 c _ t r).complete shut,
              ))
          | inr e ↦ e
        ];
      }
    where
      holding : (w.job ≡ returning pw) ⊎ (w.job ≡ leaving pw) → of_worker one w ≡ 1
      holding (inl e) = ap (of_job one) e
      holding (inr e) = ap (of_job one) e
