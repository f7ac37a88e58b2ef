-- ===== src/P2p/Exchange/Receiving.antt =====
-- p2p/p2p.go: one round of the outer loop of attemptDownloadPiece: requests, then a block.
use mathlib.Core.Path.{subst}
use bittorrent_over_scion.Common.{
  ℕ, suc, ◌+◌, ◌<◌, ◌≤◌, ◌≡◌, ◌^◌, refl, sym, ap, ◌∙◌, List, ◌∷◌, ◌++◌, false, length,
  length-append, split_at, pos, Result, ok, arith,
}
use bittorrent_over_scion.Common.Stream.{Conn, View, IsStream, Runs, Runs-bind, Runs-ext, Runs-cast}
use bittorrent_over_scion.Message.Wire.{frame}
use bittorrent_over_scion.Message.Blocks.{piece_message}
use bittorrent_over_scion.P2p.{Progress, request_if_unchoked, download_loop}
use bittorrent_over_scion.P2p.Pipeline.{sum, asks}
use bittorrent_over_scion.P2p.Parcels.{loop_goes_on, read_block, Extends}
use bittorrent_over_scion.P2p.Exchange.{IsPlan, IsPlan-sum}
use bittorrent_over_scion.P2p.Exchange.Sending.{after_asking, send_requests-Asked}
use bittorrent_over_scion.P2p.Exchange.Turns.{
  sum-append, some_open, close_one, first_asked, rest_asked,
}

module _ {Addr : Type 0} (c : Conn) (v : View c.State) (stream : IsStream c v) (index : ℕ)
    (small : index < 2 ^ 32) where
  -- The piece so far, the sizes of the blocks that were asked for and are still to come, and those
  -- that are still to be asked for.
  pub record Awaits (len : ℕ) (p : Progress Addr) (done old : List ℕ) (asked later : List ℕ)
      : Type 0 where
    pub indexed : p.index ≡ pos index
    pub free : p.client.choked ≡ false
    pub filled : p.buf ≡ done ++ old
    pub counted : p.downloaded ≡ length done
    pub opened : p.backlog ≡ pos (length asked)
    pub requested : p.requested ≡ length done + sum asked
    pub plan : IsPlan len p.requested later
    pub owed : length old ≡ sum asked + sum later

  pub Awaits-len :
      (len : ℕ) (p : Progress Addr) (done old asked later : List ℕ)
      → Awaits len p done old asked later
      → length done + length old ≡ len
  Awaits-len len p done old asked later w =
      omega (arith, w.owed, w.requested, IsPlan-sum len p.requested later w.plan)

  -- The requests of a round. They leave a block to wait for.
  pub record Requested (len : ℕ) (p : Progress Addr) (asked later inp : List ℕ) : Type 0 where
    pub now : List ℕ
    pub onward : List ℕ
    pub split : later ≡ now ++ onward
    pub plan : IsPlan len (p.requested + sum now) onward
    pub waits : 1 ≤ length asked + length now
    pub runs :
        Runs v
          (request_if_unchoked c len p)
          inp
          (ok (after_asking p now))
          inp
          (asks (pos index) p.requested now)

  pub request_if_unchoked-Requested :
      (len : ℕ) (p : Progress Addr) (done old asked later inp : List ℕ)
      → Awaits len p done old asked later
      → p.downloaded < len
      → Requested len p asked later inp
  unfolding request_if_unchoked
  request_if_unchoked-Requested len p done old asked later inp w more =
      let a =
        send_requests-Asked c v stream (suc len) len p later inp w.plan
          (omega (arith, IsPlan-sum len p.requested later w.plan)) (omega arith) in
      record {
        now = a.now;
        onward = a.later;
        split = a.split;
        plan = a.onward;
        waits = some_open len p asked a.now w.opened (omega (arith, w.requested, w.counted)) a.full;
        runs =
            simp w.free (Runs-cast refl refl (ap (λ i. asks i p.requested a.now) w.indexed) a.runs);
      }

  -- One round: requests, then the next block.
  pub record Round (len k : ℕ) (p : Progress Addr) (done asked later b rest more : List ℕ)
      : Type 0 where
    pub request : Requested len p asked later (frame (piece_message index (length done) b) ++ rest)
    pub after : Progress Addr
    pub old : List ℕ
    pub open_still : List ℕ
    pub answered : asked ++ request.now ≡ length b ∷ open_still
    pub sent : after.requested ≡ p.requested + sum request.now
    pub same_client : after.client ≡ p.client
    pub still : open_still ++ request.onward ≡ more
    pub awaits : Awaits len after (done ++ b) old open_still request.onward
    pub go :
        {r : Result (Progress Addr)} {rest' out : List ℕ}
        → Runs v (download_loop c k len after) rest r rest' out
        → Runs v
            (download_loop c (suc k) len p)
            (frame (piece_message index (length done) b) ++ rest)
            r
            rest'
            (asks (pos index) p.requested request.now ++ out)

  next_Awaits :
      (len : ℕ) (p p₂ : Progress Addr)
      (done old old₁ old₂ asked later now onward open_still b : List ℕ)
      → Awaits len p done old asked later
      → later ≡ now ++ onward
      → IsPlan len (p.requested + sum now) onward
      → asked ++ now ≡ length b ∷ open_still
      → old ≡ old₁ ++ old₂
      → length old₁ ≡ length b
      → Extends c (after_asking p now) p₂ done b old₂
      → Awaits len p₂ (done ++ b) old₂ open_still onward
  next_Awaits len p p₂ done old old₁ old₂ asked later now onward open_still b w split plan answered
        halves len₁ x =
      let count : length asked + length now ≡ suc (length open_still) =
        sym (length-append asked now) ∙ ap length answered in
      let asked_sum : sum asked + sum now ≡ length b + sum open_still =
        sym (sum-append asked now) ∙ ap sum answered in
      let later_sum : sum later ≡ sum now + sum onward = ap sum split ∙ sum-append now onward in
      record {
        indexed = x.same_index ∙ w.indexed;
        free = ap (λ cl. cl.choked) x.same_client ∙ w.free;
        filled = x.kept;
        counted = omega (arith, x.counted, w.counted, length-append done b);
        opened =
            x.one_less
            ∙ close_one p.backlog (length asked) (length now) (length open_still) w.opened count;
        requested = omega (arith, x.same_requested, w.requested, asked_sum, length-append done b);
        plan = subst (λ r. IsPlan len r onward) (sym x.same_requested) plan;
        owed =
            omega (
              arith,
              w.owed,
              asked_sum,
              later_sum,
              ap length halves,
              length-append old₁ old₂,
              len₁,
            );
      }

  -- The round, once its requests are known.
  finish_round :
      (len k : ℕ) (p : Progress Addr) (done old asked later b rest more open_still : List ℕ)
      → len + 13 < 2 ^ 32
      → 0 < length b
      → length done < len
      → Awaits len p done old asked later
      → (q : Requested len p asked later (frame (piece_message index (length done) b) ++ rest))
      → asked ++ q.now ≡ length b ∷ open_still
      → open_still ++ q.onward ≡ more
      → (old₁ old₂ : List ℕ) → old ≡ old₁ ++ old₂
      → length old₁ ≡ length b
      → Round len k p done asked later b rest more
  finish_round len k p done old asked later b rest more open_still hl nb due w q answered still old₁
        old₂ split len₁ =
      let (p₂, got, x) =
        read_block c v stream index small (after_asking p q.now) done old₁ old₂ b rest w.indexed
          (w.filled ∙ ap (λ l. done ++ l) split) len₁ (omega (arith, due, hl))
          (omega (
            arith,
            hl,
            Awaits-len len p done old asked later w,
            ap length split,
            length-append old₁ old₂,
            len₁,
          ))
          nb in
      record {
        request = q;
        after = p₂;
        old = old₂;
        open_still = open_still;
        answered = answered;
        sent = x.same_requested;
        same_client = x.same_client;
        still = still;
        awaits =
            next_Awaits len p p₂ done old old₁ old₂ asked later q.now q.onward open_still b w
              q.split q.plan answered split len₁ x;
        go = λ run.
            Runs-ext (loop_goes_on c k len p (omega (arith, w.counted, due)))
              (Runs-bind _ q.runs (Runs-bind _ got run));
      }

  pub one_round :
      (len k : ℕ) (p : Progress Addr) (done old asked later b rest more : List ℕ)
      → len + 13 < 2 ^ 32
      → 0 < length b
      → Awaits len p done old asked later
      → asked ++ later ≡ length b ∷ more
      → Round len k p done asked later b rest more
  one_round len k p done old asked later b rest more hl nb w e =
      let owed_sum : length b ≤ length old =
        omega (arith, w.owed, ap sum e, sum-append asked later) in
      let due : length done < len =
        omega (arith, Awaits-len len p done old asked later w, owed_sum, nb) in
      let q =
        request_if_unchoked-Requested len p done old asked later
          (frame (piece_message index (length done) b) ++ rest) w (omega (arith, w.counted, due)) in
      let (open_still, answered) =
        first_asked asked q.now q.onward later more (length b) e q.split q.waits in
      let (old₁, old₂, split, len₁, len₂) = split_at (length b) old owed_sum in
      finish_round len k p done old asked later b rest more open_still hl nb due w q answered
        (rest_asked asked q.now q.onward later more open_still (length b) e q.split answered) old₁
        old₂ split len₁
