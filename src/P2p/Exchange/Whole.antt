-- ===== src/P2p/Exchange/Whole.antt =====
-- p2p/p2p.go: attemptDownloadPiece with a peer that answers each request with its block.
use bittorrent_over_scion.Common.{
  ℕ, suc, ◌+◌, ◌<◌, ◌≡◌, ◌^◌, refl, sym, ap, ◌∙◌, List, [], ◌∷◌, ◌++◌, append_assoc, append-nil,
  length, length-append, nil_of_length, pos, ok, err, eof, arith, All,
}
use bittorrent_over_scion.Common.Stream.{
  Conn, View, IsStream, Runs, Runs-bind, Runs-bind_err, Runs-pure, Runs-ext, Runs-cast,
}
use bittorrent_over_scion.Message.{read}
use bittorrent_over_scion.Message.Wire.{frame}
use bittorrent_over_scion.Message.Blocks.{piece_message}
use bittorrent_over_scion.P2p.{Progress, download_loop, read_message}
use bittorrent_over_scion.P2p.Pipeline.{sum, asks, IsSize}
use bittorrent_over_scion.P2p.Parcels.{loop_ends, loop_goes_on}
use bittorrent_over_scion.P2p.Exchange.Sending.{after_asking, asks-append}
use bittorrent_over_scion.P2p.Exchange.Turns.{block_frames, joined, sum-append}
use bittorrent_over_scion.P2p.Exchange.Receiving.{
  Awaits, Awaits-len, request_if_unchoked-Requested, one_round,
}

abbrev pub lengths : List (List ℕ) → List ℕ
lengths [] = []
lengths (b ∷ bs) = length b ∷ lengths bs

pub length-lengths : (bs : List (List ℕ)) → length (lengths bs) ≡ length bs
length-lengths [] = refl
length-lengths (b ∷ bs) = ap suc (length-lengths bs)

pub IsSize-filled : (bs : List (List ℕ)) → All IsSize (lengths bs) → All (λ b. 0 < length b) bs
IsSize-filled [] h = tt
IsSize-filled (b ∷ bs) (now, h) = (now.0, IsSize-filled bs h)

pub sum-lengths : (bs : List (List ℕ)) → sum (lengths bs) ≡ length (joined bs)
sum-lengths [] = refl
sum-lengths (b ∷ bs) = omega (arith, sum-lengths bs, length-append b (joined bs))

abbrev pub IsFilled : List (List ℕ) → Type 0
IsFilled bs = All (λ b. 0 < length b) bs

asked_in_turn :
    (index from next : ℕ) (later now onward : List ℕ)
    → next ≡ from + sum now
    → later ≡ now ++ onward
    → asks (pos index) from now ++ asks (pos index) next onward ≡ asks (pos index) from later
asked_in_turn index from next later now onward e split =
    ap (λ k. asks (pos index) from now ++ asks (pos index) k onward) e
    ∙ sym (asks-append (pos index) from now onward)
    ∙ ap (asks (pos index) from) (sym split)

module _ {Addr : Type 0} (c : Conn) (v : View c.State) (stream : IsStream c v) (index : ℕ)
    (small : index < 2 ^ 32) where
  -- The loop up to its end: each block that was still to be asked for is asked for, in turn.
  pub record Exchanged (len : ℕ) (p : Progress Addr) (later : List ℕ) (fuel : ℕ) (inp rest : List ℕ)
      (content : List ℕ) : Type 0 where
    pub after : Progress Addr
    pub runs :
        Runs v (download_loop c fuel len p) inp (ok after) rest (asks (pos index) p.requested later)
    pub final : after.buf ≡ content
    pub same_client : after.client ≡ p.client

  pub loop-Exchanged :
      (len : ℕ) (p : Progress Addr) (done old asked later rest : List ℕ) (blocks : List (List ℕ))
      → len + 13 < 2 ^ 32
      → IsFilled blocks
      → Awaits c v stream index small len p done old asked later
      → asked ++ later ≡ lengths blocks
      → Exchanged len p later
          (suc (length blocks))
          (block_frames index (length done) blocks ++ rest)
          rest
          (done ++ joined blocks)
  loop-Exchanged len p done old asked later rest [] hl ne w e =
      let none_asked =
        nil_of_length asked (omega (arith, ap length e, length-append asked later)) in
      let none_later =
        nil_of_length later (omega (arith, ap length e, length-append asked later)) in
      let none_old =
        nil_of_length old (omega (arith, w.owed, ap sum none_asked, ap sum none_later)) in
      record {
        after = p;
        runs = Runs-cast refl refl (ap (asks (pos index) p.requested) (sym none_later)) (
            Runs-ext
              (loop_ends c 0 len p (
                omega (
                  arith,
                  w.counted,
                  Awaits-len c v stream index small len p done old asked later w,
                  ap length none_old,
                )))
              (Runs-pure p rest));
        final = w.filled ∙ ap (λ l. done ++ l) none_old;
        same_client = refl;
      }
  loop-Exchanged len p done old asked later rest (b ∷ bs) hl (nb, ne) w e =
      let r =
        one_round c v stream index small len (suc (length bs)) p done old asked later b
          (block_frames index (length done + length b) bs ++ rest) (lengths bs) hl nb w e in
      let x =
        loop-Exchanged len r.after (done ++ b) r.old r.open_still r.request.onward rest bs hl ne
          r.awaits r.still in
      record {
        after = x.after;
        runs =
            Runs-cast
              (sym (
                append_assoc (frame (piece_message index (length done) b))
                  (block_frames index (length done + length b) bs) rest))
              refl
              (asked_in_turn index p.requested r.after.requested later r.request.now
                r.request.onward r.sent r.request.split)
              (r.go (
                Runs-cast (ap (λ k. block_frames index k bs ++ rest) (length-append done b)) refl
                  refl x.runs));
        final = x.final ∙ append_assoc done b (joined bs);
        same_client = x.same_client ∙ r.same_client;
      }

  read_message_eof : (p : Progress Addr) → Runs v (read_message c p) [] (err eof) [] []
  unfolding read_message read
  read_message_eof p = Runs-bind_err _ (Runs-bind_err _ (stream.ends 4 [] (omega arith)))

  -- The loop up to where it waits in vain: it has asked for more blocks than it got.
  pub record Waiting (len : ℕ) (p : Progress Addr) (asked later : List ℕ) (count : ℕ) (inp : List ℕ)
      : Type 0 where
    pub now : List ℕ
    pub onward : List ℕ
    pub split : later ≡ now ++ onward
    pub runs :
        Runs v
          (download_loop c (suc count) len p)
          inp
          (err eof)
          []
          (asks (pos index) p.requested now)
    pub ahead : count < length asked + length now

  pub loop-Waiting :
      (len : ℕ) (p : Progress Addr) (done old asked later : List ℕ) (blocks : List (List ℕ)) (n : ℕ)
      (more : List ℕ)
      → len + 13 < 2 ^ 32
      → IsFilled blocks
      → 0 < n
      → Awaits c v stream index small len p done old asked later
      → asked ++ later ≡ lengths blocks ++ (n ∷ more)
      → Waiting len p asked later (length blocks) (block_frames index (length done) blocks)
  loop-Waiting len p done old asked later [] n more hl ne some w e =
      let due : length done < len = omega (
        arith,
        Awaits-len c v stream index small len p done old asked later w,
        w.owed,
        ap sum e,
        sum-append asked later,
        some,
      ) in
      let q =
        request_if_unchoked-Requested c v stream index small len p done old asked later [] w
          (omega (arith, w.counted, due)) in
      record {
        now = q.now;
        onward = q.onward;
        split = q.split;
        runs = Runs-cast refl refl (append-nil (asks (pos index) p.requested q.now)) (
            Runs-ext (loop_goes_on c 0 len p (omega (arith, w.counted, due)))
              (Runs-bind _ q.runs (Runs-bind_err _ (read_message_eof (after_asking p q.now)))));
        ahead = omega (arith, q.waits);
      }
  loop-Waiting len p done old asked later (b ∷ bs) n more hl (nb, ne) some w e =
      let r =
        one_round c v stream index small len (suc (length bs)) p done old asked later b
          (block_frames index (length done + length b) bs) (lengths bs ++ (n ∷ more)) hl nb w e in
      let x =
        loop-Waiting len r.after (done ++ b) r.old r.open_still r.request.onward bs n more hl ne
          some r.awaits r.still in
      record {
        now = r.request.now ++ x.now;
        onward = x.onward;
        split =
            r.request.split
            ∙ ap (λ l. r.request.now ++ l) x.split
            ∙ sym (append_assoc r.request.now x.now x.onward);
        runs =
            Runs-cast refl refl
              (asked_in_turn index p.requested r.after.requested (r.request.now ++ x.now)
                r.request.now x.now r.sent refl)
              (r.go (
                Runs-cast (ap (λ k. block_frames index k bs) (length-append done b)) refl refl
                  x.runs));
        ahead = omega (
          arith,
          x.ahead,
          ap length r.answered,
          length-append asked r.request.now,
          length-append r.request.now x.now,
        );
      }
