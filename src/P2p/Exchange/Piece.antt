-- ===== src/P2p/Exchange/Piece.antt =====
-- p2p/p2p.go: attemptDownloadPiece asks for each block of its plan once, in order, and never waits
-- for a block that it has not asked for.
use bittorrent_over_scion.Common.{
  ℕ, suc, ◌+◌, ◌<◌, ◌≡◌, ◌^◌, refl, sym, ◌∙◌, List, [], ◌∷◌, ◌++◌, append-nil, false, length,
  length-replicate, replicate, pos, Result, ok, err, eof, arith, All,
}
use bittorrent_over_scion.Common.Stream.{
  Conn, View, IsStream, Runs, Runs-bind, Runs-cast, Runs-try, Runs-defer,
}
use bittorrent_over_scion.Client.{Client}
use bittorrent_over_scion.P2p.{
  Progress, PieceWork, download_loop, start_progress, attempt_download_piece,
}
use bittorrent_over_scion.P2p.Pipeline.{asks, IsSize}
use bittorrent_over_scion.P2p.Exchange.{IsPlan, IsPlan-sum, IsPlan-sizes}
use bittorrent_over_scion.P2p.Exchange.Turns.{block_frames, joined}
use bittorrent_over_scion.P2p.Exchange.Receiving.{Awaits}
use bittorrent_over_scion.P2p.Exchange.Whole.{lengths, IsSize-filled, loop-Exchanged, loop-Waiting}

IsSize-front : (ms ns : List ℕ) → All IsSize (ms ++ ns) → All IsSize ms × All IsSize ns
IsSize-front [] ns h = (tt, h)
IsSize-front (m ∷ ms) ns (now, h) = let (front, back) = IsSize-front ms ns h in ((now, front), back)

module _ {Addr : Type 0} (c : Conn) (v : View c.State) (stream : IsStream c v) (index : ℕ)
    (small : index < 2 ^ 32) (cl : Client Addr) (free : cl.choked ≡ false) (hash : List ℕ) where
  abbrev work : ℕ → PieceWork
  work len = record { index = pos index; hash = hash; length = pos len }

  start-Awaits :
      (len : ℕ) (ns : List ℕ)
      → IsPlan len 0 ns
      → Awaits c v stream index small len
          (start_progress c cl (work len))
          []
          (replicate len 0)
          []
          ns
  unfolding start_progress
  start-Awaits len ns plan = record {
    indexed = refl;
    free = free;
    filled = refl;
    counted = refl;
    opened = refl;
    requested = refl;
    plan = plan;
    owed = length-replicate {A = ℕ} len 0 ∙ sym (IsPlan-sum len 0 ns plan);
  }

  -- The deadline around the loop takes no bytes and sends none.
  attempt-Runs :
      (fuel len : ℕ) (inp rest out : List ℕ) (r : Result (Progress Addr))
      → Runs v (download_loop c fuel len (start_progress c cl (work len))) inp r rest out
      → Runs v (attempt_download_piece c fuel cl (work len)) inp r rest out
  unfolding attempt_download_piece
  attempt-Runs fuel len inp rest out r run =
      Runs-cast refl refl (append-nil out) (
        Runs-bind _ (Runs-try (stream.deadlines 30 inp)) (Runs-defer run (stream.deadlines 0 rest)))

  -- A peer that answers every request is asked for each block of the plan once, and the buffer is
  -- then the blocks, joined.
  pub attempt_download_piece-asks :
      (blocks : List (List ℕ)) (rest : List ℕ)
      → length (joined blocks) + 13 < 2 ^ 32
      → IsPlan (length (joined blocks)) 0 (lengths blocks)
      → (p : Progress Addr) × Runs v
          (attempt_download_piece c
            (suc (length blocks))
            cl
            (record { index = pos index; hash = hash; length = pos (length (joined blocks)) }))
          (block_frames index 0 blocks ++ rest)
          (ok p)
          rest
          (asks (pos index) 0 (lengths blocks))
        × (p.buf ≡ joined blocks)
        × (p.client ≡ cl)
  unfolding start_progress
  attempt_download_piece-asks blocks rest hl plan =
      let len = length (joined blocks) in
      let x =
        loop-Exchanged c v stream index small len (start_progress c cl (work len)) []
          (replicate len 0) [] (lengths blocks) rest blocks hl
          (IsSize-filled blocks (IsPlan-sizes len 0 (lengths blocks) plan))
          (start-Awaits len (lengths blocks) plan) refl in
      (
        x.after,
        attempt-Runs (suc (length blocks)) len _ rest _ (ok x.after) x.runs,
        x.final,
        x.same_client,
      )

  -- On a working connection to a peer that does not choke, and that answers with the first blocks
  -- of the piece, in the order and of the sizes in which the code asks for them, and then ends: the
  -- download has asked for the blocks from the beginning of the piece on, each once and in order,
  -- and for one more than came at least. So it never waits for a block that it has not asked for.
  -- Some block is still due, and the lengths fit a message.
  pub attempt_download_piece-waits :
      (len : ℕ) (blocks : List (List ℕ)) (n : ℕ) (more : List ℕ)
      → len + 13 < 2 ^ 32
      → IsPlan len 0 (lengths blocks ++ (n ∷ more))
      → (now onward : List ℕ) × (lengths blocks ++ (n ∷ more) ≡ now ++ onward)
        × (length blocks < length now)
        × Runs v
            (attempt_download_piece c
              (suc (length blocks))
              cl
              (record { index = pos index; hash = hash; length = pos len }))
            (block_frames index 0 blocks)
            (err eof)
            []
            (asks (pos index) 0 now)
  unfolding start_progress
  attempt_download_piece-waits len blocks n more hl plan =
      let sizes = IsSize-front (lengths blocks) (n ∷ more) (IsPlan-sizes len 0 _ plan) in
      let x =
        loop-Waiting c v stream index small len (start_progress c cl (work len)) []
          (replicate len 0) [] (lengths blocks ++ (n ∷ more)) blocks n more hl
          (IsSize-filled blocks sizes.0) sizes.1.0.0 (start-Awaits len _ plan) refl in
      (
        x.now,
        x.onward,
        x.split,
        omega (arith, x.ahead),
        attempt-Runs (suc (length blocks)) len _ [] _ (err eof) x.runs,
      )
