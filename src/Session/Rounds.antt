-- ===== src/Session/Rounds.antt =====
-- p2p/p2p.go: Download with one worker, whose peer is a seeder: the rounds until the queue is empty.
use mathlib.Core.Path.{subst}
use bittorrent_over_scion.Common.{
  ℕ, zero, suc, ◌+◌, ◌*◌, ◌-◌, ◌<◌, ◌≤◌, ◌≡◌, refl, sym, ap, ◌∙◌, List, [], ◌∷◌, ◌++◌, false,
  length, length-take, length-drop, drop, pos, max_int, arith, inl, inr,
}
use bittorrent_over_scion.Common.Stream.{Conn, View}
use bittorrent_over_scion.Message.{format_have}
use bittorrent_over_scion.Message.Wire.{frame}
use bittorrent_over_scion.P2p.{Torrent, PieceWork, PieceResult, calculate_piece_size}
use bittorrent_over_scion.P2p.Bounds.{Sized, bounds_inside}
use bittorrent_over_scion.P2p.Assembly.{piece_of}
use bittorrent_over_scion.P2p.Workers.{
  Worker, Downloading, idle, working, offering, after_round, takes, works, offers, acts, Reach,
  next,
}
use bittorrent_over_scion.Server.Sessions.{requests, answers}
use bittorrent_over_scion.Session.Seeded.{requests_of}
use bittorrent_over_scion.Session.Delivery.{Delivered}

-- What the worker sends for `n` pieces from number `i` on, and what it reads.
abbrev pub all_requests : List ℕ → ℕ → ℕ → ℕ → List ℕ
all_requests file pl i zero = []
all_requests file pl i (suc n) =
    (requests (requests_of file pl i) ++ frame (format_have (pos i)))
    ++ all_requests file pl (i + 1) n

abbrev pub all_answers : List ℕ → ℕ → ℕ → ℕ → List ℕ
all_answers file pl i zero = []
all_answers file pl i (suc n) = answers (requests_of file pl i) ++ all_answers file pl (i + 1) n

-- The pieces.
abbrev pub results_of : List ℕ → ℕ → ℕ → ℕ → List PieceResult
results_of file pl i zero = []
results_of file pl i (suc n) =
    record { index = pos i; buf = piece_of pl file i } ∷ results_of file pl (i + 1) n

-- The work for a piece asks for as many bytes as the piece has.
pub piece_size_lem :
    (t : Torrent) (pl len : ℕ)
    → Sized t pl len
    → (file : List ℕ) (i : ℕ) → length file ≡ len
    → i * pl < len
    → i * pl + pl ≤ max_int
    → calculate_piece_size t (pos i) ≡ pos (length (piece_of pl file i))
piece_size_lem t pl len sz file i whole inside fits =
    let (b, e, at, size, from, some_byte, in_file, short, stop) =
      bounds_inside t pl len sz i inside fits in
    let product : (i + 1) * pl ≡ i * pl + pl = omega arith in
    let count : e - b ≡ length (piece_of pl file i) = elim stop [
      | inl inner ↦ omega (
        arith,
        inner,
        from,
        product,
        in_file,
        length-take pl (drop (i * pl) file),
        length-drop (i * pl) file,
        whole,
      )
      | inr last ↦ omega (
        arith,
        last,
        from,
        short,
        length-take pl (drop (i * pl) file),
        length-drop (i * pl) file,
        whole,
      )
    ] in
    size ∙ ap (λ k. pos k) count

module _ {Addr : Type 0} (sha1 : List ℕ → List ℕ) (c : Conn) where
  -- One worker, with what waits and what was received.
  abbrev pub single : Worker Addr c → List PieceWork → List PieceResult → Downloading Addr c
  single w queue results = record {
    channels = record { queue = queue; results = results; closed = false };
    workers = w ∷ [];
  }

  module _ (v : View c.State) (capacity : ℕ) (s : Downloading Addr c) where
    -- The worker takes a work, works and sends its result.
    pub one_piece :
        (w : Worker Addr c) (fuel i : ℕ) (pw : PieceWork) (piece rest out : List ℕ)
        (queue : List PieceWork) (results : List PieceResult)
        → w.job ≡ idle
        → length results < capacity
        → (x : Delivered sha1 c v w fuel pw i piece rest out)
        → Reach sha1 c capacity s (single w (pw ∷ queue) results)
        → Reach sha1 c capacity s (
            single
              (record w { conn = x.conn })
              queue
              (results ++ (record { index = pos i; buf = piece } ∷ [])))
    unfolding after_round
    one_piece w fuel i pw piece rest out queue results free room x run =
        let busy : Worker Addr c = record w { job = working pw } in
        let made : PieceResult = record { index = pos i; buf = piece } in
        let finished : Worker Addr c = record w { conn = x.conn; job = offering made } in
        let ready : Worker Addr c = record w { conn = x.conn; job = idle } in
        let taken =
          next {u = single busy queue results} run
            (acts [] [] w busy refl refl (takes pw queue free refl refl refl)) in
        let worked =
          next {u = single finished queue results} taken
            (acts [] [] busy finished refl refl (works fuel pw refl x.offered refl)) in
        let sent =
          next {u = single ready queue (results ++ (made ∷ []))} worked
            (acts [] [] finished ready refl refl (offers made refl room refl refl)) in
        subst
          (λ j.
            Reach sha1 c capacity s
              (single (record w { conn = x.conn; job = j }) queue (results ++ (made ∷ []))))
          (sym free) sent
