-- ===== src/Session/Content.antt =====
-- p2p/p2p.go, server/server.go: a seeder and a leecher, from the torrent to the file.
use native.Mathlib.Nat.{lt_of_mul-lt-mul_right}
use bittorrent_over_scion.Common.{
  ℕ, zero, suc, ◌+◌, ◌*◌, ◌<◌, ◌≤◌, ◌^◌, ◌≡◌, refl, ap, List, [], ◌++◌, true, false, length, pos,
  max_int, arith, All, inl, inr, Bool-cases, eqb_ℤ, ok,
}
use bittorrent_over_scion.Common.Stream.{Conn, View, IsStream, Runs}
use bittorrent_over_scion.Bitfield.{has_piece}
use bittorrent_over_scion.P2p.{Torrent, PieceResult, queue_from}
use bittorrent_over_scion.P2p.Bounds.{Sized}
use bittorrent_over_scion.P2p.Assembly.{assemble, IsPiece, has_number, assemble-content}
use bittorrent_over_scion.P2p.Workers.{Worker, idle, joins, Reach, here, next, start}
use bittorrent_over_scion.P2p.Download.{Describes}
use bittorrent_over_scion.Session.Rounds.{all_requests, all_answers, results_of, single}
use bittorrent_over_scion.Server.{Server, handle_loop}
use bittorrent_over_scion.Server.Sessions.{keep_alive}
use bittorrent_over_scion.Session.Download.{IsSmall, all_pieces}
use bittorrent_over_scion.Session.Serving.{all-Served}

-- What Download receives is the pieces of the file, all of them.
module _ (t : Torrent) (pl len : ℕ) (sz : Sized t pl len) (file : List ℕ)
    (whole : length file ≡ len) (fits : len + pl ≤ max_int) where
  results_of-IsPiece :
      (n i : ℕ)
      → (i + n) * pl < len + pl
      → All (IsPiece t pl len sz file whole fits) (results_of file pl i n)
  results_of-IsPiece zero i inside = tt
  results_of-IsPiece (suc n) i inside = (
    record { number = i; indexed = refl; inside = omega arith; right = refl },
    results_of-IsPiece n (i + 1) (omega arith),
  )

length-results_of : (file : List ℕ) (pl n i : ℕ) → length (results_of file pl i n) ≡ n
length-results_of file pl zero i = refl
length-results_of file pl (suc n) i = ap suc (length-results_of file pl n (i + 1))

number_below : (i n pl len : ℕ) → i * pl < len → len ≤ n * pl → i < n
number_below i n pl len lt enough = lt_of_mul-lt-mul_right pl {m = i} {n = n} (omega arith)

has_number-results_of :
    (file : List ℕ) (pl n i k : ℕ)
    → i ≤ k
    → k < i + n
    → has_number k (results_of file pl i n) ≡ true
has_number-results_of file pl zero i k lo hi = absurd (omega arith)
has_number-results_of file pl (suc n) i k lo hi = elim (Bool-cases (eqb_ℤ (pos i) (pos k))) [
  | inl same ↦ rw same
  | inr other ↦ rw other (has_number-results_of file pl n (i + 1) k (ground arith) (omega arith))
]

module _ {Addr : Type 0} (sha1 : List ℕ → List ℕ) (c : Conn) (v : View c.State)
    (leeching : IsStream c v) (d : Conn) (u : View d.State) (seeding : IsStream d u) (t : Torrent)
    (pl len : ℕ) (sz : Sized t pl len) (small : IsSmall pl len) (s : Server Addr)
    (piece_length : s.torrent_file.piece_length ≡ pos pl)
    (whole : length s.torrent_file.content.bytes ≡ len) where
  -- A seeder and a leecher at the two ends of a connection, on which nothing is lost: the torrent
  -- describes the file that the seeder serves, piece for piece, with lengths that fit 32 bits; the
  -- leecher's worker is idle, is not choked and knows that the peer has every piece; and what it
  -- reads is what the seeder answers. Then the worker gets every piece, one round for each,
  -- Download puts the results together to the file, and the worker has sent exactly the requests
  -- and the HAVE messages, one for each piece, that the seeder, which reads them and then a keep-
  -- alive, answers with what the worker reads, and ends with no error.
  pub one_seeder-content :
      (w : Worker Addr c) (rest more : List ℕ)
      → length t.piece_hashes * pl < len + pl
      → len ≤ length t.piece_hashes * pl
      → length t.piece_hashes < 2 ^ 32
      → Describes t pl len sz s.torrent_file.content.bytes sha1 0 t.piece_hashes
      → w.job ≡ idle
      → w.client.choked ≡ false
      → ((k : ℕ) → k < length t.piece_hashes → has_piece w.client.bitfield (pos k) ≡ true)
      → v.incoming w.conn
        ≡ all_answers s.torrent_file.content.bytes pl 0 (length t.piece_hashes) ++ rest
      → (w' : Worker Addr c) × (results : List PieceResult) × (fuel : ℕ) × Reach sha1 c
          (length t.piece_hashes)
          (start sha1 c t)
          (single sha1 c w' [] results)
        × (length results ≡ length t.piece_hashes)
        × (assemble t results ≡ ok s.torrent_file.content.bytes)
        × (v.sent w'.conn
            ≡ v.sent w.conn
              ++ all_requests s.torrent_file.content.bytes pl 0 (length t.piece_hashes))
        × Runs u
            (handle_loop d s fuel)
            (all_requests s.torrent_file.content.bytes pl 0 (length t.piece_hashes)
              ++ (keep_alive ++ more))
            (ok tt)
            more
            (all_answers s.torrent_file.content.bytes pl 0 (length t.piece_hashes))
  unfolding start
  one_seeder-content w rest more inside enough short described job free has at =
      let file = s.torrent_file.content.bytes in
      let fits : len + pl ≤ max_int = omega (arith, small.file_u32) in
      let joined =
        next {u = single sha1 c w (queue_from t 0 t.piece_hashes) []} here (joins w job refl) in
      let x =
        all_pieces sha1 c v leeching t pl len sz small file whole (length t.piece_hashes)
          (start sha1 c t) t.piece_hashes w 0 [] rest free (λ k lt. has k (omega arith))
          (omega (arith, inside)) (omega (arith, short)) described job (omega arith) at joined in
      let y =
        all-Served d s u seeding pl piece_length len small whole (length t.piece_hashes) 0 more
          (omega (arith, inside)) (omega (arith, short)) in
      (
        record w { conn = x.conn },
        results_of file pl 0 (length t.piece_hashes),
        y.fuel,
        x.reached,
        length-results_of file pl (length t.piece_hashes) 0,
        assemble-content t pl len sz file whole fits (results_of file pl 0 (length t.piece_hashes))
            (results_of-IsPiece t pl len sz file whole fits (length t.piece_hashes) 0
              (omega (arith, inside)))
            (λ i lt.
              has_number-results_of file pl (length t.piece_hashes) 0 i (omega arith)
                (omega (arith, number_below i (length t.piece_hashes) pl len lt enough))),
        x.sent,
        y.runs,
      )
