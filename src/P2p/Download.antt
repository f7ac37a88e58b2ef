-- ===== src/P2p/Download.antt =====
-- p2p/p2p.go: Download as a whole, from the work queue to the buffer of the file.
use native.Mathlib.Nat.{lt_of_mul-lt-mul_right}
use bittorrent_over_scion.Common.{
  ℕ, suc, ◌+◌, ◌*◌, ◌<◌, ◌≤◌, ◌≡◌, refl, ap, ◌∙◌, List, [], ◌∷◌, true, some, if◌then◌else◌, length,
  get_elem?, All, ℤ, pos, eqb_ℤ, max_int, ok, Bool-cases, inl, inr, arith,
}
use bittorrent_over_scion.Common.Stream.{Conn}
use bittorrent_over_scion.P2p.{Torrent, PieceWork, PieceResult, queue_from}
use bittorrent_over_scion.P2p.Bounds.{Sized}
use bittorrent_over_scion.P2p.Assembly.{assemble, piece_of, has_number, IsPiece, assemble-content}
use bittorrent_over_scion.P2p.Workers.{
  Job, idle, working, returning, leaving, offering, ended, Worker, IsChecked, Downloading, Reach,
  start,
}
use bittorrent_over_scion.P2p.Workers.Conservation.{
  weigh, of_work, of_result, of_job, of_worker, Reach-weight,
}
use bittorrent_over_scion.P2p.Workers.Room.{one, weigh-one, Reach-count}
use bittorrent_over_scion.P2p.Workers.Verified.{IsRight, IsVerified, Reach-IsVerified}

-- 1 for the piece with this number.
abbrev only : ℕ → ℤ → ℕ
only i z = if eqb_ℤ z (pos i) then 1 else 0

only-le : (i : ℕ) (z : ℤ) → only i z ≤ 1
only-le i z = ground arith

has_number-weigh :
    (i : ℕ) (rs : List PieceResult) → 1 ≤ weigh (of_result (only i)) rs → has_number i rs ≡ true
has_number-weigh i [] h = absurd (omega arith)
has_number-weigh i (r ∷ rs) h = elim (Bool-cases (eqb_ℤ r.index (pos i))) [
  | inl same ↦ rw same
  | inr other ↦ rw other (has_number-weigh i rs (omega (arith, rw other at h)))
]

weigh-queue_from :
    (t : Torrent) (i k : ℕ) (hashes : List (List ℕ))
    → k ≤ i
    → i < k + length hashes
    → 1 ≤ weigh (of_work (only i)) (queue_from t k hashes)
unfolding queue_from
weigh-queue_from t i k [] h l = absurd (omega arith)
weigh-queue_from t i k (x ∷ hashes) h l = elim (Bool-cases (eqb_ℤ (pos k) (pos i))) [
  | inl same ↦ rw same (omega arith)
  | inr other ↦
      let next = weigh-queue_from t i (k + 1) hashes (ground arith) (omega arith) in
      omega (arith, next)
]

of_job-le : (i : ℕ) (j : Job) → of_job (only i) j ≤ of_job one j
of_job-le i idle = omega arith
of_job-le i (working pw) = only-le i pw.index
of_job-le i (returning pw) = only-le i pw.index
of_job-le i (leaving pw) = only-le i pw.index
of_job-le i (offering r) = only-le i r.index
of_job-le i ended = omega arith

module _ {Addr : Type 0} {c : Conn} where
  weigh-workers-le :
      (i : ℕ) (ws : List (Worker Addr c)) → weigh (of_worker (only i)) ws ≤ weigh (of_worker one) ws
  weigh-workers-le i [] = omega arith
  weigh-workers-le i (w ∷ ws) = omega (arith, of_job-le i w.job, weigh-workers-le i ws)

weigh-le : (i : ℕ) (ws : List PieceWork) → weigh (of_work (only i)) ws ≤ weigh (of_work one) ws
weigh-le i [] = omega arith
weigh-le i (w ∷ ws) = omega (arith, only-le i w.index, weigh-le i ws)

module _ (t : Torrent) (pl len : ℕ) (sz : Sized t pl len) (content : List ℕ)
    (sha1 : List ℕ → List ℕ) where
  -- A work for a piece of the file, with its hash.
  pub record IsOfFile (pw : PieceWork) : Type 0 where
    pub number : ℕ
    pub indexed : pw.index ≡ pos number
    pub inside : number * pl < len
    pub hashed : pw.hash ≡ sha1 (piece_of pl content number)

  -- The torrent's hashes, from number `i` on, are those of the file's pieces.
  abbrev pub Describes : ℕ → List (List ℕ) → Type 0
  Describes i hashes =
      (j : ℕ) (hash : List ℕ)
      → get_elem? hashes j ≡ some hash
      → hash ≡ sha1 (piece_of pl content (i + j))

  queue_from-IsOfFile :
      (hashes : List (List ℕ)) (i : ℕ)
      → Describes i hashes
      → (i + length hashes) * pl < len + pl
      → All IsOfFile (queue_from t i hashes)
  unfolding queue_from
  queue_from-IsOfFile [] i d h = tt
  queue_from-IsOfFile (x ∷ hashes) i d h = (
    record {
      number = i;
      indexed = refl;
      inside = omega arith;
      hashed = d 0 x refl ∙ ap (λ k. sha1 (piece_of pl content k)) (omega arith);
    },
    queue_from-IsOfFile hashes (i + 1)
        (λ j hash e. d (suc j) hash e ∙ ap (λ k. sha1 (piece_of pl content k)) (omega arith))
        (omega arith),
  )

  -- What SHA-1 is trusted for: nothing but a piece of the file has the hash of that piece.
  abbrev pub HasNoOther : Type 0
  HasNoOther =
      (buf : List ℕ) (i : ℕ)
      → i * pl < len
      → sha1 buf ≡ sha1 (piece_of pl content i)
      → buf ≡ piece_of pl content i

  module _ (whole : length content ≡ len) (fits : len + pl ≤ max_int) (trusted : HasNoOther) where
    right-IsPiece :
        (rs : List PieceResult)
        → All (IsRight sha1 IsOfFile) rs
        → All (IsPiece t pl len sz content whole fits) rs
    right-IsPiece [] h = tt
    right-IsPiece (r ∷ rs) (x, h) = (
      record {
        number = x.known.number;
        indexed = x.same_index ∙ x.known.indexed;
        inside = x.known.inside;
        right = trusted r.buf x.known.number x.known.inside (x.same_hash ∙ x.known.hashed);
      },
      right-IsPiece rs h,
    )

    module _ (enough : len ≤ length t.piece_hashes * pl)
        (no_more : length t.piece_hashes * pl < len + pl) {Addr : Type 0} (c : Conn) where
      start-IsVerified :
          Describes 0 t.piece_hashes
          → IsVerified sha1 IsOfFile {Addr = Addr} c (length t.piece_hashes) (start sha1 c t)
      unfolding start
      start-IsVerified d = record {
        channels = record {
          waiting = queue_from-IsOfFile t.piece_hashes 0 d (omega (arith, no_more));
          received = tt;
        };
        workers = tt;
      }

      every_piece :
          (s : Downloading Addr c)
          → Reach sha1 c (length t.piece_hashes) (start sha1 c t) s
          → length s.channels.results ≡ length t.piece_hashes
          → (i : ℕ) → i * pl < len
          → has_number i s.channels.results ≡ true
      unfolding start
      every_piece s r done i h = has_number-weigh i s.channels.results (
          omega (
            arith,
            Reach-weight (only i) sha1 (length t.piece_hashes) r,
            Reach-count sha1 c t r,
            done,
            weigh-workers-le i s.workers,
            weigh-le i s.channels.queue,
            weigh-one s.channels.queue,
            weigh-queue_from t i 0 t.piece_hashes (omega arith) (
                omega (
                  arith,
                  lt_of_mul-lt-mul_right pl {m = i} {n = length t.piece_hashes} (omega arith),
                )),
          ))

      -- A download of a file by any number of workers that check the hash, whose steps come in any
      -- order: once Download has received as many results as there are pieces, the buffer that it
      -- returns is the file. The torrent has a positive piece length and lengths far enough from
      -- the largest int, has as many hashes as its length needs, and they are those of the file's
      -- pieces; and nothing but a piece of the file has the hash of that piece.
      pub download-content :
          Describes 0 t.piece_hashes
          → (s : Downloading Addr c) → Reach sha1 c (length t.piece_hashes) (start sha1 c t) s
          → All IsChecked s.workers
          → length s.channels.results ≡ length t.piece_hashes
          → assemble t s.channels.results ≡ ok content
      download-content d s r checks done =
          let v =
            Reach-IsVerified sha1 IsOfFile c (length t.piece_hashes) r (start-IsVerified d)
              checks in
          assemble-content t pl len sz content whole fits s.channels.results
            (right-IsPiece s.channels.results v.channels.received) (every_piece s r done)
