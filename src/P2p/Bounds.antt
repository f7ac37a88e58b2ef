-- ===== src/P2p/Bounds.antt =====
-- p2p/p2p.go: calculateBoundsForPiece, calculatePieceSize and the work queue.
use bittorrent_over_scion.Common.{
  ℕ, ◌+◌, ◌-◌, ◌*◌, ◌<◌, ◌≤◌, ◌≡◌, ◌⊎◌, inl, inr, refl, sym, ap, ◌∙◌, List, [], ◌∷◌, length,
  Bool-cases, ltb, ltb→lt, lt→ltb, if◌then◌else◌, pos, negsuc, pos_part, sub_ℕ, add_int-pos,
  sub_int-pos, mul_int-pos, max_int, halt, panic, arith,
}
use bittorrent_over_scion.Common.Stream.{Conn}
use bittorrent_over_scion.Client.{Client}
use bittorrent_over_scion.P2p.{
  Torrent, PieceWork, calculate_bounds_for_piece, calculate_piece_size, queue_from,
  attempt_download_piece,
}

-- Lengths that are not negative and far enough from the largest `int`, a proper piece length.
pub record Sized (t : Torrent) (pl len : ℕ) : Type 0 where
  pub piece_length_pos : t.piece_length ≡ pos pl
  pub length_pos : t.length ≡ pos len
  pub proper : 0 < pl

pub next_piece : (i pl : ℕ) → (i + 1) * pl ≡ i * pl + pl
next_piece i pl = omega arith

sub_ℕ-le : (a b : ℕ) → b ≤ a → sub_ℕ a b ≡ pos (a - b)
sub_ℕ-le a b h = ground arith

sub_ℕ-lt : (a b : ℕ) → a < b → sub_ℕ a b ≡ negsuc (b - a - 1)
sub_ℕ-lt a b h = ground arith

abbrev pub total : List PieceWork → ℕ
total [] = 0
total (w ∷ ws) = pos_part w.length + total ws

module _ (t : Torrent) (pl len : ℕ) (sz : Sized t pl len) where
  bounds_lem :
      (i : ℕ)
      → i * pl + pl ≤ max_int
      → calculate_bounds_for_piece t (pos i)
        ≡ (pos (i * pl), if ltb len (i * pl + pl) then pos len else pos (i * pl + pl))
  unfolding calculate_bounds_for_piece
  bounds_lem i h =
      rw
        (
          sz.piece_length_pos,
          sz.length_pos,
          mul_int-pos i pl (omega arith),
          add_int-pos (i * pl) pl h,
        )
        (ground arith)

  size_lem :
      (i b e : ℕ)
      → calculate_bounds_for_piece t (pos i) ≡ (pos b, pos e)
      → b ≤ max_int
      → e ≤ max_int
      → calculate_piece_size t (pos i) ≡ sub_ℕ e b
  unfolding calculate_piece_size
  size_lem i b e h kb ke = rw h (sub_int-pos e b ke kb)

  -- For a positive piece length and a length of the file that is not negative: a piece that begins
  -- inside the file lies inside it, has a byte at least and a piece length at most, and ends where
  -- the next one begins or at the end of the file; its size is that of the work. No product may
  -- overflow.
  pub bounds_inside :
      (i : ℕ)
      → i * pl < len
      → i * pl + pl ≤ max_int
      → (b e : ℕ) × (calculate_bounds_for_piece t (pos i) ≡ (pos b, pos e))
        × (calculate_piece_size t (pos i) ≡ pos (e - b))
        × (b ≡ i * pl)
        × (b < e)
        × (e ≤ len)
        × (e ≤ b + pl)
        × ((e ≡ (i + 1) * pl) ⊎ (e ≡ len))
  bounds_inside i h k = elim (Bool-cases (ltb len (i * pl + pl))) [
    | inl last ↦
        let bs : calculate_bounds_for_piece t (pos i) ≡ (pos (i * pl), pos len) =
          rw last at (bounds_lem i k) in
        let size = size_lem i (i * pl) len bs (omega arith) (omega (arith, ltb→lt _ _ last)) in
        (
          i * pl,
          len,
          bs,
          size ∙ sub_ℕ-le len (i * pl) (omega arith),
          refl,
          h,
          omega arith,
          omega (arith, ltb→lt _ _ last),
          inr refl,
        )
    | inr inner ↦
        let bs : calculate_bounds_for_piece t (pos i) ≡ (pos (i * pl), pos (i * pl + pl)) =
          rw inner at (bounds_lem i k) in
        let size = size_lem i (i * pl) (i * pl + pl) bs (omega arith) k in
        (
          i * pl,
          i * pl + pl,
          bs,
          size ∙ sub_ℕ-le (i * pl + pl) (i * pl) (omega arith),
          refl,
          omega (arith, sz.proper),
          ground arith,
          omega arith,
          inl (sym (next_piece i pl)),
        )
  ]

  queue_from-total :
      (hashes : List (List ℕ)) (i : ℕ)
      → len + pl ≤ max_int
      → i * pl ≤ len
      → len ≤ (i + length hashes) * pl
      → (i + length hashes) * pl < len + pl
      → total (queue_from t i hashes) ≡ len - i * pl
  unfolding queue_from
  queue_from-total [] i fits h k l = omega arith
  queue_from-total (x ∷ []) i fits h k l =
      let (b, e, bs, size, at_b, lt, inside, short, stop) =
        bounds_inside i (omega arith) (omega arith) in
      rw size (omega (arith, at_b, lt, inside, short, stop))
  queue_from-total (x ∷ y ∷ hashes) i fits h k l =
      let (b, e, bs, size, at_b, lt, inside, short, stop) =
        bounds_inside i (omega arith) (omega arith) in
      rw size (
        omega (
          arith,
          at_b,
          lt,
          inside,
          short,
          stop,
          queue_from-total (y ∷ hashes) (i + 1) fits (omega arith) (omega arith) (omega arith),
        ))

  -- For a positive piece length and lengths far enough from the largest int, the work of a torrent
  -- with as many hashes as its length needs adds up to the length of the file.
  pub work_queue-total :
      len + pl ≤ max_int
      → len ≤ length t.piece_hashes * pl
      → length t.piece_hashes * pl < len + pl
      → total (queue_from t 0 t.piece_hashes) ≡ len
  work_queue-total fits h k =
      omega
        (arith, queue_from-total t.piece_hashes 0 fits (omega arith) (omega arith) (omega arith))

  -- For a positive piece length and a length of the file that is not negative: the work of a piece
  -- that would begin behind the end of the file has a negative length, and attemptDownloadPiece
  -- panics on it. No product may overflow.
  pub excess_piece_panics :
      (i : ℕ)
      → len < i * pl
      → i * pl + pl ≤ max_int
      → {Addr : Type 0} (c : Conn) (fuel : ℕ) (cl : Client Addr) (hash : List ℕ) (s : c.State)
      → attempt_download_piece c fuel cl
          (record { index = pos i; hash = hash; length = calculate_piece_size t (pos i) })
          s
        ≡ (halt panic, s)
  unfolding attempt_download_piece
  excess_piece_panics i h k c fuel cl hash s =
      let bs : calculate_bounds_for_piece t (pos i) ≡ (pos (i * pl), pos len) =
        bounds_lem i k
        ∙ ap (λ b. (pos (i * pl), if b then pos len else pos (i * pl + pl)))
            (lt→ltb len (i * pl + pl) (omega arith)) in
      rw (size_lem i (i * pl) len bs (omega arith) (omega arith) ∙ sub_ℕ-lt len (i * pl) h)
