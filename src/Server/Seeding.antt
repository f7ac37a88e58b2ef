-- ===== src/Server/Seeding.antt =====
-- server/server.go: the bitfield that NewServer makes.
use bittorrent_over_scion.Common.{
  ℕ, zero, suc, ◌*◌, ◌≤◌, ◌≡◌, refl, ◌∙◌, ◌&&◌, ◌||◌, not, length, length-replicate, replicate,
  All-replicate, IsByte, IsBytes, ℤ, pos, is_neg, pos_part, ltb, arith,
}
use bittorrent_over_scion.Bitfield.{Bitfield, has_piece}
use bittorrent_over_scion.Bitfield.Pieces.{
  has_piece-set_piece, set_piece-IsBytes, length-set_piece, has_piece-zeros,
}
use bittorrent_over_scion.TorrentFile.{TorrentFile}
use bittorrent_over_scion.Server.{set_pieces, full_bitfield}

set_pieces-IsBytes : (n : ℕ) (bf : Bitfield) → IsBytes bf → IsBytes (set_pieces n bf)
unfolding set_pieces
set_pieces-IsBytes zero bf h = h
set_pieces-IsBytes (suc n) bf h =
    set_piece-IsBytes (set_pieces n bf) (pos n) (set_pieces-IsBytes n bf h)

length-set_pieces : (n : ℕ) (bf : Bitfield) → length (set_pieces n bf) ≡ length bf
unfolding set_pieces
length-set_pieces zero bf = refl
length-set_pieces (suc n) bf = length-set_piece (set_pieces n bf) (pos n) ∙ length-set_pieces n bf

has_piece-set_pieces :
    (n : ℕ) (bf : Bitfield) (j : ℤ)
    → IsBytes bf
    → n ≤ 8 * length bf
    → has_piece (set_pieces n bf) j ≡ ((not (is_neg j) && ltb (pos_part j) n) || has_piece bf j)
unfolding set_pieces
has_piece-set_pieces zero bf j h k = ground arith
has_piece-set_pieces (suc n) bf j h k = ground (
  arith,
  has_piece-set_piece (set_pieces n bf) (pos n) j (set_pieces-IsBytes n bf h),
  has_piece-set_pieces n bf j h (omega arith),
  length-set_pieces n bf,
)

-- The bitfield of a new server has exactly the pieces of the torrent: the numbers from 0 on, one
-- for each piece hash.
pub has_piece-full_bitfield :
    {Addr : Type 0} (tf : TorrentFile Addr) (j : ℤ)
    → has_piece (full_bitfield tf) j ≡ (not (is_neg j) && ltb (pos_part j) (length tf.piece_hashes))
unfolding full_bitfield
has_piece-full_bitfield tf j =
    let n = length tf.piece_hashes in
    ground (
      arith,
      has_piece-set_pieces n (replicate n 0) j (All-replicate IsByte n 0 (omega arith))
          (omega (arith, length-replicate {0} {A = ℕ} n 0)),
      has_piece-zeros n j,
    )
