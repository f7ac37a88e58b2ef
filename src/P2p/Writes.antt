-- ===== src/P2p/Writes.antt =====
-- p2p/p2p.go: the buffer of a piece after any blocks, for what attemptDownloadPiece leaves.
use bittorrent_over_scion.Common.{
  ℕ, ◌+◌, ◌≤◌, ◌≡◌, refl, ◌∙◌, List, [], ◌∷◌, ◌++◌, length, copy_at, length-copy_at, arith,
}

-- A block of a piece: its offset, and its bytes.
abbrev pub Block : Type 0
Block = ℕ × List ℕ

abbrev pub IsInside : ℕ → Block → Type 0
IsInside size b = b.0 + length b.1 ≤ size

-- The buffer after the blocks are written to it, one after the other.
unfoldable pub write_all : List Block → List ℕ → List ℕ
write_all [] buf = buf
write_all ((begin, bytes) ∷ blocks) buf = write_all blocks (copy_at buf begin bytes)

unfoldable pub sum_lengths : List Block → ℕ
sum_lengths [] = 0
sum_lengths ((begin, bytes) ∷ blocks) = length bytes + sum_lengths blocks

pub length-write_all :
    (blocks : List Block) (buf : List ℕ) → length (write_all blocks buf) ≡ length buf
unfolding write_all
length-write_all [] buf = refl
length-write_all ((begin, bytes) ∷ blocks) buf =
    length-write_all blocks (copy_at buf begin bytes) ∙ length-copy_at buf begin bytes

pub write_all-append :
    (xs ys : List Block) (buf : List ℕ) → write_all (xs ++ ys) buf ≡ write_all ys (write_all xs buf)
unfolding write_all
write_all-append [] ys buf = refl
write_all-append ((begin, bytes) ∷ xs) ys buf = write_all-append xs ys (copy_at buf begin bytes)

pub sum_lengths-append :
    (xs ys : List Block) → sum_lengths (xs ++ ys) ≡ sum_lengths xs + sum_lengths ys
unfolding sum_lengths
sum_lengths-append [] ys = omega arith
sum_lengths-append ((begin, bytes) ∷ xs) ys = omega (arith, sum_lengths-append xs ys)
