-- ===== src/Bitfield/Examples.antt =====
-- Tests of the bitfield, and its theorems at concrete inputs.
use bittorrent_over_scion.Common.{
  ◌≡◌, refl, [], ◌∷◌, true, false, ◌&&◌, ◌||◌, pos, negsuc, eqb_ℤ, arith,
}
use bittorrent_over_scion.Bitfield.{Bitfield, has_piece, set_piece}
use bittorrent_over_scion.Bitfield.Pieces.{in_range, has_piece-set_piece}

-- The table of bitfield_test.go: bits 1, 3, 5, 9, 11 and 13.
abbrev table : Bitfield
table = 0b01010100 ∷ 0b01010100 ∷ []

has_piece_fourth : has_piece table (pos 3) ≡ true
unfolding has_piece
has_piece_fourth = refl

has_piece_negative : has_piece (0xff ∷ 0xff ∷ []) (negsuc 2) ≡ false
unfolding has_piece
has_piece_negative = refl

set_piece_fifth : set_piece table (pos 4) ≡ 0b01011100 ∷ 0b01010100 ∷ []
unfolding set_piece
set_piece_fifth = refl

set_piece_beyond : set_piece table (pos 19) ≡ table
unfolding set_piece
set_piece_beyond = refl

has_piece-set_piece_example :
    has_piece (set_piece table (pos 4)) (pos 4)
    ≡ ((eqb_ℤ (pos 4) (pos 4) && in_range table (pos 4)) || has_piece table (pos 4))
has_piece-set_piece_example = has_piece-set_piece table (pos 4) (pos 4) (omega arith)
