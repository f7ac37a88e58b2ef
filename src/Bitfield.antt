-- ===== src/Bitfield.antt =====
-- bitfield/bitfield.go: the pieces that a peer has, one bit each, the first in the highest bit.
-- `HasPiece` and `SetPiece` take any `int`; a method that writes to the slice returns the new one.
pub mod Pieces
mod Examples
use bittorrent_over_scion.Common.{
  ℕ, ◌+◌, ◌-◌, ◌/◌, ◌%◌, ◌^◌, List, Bool, true, false, ◌||◌, not, ◌==◌, leb, if◌then◌else◌, bit_or,
  length, get_or, set, ℤ, pos, negsuc, quot, rem, is_neg, pos_part, neg_part, arith,
}

abbrev pub Bitfield : Type 0
Bitfield = List ℕ

-- `byteIndex < 0 || byteIndex >= len(bf)`
abbrev pub outside : Bitfield → ℤ → Bool
outside bf byte_index = is_neg byte_index || leb (length bf) (pos_part byte_index)

-- `uint(7-offset)`, where `offset` lies between -7 and 7.
abbrev pub shift_of : ℤ → ℕ
shift_of offset = 7 + neg_part offset - pos_part offset

unfoldable pub has_piece : Bitfield → ℤ → Bool
has_piece bf index =
    let byte_index = quot index 8 in
    let offset = rem index 8 in
    if outside bf byte_index
    then false
    else not (get_or bf (pos_part byte_index) 0 / 2 ^ shift_of offset % 2 == 0)

-- `1 << n` is a byte here: from `n = 8` on it is 0.
unfoldable pub set_piece : Bitfield → ℤ → Bitfield
set_piece bf index =
    let byte_index = quot index 8 in
    let offset = rem index 8 in
    let i = pos_part byte_index in
    if outside bf byte_index
    then bf
    else set bf i (bit_or (get_or bf i 0) (2 ^ shift_of offset % 256))
