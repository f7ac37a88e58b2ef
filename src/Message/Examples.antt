-- ===== src/Message/Examples.antt =====
-- Tests of the messages, and their theorems at concrete inputs.
use bittorrent_over_scion.Common.{
  ℕ, ◌+◌, ◌-◌, ◌≤◌, ◌≡◌, ◌↔◌, refl, List, [], ◌∷◌, ◌++◌, ◌&&◌, ltb, leb, if◌then◌else◌, some,
  length, drop, get_or, pos, u32_of, copy_at, u32_bytes, ok, err, wrong_index, arith,
}
use bittorrent_over_scion.Common.Stream.{Runs}
use bittorrent_over_scion.Common.Pipe.{pipe, view, pipe-IsStream}
use bittorrent_over_scion.Message.{Message, serialize, read, format_request, parse_piece}
use bittorrent_over_scion.Message.Wire.{read-serialize}
use bittorrent_over_scion.Message.Blocks.{Accepts, parse_piece_iff, parse_piece_writes}

-- The messages of message_test.go.
abbrev have_message : Message
have_message = record { id = 4; payload = 1 ∷ 2 ∷ 3 ∷ 4 ∷ [] }

serialize_have : serialize (some have_message) ≡ ok (0 ∷ 0 ∷ 0 ∷ 5 ∷ 4 ∷ 1 ∷ 2 ∷ 3 ∷ 4 ∷ [])
unfolding serialize copy_at u32_bytes
serialize_have = refl

format_request_test :
    format_request (pos 4) (pos 567) (pos 4321)
    ≡ record { id = 6; payload = 0 ∷ 0 ∷ 0 ∷ 4 ∷ 0 ∷ 0 ∷ 2 ∷ 0x37 ∷ 0 ∷ 0 ∷ 0x10 ∷ 0xe1 ∷ [] }
unfolding format_request copy_at u32_bytes
format_request_test = refl

-- The block of message_test.go: offset 2 of a buffer of ten bytes.
abbrev block_message : Message
block_message = record {
  id = 7;
  payload = 0 ∷ 0 ∷ 0 ∷ 4 ∷ 0 ∷ 0 ∷ 0 ∷ 2 ∷ 0xaa ∷ 0xbb ∷ 0xcc ∷ 0xdd ∷ 0xee ∷ 0xff ∷ [];
}

abbrev empty_buffer : List ℕ
empty_buffer = 0 ∷ 0 ∷ 0 ∷ 0 ∷ 0 ∷ 0 ∷ 0 ∷ 0 ∷ 0 ∷ 0 ∷ []

abbrev filled_buffer : List ℕ
filled_buffer = 0 ∷ 0 ∷ 0xaa ∷ 0xbb ∷ 0xcc ∷ 0xdd ∷ 0xee ∷ 0xff ∷ 0 ∷ 0 ∷ []

parse_piece_test : parse_piece (pos 4) empty_buffer block_message ≡ ok (6, filled_buffer)
unfolding parse_piece copy_at u32_of
parse_piece_test = refl

parse_piece_other : parse_piece (pos 5) empty_buffer block_message ≡ err (wrong_index 4)
unfolding parse_piece u32_of
parse_piece_other = refl

read-serialize_example :
    (bs : List ℕ) × (serialize (some have_message) ≡ ok bs)
    × Runs view (read pipe) (bs ++ (9 ∷ [])) (ok (some have_message)) (9 ∷ []) []
read-serialize_example =
    read-serialize pipe view pipe-IsStream (some have_message) (9 ∷ []) (omega arith)

parse_piece_iff_example :
    (parse_piece (pos 4) empty_buffer block_message ≡ ok (6, filled_buffer)) ↔ (
      Accepts (pos 4) 10 block_message
      × (6 ≡ length (drop 8 block_message.payload))
      × (filled_buffer
          ≡ copy_at empty_buffer
              (u32_of (drop 4 block_message.payload))
              (drop 8 block_message.payload)))
parse_piece_iff_example = parse_piece_iff (pos 4) empty_buffer block_message 6 filled_buffer

parse_piece_writes_example :
    (length filled_buffer ≡ length empty_buffer)
    × (u32_of (drop 4 block_message.payload) + 6 ≤ length empty_buffer)
    × ((i : ℕ)
        → get_or filled_buffer i 0 ≡ (
            if leb (u32_of (drop 4 block_message.payload)) i
              && ltb i (u32_of (drop 4 block_message.payload) + 6)
            then get_or (drop 8 block_message.payload) (i - u32_of (drop 4 block_message.payload)) 0
            else get_or empty_buffer i 0))
parse_piece_writes_example =
    parse_piece_writes (pos 4) empty_buffer block_message 6 filled_buffer parse_piece_test
