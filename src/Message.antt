-- ===== src/Message.antt =====
-- message/message.go: the messages of the peer protocol, their bytes, and the reading of one
-- message from a connection. A pointer that may be nil is an `Option`; nil is a keep-alive.
pub mod Wire
pub mod Formats
pub mod Blocks
mod Examples
use bittorrent_over_scion.Common.{
  ℕ, ◌+◌, ◌%◌, ◌^◌, List, [], ◌∷◌, Bool, true, false, Option, none, some, ◌==◌, ltb, leb, not,
  if◌then◌else◌, length, replicate, drop, take, get_or, set, ℤ, pos, to_u32, eqb_ℤ, copy_at,
  u32_bytes, u32_of, u16_bytes, u16_of, Result, ok, err, halt, panic, wrong_id, payload_short,
  payload_length, wrong_index, begin_too_high, data_too_long, M, ◌>>=◌, pure, and_then,
}
use bittorrent_over_scion.Common.Stream.{Conn}

-- The numbers of the messages.
abbrev pub msg_choke : ℕ
msg_choke = 0

abbrev pub msg_unchoke : ℕ
msg_unchoke = 1

abbrev pub msg_interested : ℕ
msg_interested = 2

abbrev pub msg_not_interested : ℕ
msg_not_interested = 3

abbrev pub msg_have : ℕ
msg_have = 4

abbrev pub msg_bitfield : ℕ
msg_bitfield = 5

abbrev pub msg_request : ℕ
msg_request = 6

abbrev pub msg_piece : ℕ
msg_piece = 7

abbrev pub msg_cancel : ℕ
msg_cancel = 8

abbrev pub msg_port : ℕ
msg_port = 9

pub record Message : Type 0 where
  pub id : ℕ  -- uint8
  pub payload : List ℕ

abbrev make_slice : ℕ → List ℕ
make_slice n = replicate n 0

-- `payload[0:4]`, `payload[4:8]` and `payload[8:12]` receive the low 32 bits of each number.
unfoldable pub format_request : ℤ → ℤ → ℤ → Message
format_request index begin length =
    let payload = copy_at (make_slice 12) 0 (u32_bytes (to_u32 index)) in
    let payload = copy_at payload 4 (u32_bytes (to_u32 begin)) in
    let payload = copy_at payload 8 (u32_bytes (to_u32 length)) in
    record { id = msg_request; payload = payload }

unfoldable pub parse_request : Message → Result (ℤ × ℤ × ℤ)
parse_request msg =
    if not (msg.id == msg_request)
    then err (wrong_id msg_piece msg.id)
    else (if ltb (length msg.payload) 12
        then err (payload_short (length msg.payload))
        else ok (
          pos (u32_of msg.payload),
          pos (u32_of (drop 4 msg.payload)),
          pos (u32_of (drop 8 msg.payload)),
        ))

unfoldable pub format_have : ℤ → Message
format_have index = record {
  id = msg_have;
  payload = copy_at (make_slice 4) 0 (u32_bytes (to_u32 index));
}

unfoldable pub format_port : ℕ → Message
format_port dht_port = record {
  id = msg_port;
  payload = copy_at (make_slice 2) 0 (u16_bytes dht_port);
}

-- The checks of ParsePiece, in their order; on success the number of bytes and the new buffer.
unfoldable pub parse_piece : ℤ → List ℕ → Message → Result (ℕ × List ℕ)
parse_piece index buf msg =
    let parsed_index = u32_of msg.payload in
    let begin = u32_of (drop 4 msg.payload) in
    let block = drop 8 msg.payload in
    if not (msg.id == msg_piece)
    then err (wrong_id msg_piece msg.id)
    else (if ltb (length msg.payload) 8
        then err (payload_short (length msg.payload))
        else (if not (eqb_ℤ (pos parsed_index) index)
            then err (wrong_index parsed_index)
            else (if leb (length buf) begin
                then err (begin_too_high begin (length buf))
                else (if ltb (length buf) (begin + length block)
                    then err (data_too_long (length block) begin (length buf))
                    else ok (length block, copy_at buf begin block)))))

unfoldable pub parse_have : Message → Result ℤ
parse_have msg =
    if not (msg.id == msg_have)
    then err (wrong_id msg_have msg.id)
    else (if not (length msg.payload == 4)
        then err (payload_length 4 (length msg.payload))
        else ok (pos (u32_of msg.payload)))

unfoldable pub parse_port : Message → Result ℕ
parse_port msg =
    if not (msg.id == msg_port)
    then err (wrong_id msg_port msg.id)
    else (if not (length msg.payload == 2)
        then err (payload_length 2 (length msg.payload))
        else ok (u16_of msg.payload))

-- `length` and `4+length` are uint32: a payload near 4 GiB wraps, and the buffer is then too short
-- for `buf[4]`.
unfoldable pub serialize : Option Message → Result (List ℕ)
serialize none = ok (make_slice 4)
serialize (some m) =
    let length32 = (length m.payload + 1) % 2 ^ 32 in
    let size = (4 + length32) % 2 ^ 32 in
    let buf = copy_at (make_slice size) 0 (u32_bytes length32) in
    if ltb size 5 then halt panic else ok (copy_at (set buf 4 m.id) 5 m.payload)

-- What a complete body stands for.
abbrev pub of_body : List ℕ → Message
of_body body = record { id = get_or body 0 0; payload = drop 1 body }

read_body : (c : Conn) → ℕ → M c.State (Option Message)
read_body c length = do message_buf ← c.read_full length; pure (some (of_body message_buf))

-- A length of 0 is a keep-alive.
unfoldable pub read : (c : Conn) → M c.State (Option Message)
unfolding read_body
read c = do
  length_buf ← c.read_full 4
  if u32_of length_buf == 0 then pure none else read_body c (u32_of length_buf)
