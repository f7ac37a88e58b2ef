-- ===== src/Message/Formats.antt =====
-- message/message.go: the FormatX functions against the ParseX functions.
use bittorrent_over_scion.Common.{
  ℕ, ◌^◌, ◌≤◌, ◌<◌, ◌≡◌, ◌↔◌, refl, ◌++◌, length, drop, copy_at, u32_bytes, u32_of, u16_bytes,
  u16_of, ok, ℤ, pos, to_u32, to_u32-lt, arith,
}
use bittorrent_over_scion.Message.{
  Message, msg_request, format_request, parse_request, format_have, parse_have, format_port,
  parse_port,
}
use bittorrent_over_scion.Message.Wire.{IsMessage}

pub request_payload :
    (index begin length : ℤ)
    → (format_request index begin length).payload
      ≡ u32_bytes (to_u32 index) ++ (u32_bytes (to_u32 begin) ++ u32_bytes (to_u32 length))
unfolding format_request copy_at u32_bytes
request_payload index begin length = refl

-- FormatRequest makes a message that can be sent, whatever the numbers.
pub format_request-IsMessage :
    (index begin length : ℤ) → IsMessage (format_request index begin length)
unfolding format_request copy_at u32_bytes
format_request-IsMessage index begin length = omega arith

-- ParseRequest on what FormatRequest made returns the low 32 bits of each of the three numbers, for
-- all integers.
pub parse_request-format_request :
    (index begin length : ℤ)
    → parse_request (format_request index begin length)
      ≡ ok (pos (to_u32 index), pos (to_u32 begin), pos (to_u32 length))
unfolding parse_request format_request copy_at u32_bytes u32_of
parse_request-format_request index begin length =
    ground (arith, to_u32-lt index, to_u32-lt begin, to_u32-lt length)

-- ParseRequest accepts exactly the messages with the number of a request and 12 bytes at least.
pub parse_request_iff :
    (m : Message)
    → ((r : ℤ × ℤ × ℤ) × (parse_request m ≡ ok r))
      ↔ ((m.id ≡ msg_request) × (12 ≤ length m.payload))
unfolding parse_request
parse_request_iff m = (
  λ h. ground arith,
  λ h. (
    (pos (u32_of m.payload), pos (u32_of (drop 4 m.payload)), pos (u32_of (drop 8 m.payload))),
    ground arith,
  ),
)

pub format_have-IsMessage : (index : ℤ) → IsMessage (format_have index)
unfolding format_have copy_at u32_bytes
format_have-IsMessage index = omega arith

-- ParseHave on what FormatHave made returns the low 32 bits of the number, for all integers.
pub parse_have-format_have : (index : ℤ) → parse_have (format_have index) ≡ ok (pos (to_u32 index))
unfolding parse_have format_have copy_at u32_bytes u32_of
parse_have-format_have index = ground (arith, to_u32-lt index)

pub format_port-IsMessage : (port : ℕ) → IsMessage (format_port port)
unfolding format_port copy_at u16_bytes
format_port-IsMessage port = omega arith

-- A port of 16 bits survives FormatPort and ParsePort.
pub parse_port-format_port : (port : ℕ) → port < 2 ^ 16 → parse_port (format_port port) ≡ ok port
unfolding parse_port format_port copy_at u16_bytes u16_of
parse_port-format_port port h = ground arith
