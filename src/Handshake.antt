-- ===== src/Handshake.antt =====
-- handshake/handshake.go: the message by which two peers introduce themselves. A string and an
-- array of 20 bytes are lists; `IsHandshake` of Handshake/Wire says that the arrays have their length.
pub mod Wire
mod Examples
use Prim.Native.Char.{code}
use Prim.Native.String.{String}
use bittorrent_over_scion.Common.{
  ℕ, ◌+◌, ◌-◌, ◌%◌, min, List, [], ◌∷◌, Bool, true, false, not, ◌==◌, ltb, if◌then◌else◌, length,
  replicate, take, drop, get_or, set, bit_or, copy_at, Result, ok, err, pstrlen_zero, M, ◌>>=◌,
  pure, fail,
}
use bittorrent_over_scion.Common.Stream.{Conn}

pub record Handshake : Type 0 where
  pub pstr : List ℕ
  pub info_hash : List ℕ  -- [20]byte
  pub peer_id : List ℕ  -- [20]byte
  pub dht_support : Bool

codes : String → List ℕ
codes String.[] = []
codes (String.◌∷◌ c s) = code c ∷ codes s

unfoldable pub protocol : List ℕ
unfolding codes
protocol = codes "BitTorrent protocol"

unfoldable pub new : List ℕ → List ℕ → Bool → Handshake
new info_hash peer_id dht_support = record {
  pstr = protocol;
  info_hash = info_hash;
  peer_id = peer_id;
  dht_support = dht_support;
}

unfoldable pub new_empty : Handshake
new_empty = record {
  pstr = protocol;
  info_hash = replicate 20 0;
  peer_id = replicate 20 0;
  dht_support = false;
}

-- `bytes[7] |= 1`
unfoldable pub get_reserved_bytes : Handshake → List ℕ
get_reserved_bytes h =
    let bytes = replicate 8 0 in
    if h.dht_support then set bytes 7 (bit_or (get_or bytes 7 0) 1) else bytes

-- `curr += copy(buf[curr:], src)`: `copy` returns how many bytes it copied.
unfoldable pub put_part : List ℕ × ℕ → List ℕ → List ℕ × ℕ
put_part (buf, curr) src = (copy_at buf curr src, curr + min (length buf - curr) (length src))

-- `byte(len(h.Pstr))` keeps the low 8 bits.
unfoldable pub serialize : Handshake → List ℕ
serialize h =
    let buf = set (replicate (length h.pstr + 49) 0) 0 (length h.pstr % 256) in
    (put_part (put_part (put_part (put_part (buf, 1) h.pstr) (get_reserved_bytes h)) h.info_hash)
      h.peer_id).0

-- The slices of the buffer that follows the length byte. `(reserved[7] & 1) > 0`
unfoldable pub of_buffer : ℕ → List ℕ → Handshake
of_buffer pstrlen buf = record {
  pstr = take pstrlen buf;
  info_hash = take 20 (drop (pstrlen + 8) buf);
  peer_id = take 20 (drop (pstrlen + 28) buf);
  dht_support = not (get_or (take 8 (drop pstrlen buf)) 7 0 % 2 == 0);
}

read_rest : (c : Conn) → ℕ → M c.State Handshake
read_rest c pstrlen = do buf ← c.read_full (48 + pstrlen); pure (of_buffer pstrlen buf)

unfoldable pub read : (c : Conn) → M c.State Handshake
unfolding read_rest
read c = do
  length_buf ← c.read_full 1
  if get_or length_buf 0 0 == 0 then fail pstrlen_zero else read_rest c (get_or length_buf 0 0)
