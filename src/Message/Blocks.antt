-- ===== src/Message/Blocks.antt =====
-- message/message.go: ParsePiece, which copies a block into the buffer of its piece.
use bittorrent_over_scion.Common.{
  ℕ, ◌+◌, ◌-◌, ◌^◌, ◌≤◌, ◌<◌, ◌≡◌, ◌↔◌, refl, sym, ap, List, ◌++◌, length, drop, copy_at,
  copy_at-append, length-copy_at, u32_bytes, u32_of, length-u32_bytes, get_or, get_or-copy_at, leb,
  ltb, ◌&&◌, if◌then◌else◌, ok, ℤ, pos, arith, length-append,
}
use bittorrent_over_scion.Message.{Message, msg_piece, parse_piece}

-- The message that delivers a block.
abbrev pub piece_message : ℕ → ℕ → List ℕ → Message
piece_message index begin block = record {
  id = msg_piece;
  payload = u32_bytes index ++ (u32_bytes begin ++ block);
}

-- The conditions under which a block is taken.
pub record Accepts (index : ℤ) (size : ℕ) (m : Message) : Type 0 where
  pub is_piece : m.id ≡ msg_piece
  pub has_header : 8 ≤ length m.payload
  pub same_index : pos (u32_of m.payload) ≡ index
  pub begins_inside : u32_of (drop 4 m.payload) < size
  pub ends_inside : u32_of (drop 4 m.payload) + length (drop 8 m.payload) ≤ size

-- ParsePiece succeeds exactly on a piece message of the index that is asked for, whose block lies
-- within the buffer; it then returns the block's length, and the buffer with the block copied to
-- its offset.
pub parse_piece_iff :
    (index : ℤ) (buf : List ℕ) (m : Message) (n : ℕ) (buf' : List ℕ)
    → (parse_piece index buf m ≡ ok (n, buf')) ↔ (
        Accepts index (length buf) m
        × (n ≡ length (drop 8 m.payload))
        × (buf' ≡ copy_at buf (u32_of (drop 4 m.payload)) (drop 8 m.payload)))
unfolding parse_piece
parse_piece_iff index buf m n buf' = (λ h. ground arith, λ h. ground arith)

block_header :
    (index begin : ℕ) (block : List ℕ)
    → index < 2 ^ 32
    → begin < 2 ^ 32
    → let payload = u32_bytes index ++ (u32_bytes begin ++ block) in
      (u32_of payload ≡ index)
      × (u32_of (drop 4 payload) ≡ begin)
      × (drop 8 payload ≡ block)
      × (length payload ≡ 8 + length block)
unfolding u32_bytes u32_of
block_header index begin block h k = (omega arith, omega arith, refl, omega arith)

-- A block whose index and offset fit 32 bits, and whose offset lies in the buffer, replaces just
-- the part of the buffer at its offset, and the bytes around it stay.
pub parse_piece-piece_message :
    (index : ℕ) (pre old post block : List ℕ)
    → index < 2 ^ 32
    → length pre < 2 ^ 32
    → length old ≡ length block
    → 0 < length (old ++ post)
    → parse_piece (pos index) (pre ++ (old ++ post)) (piece_message index (length pre) block)
      ≡ ok (length block, pre ++ (block ++ post))
parse_piece-piece_message index pre old post block hi hb same room =
    let (e, f, g, n) = block_header index (length pre) block hi hb in
    (parse_piece_iff (pos index) (pre ++ (old ++ post)) (piece_message index (length pre) block)
        (length block) (pre ++ (block ++ post))).1
      (
        record {
          is_piece = refl;
          has_header = omega (arith, n);
          same_index = ap pos e;
          begins_inside = omega (arith, f, length-append {0} pre (old ++ post));
          ends_inside = omega (
            arith,
            f,
            ap length g,
            length-append {0} pre (old ++ post),
            length-append {0} old post,
          );
        },
        ap length (sym g),
        rw (f, g) (sym (copy_at-append pre old post block same)),
      )

-- When ParsePiece succeeds, the buffer keeps its length; the block stands at the offset that the
-- message names, and every other byte is what it was.
pub parse_piece_writes :
    (index : ℤ) (buf : List ℕ) (m : Message) (n : ℕ) (buf' : List ℕ)
    → parse_piece index buf m ≡ ok (n, buf')
    → let begin = u32_of (drop 4 m.payload) in
      (length buf' ≡ length buf)
      × (begin + n ≤ length buf)
      × ((i : ℕ)
          → get_or buf' i 0 ≡ (
              if leb begin i && ltb i (begin + n)
              then get_or (drop 8 m.payload) (i - begin) 0
              else get_or buf i 0))
parse_piece_writes index buf m n buf' h =
    let (a, en, eb) = (parse_piece_iff index buf m n buf').0 h in
    rw (eb, en) (length-copy_at buf _ _, a.ends_inside, λ i. get_or-copy_at buf _ _ i a.ends_inside)

pub length-piece_message :
    (index begin : ℕ) (block : List ℕ)
    → length (piece_message index begin block).payload ≡ 8 + length block
length-piece_message index begin block = omega (
  arith,
  length-append (u32_bytes index) (u32_bytes begin ++ block),
  length-append (u32_bytes begin) block,
  length-u32_bytes index,
  length-u32_bytes begin,
)
