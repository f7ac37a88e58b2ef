-- ===== src/Server/Requests.antt =====
-- server/server.go: the answer to a REQUEST, within the file and beyond it.
use mathlib.Core.Path.{subst, fun_ext}
use bittorrent_over_scion.Common.{
  ℕ, ◌+◌, ◌-◌, ◌*◌, ◌<◌, ◌≤◌, ◌%◌, ◌^◌, ◌≡◌, refl, sym, ap, ◌∙◌, List, ◌++◌, append_assoc, length,
  length-append, replicate, ℤ, pos, add_int, mul_int, add_int-pos, mul_int-pos, max_int, copy_at,
  u32_bytes, length-u32_bytes, ok, halt, panic, arith, le→ltb, drop-append_length,
  take-append_length,
}
use bittorrent_over_scion.Common.Stream.{Conn, View, IsStream, Runs, Runs-bind, Runs-pure}
use bittorrent_over_scion.Message.{Message, format_request, msg_request, parse_request}
use bittorrent_over_scion.Message.Formats.{parse_request-format_request}
use bittorrent_over_scion.Message.Wire.{frame}
use bittorrent_over_scion.Message.Blocks.{piece_message}
use bittorrent_over_scion.Client.{send}
use bittorrent_over_scion.Client.Handshaking.{send-Runs}
use bittorrent_over_scion.TorrentFile.{Slice}
use bittorrent_over_scion.Server.{Server, slice, piece_reply, answer_request, handle_message}

slice_within :
    (s : Slice) (pre block post : List ℕ)
    → s.bytes ≡ pre ++ (block ++ post)
    → slice s (pos (length pre)) (pos (length pre + length block)) ≡ ok block
unfolding slice
slice_within s pre block post e =
    let whole : s.bytes ++ s.spare ≡ pre ++ (block ++ (post ++ s.spare)) =
      rw e (simp append_assoc) in
    let size : length pre + length block - length pre ≡ length block = omega arith in
    let room : length pre + length block ≤ length (pre ++ (block ++ (post ++ s.spare))) = omega (
      arith,
      length-append pre (block ++ (post ++ s.spare)),
      length-append block (post ++ s.spare),
    ) in
    rw
      (
        whole,
        le→ltb (length pre + length block) (length pre) (omega arith),
        le→ltb _ _ room,
        size,
        drop-append_length,
      )
      (ap ok (take-append_length block (post ++ s.spare)))

slice_beyond :
    (s : Slice) (lo hi : ℕ)
    → length s.bytes + length s.spare < hi
    → slice s (pos lo) (pos hi) ≡ halt panic
unfolding slice
slice_beyond s lo hi h = ground (arith, length-append s.bytes s.spare)

header_bytes :
    (i b : ℕ) (block : List ℕ)
    → copy_at (copy_at (replicate 8 0) 0 (u32_bytes i)) 4 (u32_bytes b) ++ block
      ≡ u32_bytes i ++ (u32_bytes b ++ block)
unfolding copy_at u32_bytes
header_bytes i b block = refl

-- A block of the file: its piece and its place in it, with the bytes before and behind it.
pub record IsBlock (file : List ℕ) (piece_length index begin : ℕ) (pre block post : List ℕ)
    : Type 0 where
  pub placed : file ≡ pre ++ (block ++ post)
  pub offset : length pre ≡ index * piece_length + begin
  pub index_u32 : index < 2 ^ 32
  pub begin_u32 : begin < 2 ^ 32
  pub block_u32 : length block + 13 < 2 ^ 32
  pub file_int : length file ≤ max_int

abbrev pub request_of : ℕ → ℕ → List ℕ → Message
request_of index begin block = format_request (pos index) (pos begin) (pos (length block))

-- The bounds of the slice, where nothing overflows.
bounds :
    (index begin len pl : ℕ)
    → index * pl + begin + len ≤ max_int
    → (add_int (mul_int (pos index) (pos pl)) (pos begin) ≡ pos (index * pl + begin))
      × (add_int (pos (index * pl + begin)) (pos len) ≡ pos (index * pl + begin + len))
bounds index begin len pl h =
    let product : mul_int (pos index) (pos pl) ≡ pos (index * pl) =
      mul_int-pos index pl (omega arith) in
    (
      rw product (add_int-pos (index * pl) begin (omega arith)),
      add_int-pos (index * pl + begin) len h,
    )

request-id : (index begin len : ℤ) → (format_request index begin len).id ≡ msg_request
unfolding format_request
request-id index begin len = refl

low : (n : ℕ) → n < 2 ^ 32 → n % 2 ^ 32 ≡ n
low n h = omega arith

parse_u32 :
    (index begin len : ℕ)
    → index < 2 ^ 32
    → begin < 2 ^ 32
    → len < 2 ^ 32
    → parse_request (format_request (pos index) (pos begin) (pos len))
      ≡ ok (pos index, pos begin, pos len)
parse_u32 index begin len hi hb hl =
    parse_request-format_request (pos index) (pos begin) (pos len)
    ∙ rw (low index hi, low begin hb, low len hl)

module _ {Addr : Type 0} (c : Conn) (s : Server Addr) where
  handle_parsed :
      (m : Message) (r : ℤ × ℤ × ℤ)
      → m.id ≡ msg_request
      → parse_request m ≡ ok r
      → (st : c.State) → handle_message c s m st ≡ answer_request c s r st
  unfolding handle_message
  handle_parsed m r e p st = simp (e, p)

  module _ (pl : ℕ) (piece_length : s.torrent_file.piece_length ≡ pos pl) where
    handle_request :
        (index begin len : ℕ)
        → index < 2 ^ 32
        → begin < 2 ^ 32
        → len < 2 ^ 32
        → (st : c.State)
        → handle_message c s (format_request (pos index) (pos begin) (pos len)) st
          ≡ answer_request c s (pos index, pos begin, pos len) st
    handle_request index begin len hi hb hl =
        handle_parsed _ _ (request-id _ _ _) (parse_u32 index begin len hi hb hl)

    answer_request_panics :
        (index begin len : ℕ) (st : c.State)
        → index * pl + begin + len ≤ max_int
        → length s.torrent_file.content.bytes + length s.torrent_file.content.spare
          < index * pl + begin + len
        → answer_request c s (pos index, pos begin, pos len) st ≡ (halt panic, st)
    unfolding answer_request
    answer_request_panics index begin len st fits beyond =
        let (lo, hi) = bounds index begin len pl fits in
        rw (piece_length, lo, hi, slice_beyond s.torrent_file.content _ _ beyond)

    -- Where the piece length is not negative and no int overflows, a request of 32-bit numbers that
    -- ends beyond the content and its spare capacity is not refused: the handler panics, whatever
    -- the connection does.
    pub handle_request_panics :
        (index begin len : ℕ) (st : c.State)
        → index < 2 ^ 32
        → begin < 2 ^ 32
        → len < 2 ^ 32
        → index * pl + begin + len ≤ max_int
        → length s.torrent_file.content.bytes + length s.torrent_file.content.spare
          < index * pl + begin + len
        → handle_message c s (format_request (pos index) (pos begin) (pos len)) st
          ≡ (halt panic, st)
    handle_request_panics index begin len st hi hb hl fits beyond =
        handle_request index begin len hi hb hl st
        ∙ answer_request_panics index begin len st fits beyond

    module _ (v : View c.State) (stream : IsStream c v) where
      module _ (index begin : ℕ) (pre block post : List ℕ)
          (b : IsBlock s.torrent_file.content.bytes pl index begin pre block post) where
        size : index * pl + begin + length block ≤ max_int
        size = omega (
          arith,
          b,
          ap length b.placed,
          length-append pre (block ++ post),
          length-append block post,
        )

        read_block :
            let start = add_int (mul_int (pos index) s.torrent_file.piece_length) (pos begin) in
            slice s.torrent_file.content start (add_int start (pos (length block))) ≡ ok block
        read_block =
            let (lo, hi) = bounds index begin (length block) pl size in
            rw (piece_length, lo, hi, ← b.offset)
              (slice_within s.torrent_file.content pre block post b.placed)

        header : piece_reply (pos index) (pos begin) block ≡ piece_message index begin block
        unfolding piece_reply
        header = rw (low index b.index_u32, low begin b.begin_u32, header_bytes index begin block)

        piece_fits : length (piece_message index begin block).payload + 5 < 2 ^ 32
        piece_fits = omega (
          arith,
          b.block_u32,
          length-append (u32_bytes index) (u32_bytes begin ++ block),
          length-append (u32_bytes begin) block,
          length-u32_bytes index,
          length-u32_bytes begin,
        )

        answer_request-Runs :
            (inp : List ℕ)
            → Runs v
                (answer_request c s (pos index, pos begin, pos (length block)))
                inp
                (ok tt)
                inp
                (frame (piece_message index begin block))
        unfolding answer_request
        answer_request-Runs inp = rw read_block (
            Runs-bind (λ block'. send c (piece_reply (pos index) (pos begin) block'))
              (Runs-pure block inp)
              (rw header (send-Runs c v stream (piece_message index begin block) inp piece_fits)))

        -- A request for a block that lies within the file is answered by one PIECE message, with
        -- the numbers of the request and just the bytes of the file.
        pub handle_request-Runs :
            (inp : List ℕ)
            → Runs v
                (handle_message c s (request_of index begin block))
                inp
                (ok tt)
                inp
                (frame (piece_message index begin block))
        handle_request-Runs inp =
            subst (λ m. Runs v m inp (ok tt) inp (frame (piece_message index begin block)))
              (sym (
                fun_ext (
                  handle_request index begin (length block) b.index_u32 b.begin_u32
                    (omega (arith, b.block_u32)))))
              (answer_request-Runs inp)
