-- ===== src/Server/Sessions.antt =====
-- server/server.go: handleConnection over a whole connection.
use bittorrent_over_scion.Common.{
  ℕ, suc, ◌+◌, ◌<◌, ◌^◌, ◌≡◌, refl, sym, List, [], ◌∷◌, ◌++◌, append_assoc, true, length, pos, ok,
  All,
}
use bittorrent_over_scion.Common.Stream.{
  Conn, View, IsStream, Runs, Runs-bind, Runs-then, Runs-pure, Runs-try, Runs-cast,
}
use bittorrent_over_scion.Handshake
use bittorrent_over_scion.Handshake.{Handshake}
use bittorrent_over_scion.Handshake.Wire.{IsHandshake}
use bittorrent_over_scion.Message.{Message}
use bittorrent_over_scion.Message.Wire.{frame, read-frame, read-keep_alive}
use bittorrent_over_scion.Message.Formats.{format_request-IsMessage}
use bittorrent_over_scion.Message.Blocks.{piece_message}
use bittorrent_over_scion.Server.{
  Server, handle_message, next_message, handle_loop, handle_connection,
}
use bittorrent_over_scion.Server.Handshaking.{reply, handle_incoming_handshake-Runs}
use bittorrent_over_scion.Server.Requests.{IsBlock, request_of, handle_request-Runs}

-- A request for a block, with the part of the file around it.
pub record Request : Type 0 where
  pub index : ℕ
  pub begin : ℕ
  pub pre : List ℕ
  pub block : List ℕ
  pub post : List ℕ

abbrev pub InFile : List ℕ → ℕ → Request → Type 0
InFile file pl r = IsBlock file pl r.index r.begin r.pre r.block r.post

abbrev pub keep_alive : List ℕ
keep_alive = 0 ∷ 0 ∷ 0 ∷ 0 ∷ []

-- The requests on the wire, and the answers.
abbrev pub requests : List Request → List ℕ
requests [] = []
requests (r ∷ rs) = frame (request_of r.index r.begin r.block) ++ requests rs

abbrev pub answers : List Request → List ℕ
answers [] = []
answers (r ∷ rs) = frame (piece_message r.index r.begin r.block) ++ answers rs

module _ {Addr : Type 0} (c : Conn) (s : Server Addr) (v : View c.State)
    (stream : IsStream c v) where
  -- One message that is handled, then the rest of the loop.
  pub loop_step :
      (m : Message) (fuel : ℕ) (inp out rest more : List ℕ)
      → length m.payload + 5 < 2 ^ 32
      → Runs v (handle_message c s m) inp (ok tt) inp out
      → Runs v (handle_loop c s fuel) inp (ok tt) rest more
      → Runs v (handle_loop c s (suc fuel)) (frame m ++ inp) (ok tt) rest (out ++ more)
  unfolding handle_loop next_message
  loop_step m fuel inp out rest more fits h k =
      Runs-bind _ (read-frame c v stream m inp fits) (Runs-then h k)

  pub loop_end :
      (fuel : ℕ) (rest : List ℕ)
      → Runs v (handle_loop c s (suc fuel)) (keep_alive ++ rest) (ok tt) rest []
  unfolding handle_loop next_message
  loop_end fuel rest = Runs-bind _ (read-keep_alive c v stream rest) (Runs-pure tt rest)

  module _ (pl : ℕ) (piece_length : s.torrent_file.piece_length ≡ pos pl) where
    pub handle_loop-answers :
        (rs : List Request) (rest : List ℕ)
        → All (InFile s.torrent_file.content.bytes pl) rs
        → Runs v
            (handle_loop c s (suc (length rs)))
            (requests rs ++ (keep_alive ++ rest))
            (ok tt)
            rest
            (answers rs)
    handle_loop-answers [] rest h = loop_end 0 rest
    handle_loop-answers (r ∷ rs) rest (b, h) =
        Runs-cast
          (sym (
            append_assoc (frame (request_of r.index r.begin r.block)) (requests rs)
              (keep_alive ++ rest)))
          refl refl
          (loop_step (request_of r.index r.begin r.block) (suc (length rs)) _ _ rest _
            (format_request-IsMessage _ _ _).fits
            (handle_request-Runs c s pl piece_length v stream r.index r.begin r.pre r.block r.post b
              _)
            (handle_loop-answers rs rest h))

    -- On a working connection where a well-formed handshake of any torrent waits, then requests for
    -- blocks of the served file whose numbers fit 32 bits, then a keep-alive, a server whose piece
    -- length is not negative, whose bitfield fits a message and whose file's size fits an int
    -- answers the handshake and then each request, in order, with the piece message that holds just
    -- the requested bytes, and stops at the keep-alive with no error. The fuel is one more than the
    -- number of requests.
    pub handle_connection-answers :
        (h : Handshake) (rs : List Request) (rest : List ℕ)
        → IsHandshake h
        → length s.bitfield + 5 < 2 ^ 32
        → All (InFile s.torrent_file.content.bytes pl) rs
        → Runs v
            (handle_connection c s (suc (length rs)) true)
            (Handshake.serialize h ++ (requests rs ++ (keep_alive ++ rest)))
            (ok tt)
            rest
            (reply s h ++ answers rs)
    unfolding handle_connection
    handle_connection-answers h rs rest w fits blocks =
        Runs-bind _ (Runs-try (handle_incoming_handshake-Runs c v stream s h _ w fits))
          (handle_loop-answers rs rest blocks)
