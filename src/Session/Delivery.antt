-- ===== src/Session/Delivery.antt =====
-- p2p/p2p.go, server/server.go: a round of a worker with a seeder at the other end.
use bittorrent_over_scion.Common.{
  ℕ, ◌≡◌, refl, ap, ◌∙◌, List, [], ◌∷◌, ◌++◌, append_assoc, true, bytes_equal, some, pos, arith,
  Bool-cases, inl, inr, ok, try,
}
use bittorrent_over_scion.Common.Stream.{Conn, View, IsStream, Runs, Runs-try}
use bittorrent_over_scion.Message.{format_have}
use bittorrent_over_scion.Message.Wire.{frame}
use bittorrent_over_scion.Message.Formats.{format_have-IsMessage}
use bittorrent_over_scion.Bitfield.{has_piece}
use bittorrent_over_scion.Client.{send_have}
use bittorrent_over_scion.Client.Handshaking.{send-Runs}
use bittorrent_over_scion.P2p.{Progress, PieceWork, attempt_download_piece}
use bittorrent_over_scion.P2p.Integrity.{check_integrity, work_round}
use bittorrent_over_scion.P2p.Workers.{Worker, offering, after_round}

pub bytes_equal_refl : (xs : List ℕ) → bytes_equal xs xs ≡ true
bytes_equal_refl [] = refl
bytes_equal_refl (x ∷ xs) = ground (arith, bytes_equal_refl xs)

pub have-Runs :
    (c : Conn) (v : View c.State)
    → IsStream c v
    → (i : ℕ) (inp : List ℕ)
    → Runs v (try (send_have c (pos i))) inp (ok (ok tt)) inp (frame (format_have (pos i)))
unfolding send_have
have-Runs c v stream i inp =
    Runs-try (send-Runs c v stream (format_have (pos i)) inp (format_have-IsMessage (pos i)).fits)

module _ {Addr : Type 0} (sha1 : List ℕ → List ℕ) (c : Conn) (v : View c.State) where
  -- The worker after its round.
  pub record Delivered (w : Worker Addr c) (fuel : ℕ) (pw : PieceWork) (i : ℕ)
      (piece rest out : List ℕ) : Type 0 where
    pub conn : c.State
    pub offered :
        after_round sha1 c w pw (work_round sha1 c w.checked fuel w.client pw w.conn)
        ≡ some (record w { conn = conn; job = offering (record { index = pos i; buf = piece }) })
    pub left : v.incoming conn ≡ rest
    pub sent : v.sent conn ≡ v.sent w.conn ++ (out ++ frame (format_have (pos i)))

  module _ (stream : IsStream c v) where
    -- A round with a work whose hash is that of the bytes which the peer sends.
    pub work_round-Delivered :
        (w : Worker Addr c) (fuel i : ℕ) (piece inp rest out : List ℕ) (len : ℕ) (p : Progress Addr)
        → v.incoming w.conn ≡ inp
        → has_piece w.client.bitfield (pos i) ≡ true
        → Runs v
            (attempt_download_piece c fuel w.client
              (record { index = pos i; hash = sha1 piece; length = pos len }))
            inp
            (ok p)
            rest
            out
        → p.buf ≡ piece
        → p.client ≡ w.client
        → Delivered w fuel
            (record { index = pos i; hash = sha1 piece; length = pos len })
            i
            piece
            rest
            out
    unfolding work_round check_integrity after_round
    work_round-Delivered w fuel i piece inp rest out len p at has run content same =
        let (t, ends, left, sent) = run.run w.conn at in
        let (u, ends₂, left₂, sent₂) = (have-Runs c v stream i rest).run t left in
        record {
          conn = u;
          offered = elim (Bool-cases w.checked) [
            | inl yes_checked ↦
                simp (has, ends, ends₂, yes_checked, content, same, bytes_equal_refl)
            | inr unchecked ↦ simp (has, ends, ends₂, unchecked, content, same)
          ];
          left = left₂;
          sent =
              sent₂
              ∙ ap (λ l. l ++ frame (format_have (pos i))) sent
              ∙ append_assoc (v.sent w.conn) out (frame (format_have (pos i)));
        }
