-- ===== src/P2p/Exchange/Corrupt.antt =====
-- p2p/p2p.go: a round of a worker whose peer answers every request, but with bytes that are not the
-- piece's.
use bittorrent_over_scion.Common.{
  ℕ, suc, ◌+◌, ◌<◌, ◌≡◌, ◌≢◌, ◌^◌, ap, ◌∙◌, List, ◌++◌, append_assoc, Bool, true, false, length,
  bytes_equal, bytes_equal→eq, Bool-cases, inl, inr, pos, fatal,
}
use bittorrent_over_scion.Common.Stream.{Conn, View, IsStream}
use bittorrent_over_scion.Bitfield.{has_piece}
use bittorrent_over_scion.Message.{format_have}
use bittorrent_over_scion.Message.Wire.{frame}
use bittorrent_over_scion.Client.{Client}
use bittorrent_over_scion.P2p.{PieceWork}
use bittorrent_over_scion.P2p.Integrity.{Round, died, delivered, check_integrity, work_round}
use bittorrent_over_scion.P2p.Pipeline.{asks}
use bittorrent_over_scion.P2p.Exchange.{IsPlan}
use bittorrent_over_scion.P2p.Exchange.Turns.{block_frames, joined}
use bittorrent_over_scion.P2p.Exchange.Whole.{lengths}
use bittorrent_over_scion.P2p.Exchange.Piece.{attempt_download_piece-asks}
use bittorrent_over_scion.Session.Delivery.{have-Runs}

module _ {Addr : Type 0} (sha1 : List ℕ → List ℕ) (c : Conn) (v : View c.State) where
  -- A round that comes to `round`, leaves `rest` of the input and sends `out`.
  pub record Ends (checked : Bool) (fuel : ℕ) (cl : Client Addr) (pw : PieceWork) (s : c.State)
      (round : Round Addr) (rest out : List ℕ) : Type 0 where
    pub after : c.State
    pub ends : work_round sha1 c checked fuel cl pw s ≡ (round, after)
    pub left : v.incoming after ≡ rest
    pub sent : v.sent after ≡ v.sent s ++ out

  -- On a working connection to a peer that does not choke, that has the piece and that answers
  -- every request, but with blocks which joined have another hash than the torrent's: a worker that
  -- checks ends the program after the requests, and sends no HAVE; a worker of a connection found
  -- later sends a HAVE after the requests and delivers the wrong bytes. The blocks have the sizes
  -- that the code asks for, and the lengths fit a message.
  pub work_round-tampered :
      (stream : IsStream c v) (index : ℕ) (cl : Client Addr) (hash : List ℕ)
      (blocks : List (List ℕ)) (rest : List ℕ) (s : c.State)
      → index < 2 ^ 32
      → cl.choked ≡ false
      → has_piece cl.bitfield (pos index) ≡ true
      → length (joined blocks) + 13 < 2 ^ 32
      → IsPlan (length (joined blocks)) 0 (lengths blocks)
      → sha1 (joined blocks) ≢ hash
      → v.incoming s ≡ block_frames index 0 blocks ++ rest
      → let fuel = suc (length blocks) in
        let pw : PieceWork = record {
          index = pos index;
          hash = hash;
          length = pos (length (joined blocks));
        } in
        let asked = asks (pos index) 0 (lengths blocks) in
        Ends true fuel cl pw s (died fatal) rest asked
        × Ends false fuel cl pw s
            (delivered cl (record { index = pos index; buf = joined blocks }))
            rest
            (asked ++ frame (format_have (pos index)))
  unfolding work_round check_integrity
  work_round-tampered stream index cl hash blocks rest s small free has fits plan wrong at =
      let (p, runs, content, same) =
        attempt_download_piece-asks c v stream index small cl free hash blocks rest fits plan in
      let (t, ends, left, sent) = runs.run s at in
      let (u, told, left₂, sent₂) = (have-Runs c v stream index rest).run t left in
      elim (Bool-cases (bytes_equal (sha1 (joined blocks)) hash)) [
        | inl e ↦ absurd (wrong (bytes_equal→eq _ _ e))
        | inr other ↦ (
          record { after = t; ends = simp (has, ends, content, other); left = left; sent = sent },
          record {
            after = u;
            ends = simp (has, ends, told, content, same);
            left = left₂;
            sent =
                sent₂
                ∙ ap (λ l. l ++ frame (format_have (pos index))) sent
                ∙ append_assoc (v.sent s) _ (frame (format_have (pos index)));
          },
        )
      ]
