-- ===== src/P2p/Exchange/Examples.antt =====
-- The pipeline's theorems at a concrete input: a piece of one block that does not come, and one with other bytes.
use bittorrent_over_scion.Common.{
  ℕ, ◌<◌, ◌≡◌, refl, List, [], ◌∷◌, ◌++◌, true, false, length, pos, err, eof, fatal, arith,
}
use bittorrent_over_scion.Common.Stream.{Runs}
use bittorrent_over_scion.Common.Pipe.{pipe, view, pipe-IsStream}
use bittorrent_over_scion.Config.{default_peer_disovery_config}
use bittorrent_over_scion.Client.{Client}
use bittorrent_over_scion.P2p.{block_size, attempt_download_piece}
use bittorrent_over_scion.P2p.Pipeline.{asks}
use bittorrent_over_scion.P2p.Exchange.{IsPlan}
use bittorrent_over_scion.Bitfield.{has_piece}
use bittorrent_over_scion.Message.{format_have}
use bittorrent_over_scion.Message.Wire.{frame}
use bittorrent_over_scion.P2p.Integrity.{died, delivered}
use bittorrent_over_scion.P2p.Exchange.Turns.{block_frames}
use bittorrent_over_scion.P2p.Exchange.Corrupt.{Ends, work_round-tampered}
use bittorrent_over_scion.P2p.Exchange.Piece.{attempt_download_piece-waits}

abbrev client : Client ℕ
client = record {
  choked = false;
  bitfield = 0xc0 ∷ 0 ∷ [];
  peer = record { addr = []; index = pos 0 };
  info_hash = [];
  peer_id = [];
  discovery_config = default_peer_disovery_config ℕ;
  has_dht_node = false;
}

one_block : IsPlan 3 0 (3 ∷ [])
unfolding block_size
one_block = (omega arith, refl, refl)

attempt_download_piece-waits_example :
    (now onward : List ℕ) × (3 ∷ [] ≡ now ++ onward)
    × (0 < length now)
    × Runs view
        (attempt_download_piece pipe 1 client (record { index = pos 7; hash = []; length = pos 3 }))
        []
        (err eof)
        []
        (asks (pos 7) 0 now)
attempt_download_piece-waits_example =
    attempt_download_piece-waits pipe view pipe-IsStream 7 (omega arith) client refl [] 3 [] 3 []
      (omega arith) one_block

has_second : has_piece client.bitfield (pos 1) ≡ true
unfolding has_piece
has_second = refl

-- In place of SHA-1: the first byte.
abbrev first_byte : List ℕ → List ℕ
first_byte [] = []
first_byte (b ∷ bs) = b ∷ []

work_round-tampered_example :
    Ends first_byte pipe view true 2 client
      (record { index = pos 1; hash = 12 ∷ []; length = pos 3 })
      (record { input = block_frames 1 0 ((11 ∷ 12 ∷ 13 ∷ []) ∷ []) ++ []; output = [] })
      (died fatal)
      []
      (asks (pos 1) 0 (3 ∷ []))
    × Ends first_byte pipe view false 2 client
        (record { index = pos 1; hash = 12 ∷ []; length = pos 3 })
        (record { input = block_frames 1 0 ((11 ∷ 12 ∷ 13 ∷ []) ∷ []) ++ []; output = [] })
        (delivered client (record { index = pos 1; buf = 11 ∷ 12 ∷ 13 ∷ [] }))
        []
        (asks (pos 1) 0 (3 ∷ []) ++ frame (format_have (pos 1)))
work_round-tampered_example =
    work_round-tampered first_byte pipe view pipe-IsStream 1 client (12 ∷ [])
      ((11 ∷ 12 ∷ 13 ∷ []) ∷ []) []
      (record { input = block_frames 1 0 ((11 ∷ 12 ∷ 13 ∷ []) ∷ []) ++ []; output = [] })
      (omega arith) refl has_second (omega arith) one_block (λ e. cc) refl
