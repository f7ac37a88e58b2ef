-- ===== src/P2p/Examples.antt =====
-- The theorems on downloads at concrete inputs.
use bittorrent_over_scion.Common.{
  ℕ, some, none, length, ◌<◌, ◌≡◌, refl, List, [], ◌∷◌, ◌++◌, true, false, pos, negsuc, copy_at,
  u32_bytes, u32_of, ok, halt, panic, arith,
}
use bittorrent_over_scion.Common.Stream.{Runs}
use bittorrent_over_scion.Common.Pipe.{Pipe, pipe, view, pipe-IsStream}
use bittorrent_over_scion.Config.{default_peer_disovery_config}
use bittorrent_over_scion.Message.{read, serialize, parse_piece, format_request, format_have}
use bittorrent_over_scion.Bitfield.{has_piece}
use bittorrent_over_scion.Client.{Client, send, send_request}
use bittorrent_over_scion.P2p.{
  Torrent, PieceWork, PieceResult, Progress, calculate_piece_size, queue_from, send_requests,
  attempt_download_piece, start_progress, download_loop, request_if_unchoked, block_size,
  requested_more, read_message, take_message?, take_message, take_block,
}
use bittorrent_over_scion.P2p.Bounds.{Sized, total, work_queue-total, excess_piece_panics}
use bittorrent_over_scion.P2p.Pipeline.{asks, Advances, send_requests-Advances}
use bittorrent_over_scion.P2p.Parcels.{Parcel, IsParcel, joined, deliveries}
use bittorrent_over_scion.P2p.Notes.{IsNote}
use bittorrent_over_scion.P2p.Transfer.{attempt_download_piece-gets}
use bittorrent_over_scion.P2p.Integrity.{
  delivered, work_round, check_integrity, work_round-verified,
}
use bittorrent_over_scion.P2p.Assembly.{assemble, assemble-content}

abbrev seeder : Client ℕ
seeder = record {
  choked = false;
  bitfield = 0xff ∷ [];
  peer = record { addr = []; index = pos 0 };
  info_hash = [];
  peer_id = [];
  discovery_config = default_peer_disovery_config ℕ;
  has_dht_node = false;
}

-- Six bytes in pieces of four.
abbrev torrent : Torrent
torrent = record { piece_hashes = [] ∷ [] ∷ []; piece_length = pos 4; length = pos 6 }

torrent-Sized : Sized torrent 4 6
torrent-Sized = record { piece_length_pos = refl; length_pos = refl; proper = omega arith }

work_queue-total_example : total (queue_from torrent 0 torrent.piece_hashes) ≡ 6
work_queue-total_example =
    work_queue-total torrent 4 6 torrent-Sized (omega arith) (omega arith) (omega arith)

abbrev nothing : Pipe
nothing = record { input = []; output = [] }

-- The third piece of a file that has two.
excess_piece_panics_example :
    attempt_download_piece pipe 9 seeder
      (record { index = pos 2; hash = []; length = calculate_piece_size torrent (pos 2) })
      nothing
    ≡ (halt panic, nothing)
excess_piece_panics_example =
    excess_piece_panics torrent 4 6 torrent-Sized 2 (omega arith) (omega arith) pipe 9 seeder []
      nothing

-- A file of 6 bytes, and its pieces, the last one first.
abbrev results : List PieceResult
results =
    record { index = pos 1; buf = 15 ∷ 16 ∷ [] }
    ∷ record { index = pos 0; buf = 11 ∷ 12 ∷ 13 ∷ 14 ∷ [] }
    ∷ []

abbrev file : List ℕ
file = 11 ∷ 12 ∷ 13 ∷ 14 ∷ 15 ∷ 16 ∷ []

assemble-content_example : assemble torrent results ≡ ok file
assemble-content_example =
    assemble-content torrent 4 6 torrent-Sized file refl (omega arith) results
      (
        record { number = 1; indexed = refl; inside = omega arith; right = refl },
        (record { number = 0; indexed = refl; inside = omega arith; right = refl }, tt),
      )
      (λ i h. ground arith)

-- One piece of three bytes, which comes in two blocks.
abbrev parcels : List Parcel
parcels = record { notes = []; block = 11 ∷ 12 ∷ [] } ∷ record { notes = []; block = 13 ∷ [] } ∷ []

-- The same blocks, with a keep-alive and a HAVE between them.
abbrev noted : List Parcel
noted =
    record { notes = []; block = 11 ∷ 12 ∷ [] }
    ∷ record { notes = none ∷ some (format_have (pos 7)) ∷ []; block = 13 ∷ [] }
    ∷ []

abbrev parcel : (b : List ℕ) → 0 < length b → IsParcel (record { notes = []; block = b })
parcel b h = record { nonempty = h; noted = tt }

have-IsNote : IsNote (format_have (pos 7))
unfolding format_have copy_at u32_bytes
have-IsNote = record { no_block = λ e. omega arith; whole_have = λ e. refl; fits = omega arith }

abbrev work : List ℕ → PieceWork
work hash = record { index = pos 1; hash = hash; length = pos 3 }

attempt_download_piece-gets_example :
    (p : Progress ℕ) × (out : List ℕ) × Runs view
      (attempt_download_piece pipe 5 seeder (work []))
      (deliveries 1 0 noted ++ [])
      (ok p)
      []
      out
    × (p.buf ≡ joined noted)
attempt_download_piece-gets_example =
    attempt_download_piece-gets pipe view pipe-IsStream 1 (omega arith) seeder [] noted []
      (omega arith)
      (
        parcel (11 ∷ 12 ∷ []) (omega arith),
        (record { nonempty = omega arith; noted = (tt, (have-IsNote, tt)) }, tt),
      )

abbrev start : Progress ℕ
start = record {
  index = pos 1;
  client = seeder;
  buf = 0 ∷ 0 ∷ 0 ∷ [];
  downloaded = 0;
  requested = 0;
  backlog = pos 0;
}

send_requests-Advances_example :
    (p' : Progress ℕ) × (sizes : List ℕ) × Runs view
      (send_requests pipe 4 3 start)
      []
      (ok p')
      []
      (asks (pos 1) 0 sizes)
    × Advances 3 start p' sizes
send_requests-Advances_example =
    send_requests-Advances pipe view pipe-IsStream 4 3 start [] (omega arith) (omega arith)

-- In place of SHA-1: the first byte.
abbrev first_byte : List ℕ → List ℕ
first_byte [] = []
first_byte (b ∷ bs) = b ∷ []

abbrev delivery : Pipe
delivery = record { input = deliveries 1 0 parcels ++ []; output = [] }

abbrev done : Progress ℕ
done = record {
  index = pos 1;
  client = seeder;
  buf = 11 ∷ 12 ∷ 13 ∷ [];
  downloaded = 3;
  requested = 3;
  backlog = negsuc 0;
}

download_ends :
    (hash : List ℕ) → (attempt_download_piece pipe 3 seeder (work hash) delivery).0 ≡ ok done
unfolding attempt_download_piece download_loop request_if_unchoked send_requests block_size
    requested_more start_progress read_message take_message? take_message take_block read serialize
    parse_piece send_request format_request send copy_at u32_bytes u32_of
download_ends hash = refl

seeder_has : has_piece seeder.bitfield (pos 1) ≡ true
unfolding has_piece
seeder_has = refl

right_delivered :
    (work_round first_byte pipe true 3 seeder (work (11 ∷ [])) delivery).0
    ≡ delivered seeder (record { index = pos 1; buf = done.buf })
unfolding work_round check_integrity
right_delivered = simp (seeder_has, download_ends (11 ∷ []))

work_round-verified_example :
    (has_piece seeder.bitfield (pos 1) ≡ true) × (first_byte done.buf ≡ 11 ∷ []) × (pos 1 ≡ pos 1)
work_round-verified_example =
    work_round-verified first_byte pipe 3 seeder (work (11 ∷ [])) delivery seeder
      (record { index = pos 1; buf = done.buf }) right_delivered
