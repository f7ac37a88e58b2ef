-- ===== src/P2p/Scenario.antt =====
-- A whole download at a concrete input: a file of one piece, which one worker gets in two blocks.
mod Published
use mathlib.Core.Path.{ap, sym}
use bittorrent_over_scion.Common.{
  ℕ, ◌≡◌, refl, List, [], ◌∷◌, ◌++◌, true, false, some, none, pos, negsuc, copy_at, u32_bytes,
  u32_of, ok, inr, arith, zero, suc, ◌+◌, get_elem?, get_or, ◌∙◌, add_int, replicate, length,
  bytes_equal, bytes_equal→eq, if◌then◌else◌, Bool-cases, inl, ◌*◌, ◌<◌, ℤ, Option, Result, mul_int,
  sub_int, wrap,
}
use bittorrent_over_scion.Common.Pipe.{Pipe, pipe}
use bittorrent_over_scion.Config.{default_peer_disovery_config}
use bittorrent_over_scion.Message.{read, serialize, parse_piece, format_request}
use bittorrent_over_scion.Bitfield.{has_piece}
use bittorrent_over_scion.Client.{Client, send, send_request}
use bittorrent_over_scion.P2p.{
  Torrent, PieceWork, PieceResult, Progress, calculate_bounds_for_piece, calculate_piece_size,
  queue_from, attempt_download_piece, start_progress, download_loop, request_if_unchoked,
  send_requests, block_size, requested_more, read_message, take_message?, take_message, take_block,
}
use bittorrent_over_scion.P2p.Bounds.{Sized}
use bittorrent_over_scion.P2p.Parcels.{Parcel, deliveries}
use bittorrent_over_scion.P2p.Integrity.{Round, delivered, work_round, check_integrity}
use bittorrent_over_scion.P2p.Assembly.{assemble, piece_of}
use bittorrent_over_scion.P2p.Workers.{
  Worker, Downloading, idle, working, offering, leaving, after_round, takes, works, offers, Step,
  acts, joins, retries, Reach, here, next, start, HasRoom,
}
use bittorrent_over_scion.P2p.Workers.Conservation.{in_all, Reach-weight}
use bittorrent_over_scion.P2p.Workers.Room.{put_back-HasRoom}
use bittorrent_over_scion.P2p.Download.{download-content}

abbrev pub file : List ℕ
file = 11 ∷ 12 ∷ 13 ∷ []

-- In place of SHA-1: 20 bytes that tell the file from all else.
abbrev pub marked : List ℕ → List ℕ
marked bs = if bytes_equal bs file then replicate 20 1 else replicate 20 0

pub marked-length : (bs : List ℕ) → length (marked bs) ≡ 20
marked-length bs = elim (Bool-cases (bytes_equal bs file)) [ inl e ↦ rw e refl | inr e ↦ rw e refl ]

marked-file : (bs : List ℕ) → marked bs ≡ marked file → bs ≡ file
marked-file bs e = elim (Bool-cases (bytes_equal bs file)) [
  | inl same ↦ bytes_equal→eq bs file same
  | inr other ↦
      let apart : replicate 20 0 ≡ replicate 20 1 = sym (rw other refl) ∙ e in
      absurd (omega (arith, ap (λ l. get_or l 0 0) apart))
]

first_piece : (i : ℕ) → i * 3 < 3 → i ≡ 0
first_piece i h = omega arith

pub no_other :
    (buf : List ℕ) (i : ℕ)
    → i * 3 < 3
    → marked buf ≡ marked (piece_of 3 file i)
    → buf ≡ piece_of 3 file i
no_other buf i h e =
    let start_at = ap (piece_of 3 file) (first_piece i h) in
    marked-file buf (e ∙ ap marked start_at) ∙ sym start_at

abbrev pub torrent : Torrent
torrent = record { piece_hashes = marked file ∷ []; piece_length = pos 3; length = pos 3 }

torrent-Sized : Sized torrent 3 3
torrent-Sized = record { piece_length_pos = refl; length_pos = refl; proper = omega arith }

abbrev seeder : Client ℕ
seeder = record {
  choked = false;
  bitfield = 0xff ∷ [];
  peer = record { addr = []; index = pos 0 };
  info_hash = [];
  peer_id = [];
  discovery_config = default_peer_disovery_config ℕ;
  has_dht_node = false;
}

abbrev work : PieceWork
work = record { index = pos 0; hash = marked file; length = pos 3 }

abbrev parcels : List Parcel
parcels = record { notes = []; block = 11 ∷ 12 ∷ [] } ∷ record { notes = []; block = 13 ∷ [] } ∷ []

abbrev delivery : Pipe
delivery = record { input = deliveries 0 0 parcels ++ []; output = [] }

abbrev done : Progress ℕ
done = record {
  index = pos 0;
  client = seeder;
  buf = file;
  downloaded = 3;
  requested = 3;
  backlog = negsuc 0;
}

download_ends : (attempt_download_piece pipe 3 seeder work delivery).0 ≡ ok done
unfolding attempt_download_piece download_loop request_if_unchoked send_requests block_size
    requested_more start_progress read_message take_message? take_message take_block read serialize
    parse_piece send_request format_request send copy_at u32_bytes u32_of
download_ends = refl

seeder_has : has_piece seeder.bitfield (pos 0) ≡ true
unfolding has_piece
seeder_has = refl

abbrev result : PieceResult
result = record { index = pos 0; buf = file }

abbrev round : Round ℕ × Pipe
round = work_round marked pipe true 3 seeder work delivery

round_delivers : round.0 ≡ delivered seeder result
unfolding work_round check_integrity
round_delivers = simp (seeder_has, download_ends)

-- The worker before, during and after its round.
abbrev fresh : Worker ℕ pipe
fresh = record { checked = true; client = seeder; conn = delivery; job = idle }

abbrev busy : Worker ℕ pipe
busy = record fresh { job = working work }

abbrev finished : Worker ℕ pipe
finished = record fresh { conn = round.1; job = offering result }

round_offers : after_round marked pipe busy work round ≡ some finished
unfolding after_round
round_offers = ap (λ x. after_round marked pipe busy work (x, round.1)) round_delivers

abbrev waiting : Downloading ℕ pipe
waiting = record {
  channels = record { queue = work ∷ []; results = []; closed = false };
  workers = fresh ∷ [];
}

abbrev taken : Downloading ℕ pipe
taken = record {
  channels = record { queue = []; results = []; closed = false };
  workers = busy ∷ [];
}

abbrev offered : Downloading ℕ pipe
offered = record taken { workers = finished ∷ [] }

abbrev pub received : Downloading ℕ pipe
received = record {
  channels = record { queue = []; results = result ∷ []; closed = false };
  workers = record finished { job = idle } ∷ [];
}

worker_takes : Step marked pipe 1 waiting taken
worker_takes = acts [] [] fresh busy refl refl (takes work [] refl refl refl refl)

worker_works : Step marked pipe 1 taken offered
worker_works = acts [] [] busy finished refl refl (works 3 work refl round_offers refl)

download_receives : Step marked pipe 1 offered received
download_receives =
    acts [] [] finished (record finished { job = idle }) refl refl
      (offers result refl (omega arith) refl refl)

worker_joins : Step marked pipe 1 (start marked pipe torrent) waiting
unfolding start queue_from calculate_piece_size calculate_bounds_for_piece add_int mul_int sub_int
    wrap
worker_joins = joins fresh refl refl

pub run : Reach marked pipe 1 (start marked pipe torrent) received
run = next (next (next (next here worker_joins) worker_takes) worker_works) download_receives

file_hashes :
    (j : ℕ) (hash : List ℕ)
    → get_elem? torrent.piece_hashes j ≡ some hash
    → hash ≡ marked (piece_of 3 file (0 + j))
file_hashes zero hash e = let same : marked file ≡ hash = cc in sym same
file_hashes (suc j) hash e = cc

download-content_example : assemble torrent received.channels.results ≡ ok file
download-content_example =
    download-content torrent 3 3 torrent-Sized file marked refl (omega arith) no_other (omega arith)
      (omega arith) pipe file_hashes received run (refl, tt) refl

Reach-weight_example :
    in_all (λ i. 1) received ≡ in_all (λ i. 1) (start {Addr = ℕ} marked pipe torrent)
Reach-weight_example = Reach-weight (λ i. 1) marked 1 run

-- The queue's only work is tried again after the workers have ended.
abbrev retrying : Worker ℕ pipe
retrying = record fresh { job = leaving work }

abbrev tried_again : Downloading ℕ pipe
tried_again = record {
  channels = record { queue = []; results = []; closed = false };
  workers = retrying ∷ [];
}

retry_run : Reach marked pipe 1 (start {Addr = ℕ} marked pipe torrent) tried_again
unfolding start queue_from calculate_piece_size calculate_bounds_for_piece add_int mul_int sub_int
    wrap
retry_run = next {u = tried_again} here (retries retrying work [] refl refl refl refl)

put_back-HasRoom_example : HasRoom 1 tried_again.channels
put_back-HasRoom_example =
    put_back-HasRoom marked pipe torrent tried_again [] [] retrying work retry_run refl (inr refl)
