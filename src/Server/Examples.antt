-- ===== src/Server/Examples.antt =====
-- The server's theorems at concrete inputs.
use bittorrent_over_scion.Common.{
  ℕ, ◌≡◌, refl, List, [], ◌∷◌, ◌++◌, true, false, ◌&&◌, ◌>>◌, pos, replicate, ok, halt, panic,
  arith,
}
use bittorrent_over_scion.Common.Stream.{Runs}
use bittorrent_over_scion.Common.Pipe.{pipe, view, pipe-IsStream}
use bittorrent_over_scion.Config.{PeerDiscoveryConfig, default_peer_disovery_config}
use bittorrent_over_scion.Handshake
use bittorrent_over_scion.Handshake.{Handshake}
use bittorrent_over_scion.Handshake.Wire.{new-IsHandshake}
use bittorrent_over_scion.Message.{format_request}
use bittorrent_over_scion.Bitfield.{set_piece}
use bittorrent_over_scion.Client.{complete_handshake, recv_bitfield}
use bittorrent_over_scion.Client.Handshaking.{port_bytes}
use bittorrent_over_scion.TorrentFile.{TorrentFile}
use bittorrent_over_scion.Server.{
  Server, full_bitfield, handle_message, handle_connection, handle_incoming_handshake,
}
use bittorrent_over_scion.Server.Handshaking.{reply, handshake_session}
use bittorrent_over_scion.Server.Requests.{handle_request_panics}
use bittorrent_over_scion.Server.Sessions.{
  Request, requests, answers, keep_alive, handle_connection-answers,
}

abbrev hash : List ℕ
hash = replicate 20 0x86

abbrev id : List ℕ
id = replicate 20 0x01

abbrev config : PeerDiscoveryConfig ℕ
config = default_peer_disovery_config ℕ

-- Six bytes in pieces of four.
abbrev torrent : TorrentFile ℕ
torrent = record {
  announce = [];
  nodes = [];
  info_hash = hash;
  piece_hashes = hash ∷ hash ∷ [];
  piece_length = pos 4;
  length = pos 6;
  name = [];
  content = record { bytes = 1 ∷ 2 ∷ 3 ∷ 4 ∷ 5 ∷ 6 ∷ []; spare = 0 ∷ [] };
  print_metrics = false;
}

abbrev seeder : Server ℕ
seeder = record {
  bitfield = 0xc0 ∷ 0 ∷ [];
  torrent_file = torrent;
  discovery_config = config;
  has_dht_node = true;
}

seeder_bitfield : full_bitfield torrent ≡ 0xc0 ∷ 0 ∷ []
unfolding full_bitfield set_piece
seeder_bitfield = refl

abbrev middle : Request
middle = record { index = 0; begin = 1; pre = 1 ∷ []; block = 2 ∷ 3 ∷ []; post = 4 ∷ 5 ∷ 6 ∷ [] }

abbrev last : Request
last = record { index = 1; begin = 0; pre = 1 ∷ 2 ∷ 3 ∷ 4 ∷ []; block = 5 ∷ 6 ∷ []; post = [] }

abbrev hello : Handshake
hello = Handshake.new hash id true

handle_connection-answers_example :
    Runs view
      (handle_connection pipe seeder 3 true)
      (Handshake.serialize hello ++ (requests (middle ∷ last ∷ []) ++ (keep_alive ++ [])))
      (ok tt)
      []
      (reply seeder hello ++ answers (middle ∷ last ∷ []))
handle_connection-answers_example =
    handle_connection-answers pipe seeder view pipe-IsStream 4 refl hello (middle ∷ last ∷ []) []
      (new-IsHandshake hash id true refl refl) (omega arith)
      (
        record {
          placed = refl;
          offset = refl;
          index_u32 = omega arith;
          begin_u32 = omega arith;
          block_u32 = omega arith;
          file_int = omega arith;
        },
        (
          record {
            placed = refl;
            offset = refl;
            index_u32 = omega arith;
            begin_u32 = omega arith;
            block_u32 = omega arith;
            file_int = omega arith;
          },
          tt,
        ),
      )

-- One byte more than the file and its spare capacity hold.
handle_request_panics_example :
    handle_message pipe seeder
      (format_request (pos 1) (pos 0) (pos 4))
      (record { input = []; output = [] })
    ≡ (halt panic, record { input = []; output = [] })
handle_request_panics_example =
    handle_request_panics pipe seeder 4 refl 1 0 4 (record { input = []; output = [] })
      (omega arith) (omega arith) (omega arith) (omega arith) (omega arith)

handshake_session_example :
    let h = Handshake.new hash id config.enable_dht in
    Runs view
      (handle_incoming_handshake pipe seeder)
      (Handshake.serialize h ++ (9 ∷ []))
      (ok tt)
      (9 ∷ [])
      (reply seeder h)
    × Runs view
        (complete_handshake pipe hash id config >> recv_bitfield pipe)
        (reply seeder h)
        (ok (0xc0 ∷ 0 ∷ []))
        (port_bytes (config.enable_dht && true && h.dht_support) config.dht_port)
        (Handshake.serialize h ++ port_bytes (h.dht_support && config.enable_dht) config.dht_port)
handshake_session_example =
    handshake_session pipe view pipe-IsStream pipe view pipe-IsStream config seeder hash id (9 ∷ [])
      refl refl (omega arith)
