-- ===== src/Client/Examples.antt =====
-- The client's theorems at concrete inputs.
use bittorrent_over_scion.Common.{
  ℕ, ◌≡◌, ◌≢◌, refl, ap, List, [], ◌∷◌, ◌++◌, true, false, pos, replicate, ok,
}
use bittorrent_over_scion.Common.Pipe.{Pipe, pipe, view, pipe-IsStream}
use bittorrent_over_scion.Config.{PeerDiscoveryConfig, default_peer_disovery_config}
use bittorrent_over_scion.Handshake
use bittorrent_over_scion.Handshake.{Handshake}
use bittorrent_over_scion.Handshake.Wire.{new-IsHandshake}
use bittorrent_over_scion.Message
use bittorrent_over_scion.Message.{Message, msg_bitfield}
use bittorrent_over_scion.Message.Wire.{frame}
use bittorrent_over_scion.Client.{Client, Dial, complete_handshake, dial}
use bittorrent_over_scion.Client.Handshaking.{complete_handshake_agrees}
use bittorrent_over_scion.Client.Connecting.{SocketCalls, State}
use bittorrent_over_scion.Utils.Addresses.{SciondCalls}
use bittorrent_over_scion.Common.{none, some, pure, ◌^◌}

abbrev hash : List ℕ
hash = replicate 20 0x86

abbrev id : List ℕ
id = replicate 20 0x01

abbrev config : PeerDiscoveryConfig ℕ
config = default_peer_disovery_config ℕ

abbrev seeder : Handshake
seeder = Handshake.new hash id true

other_hash : seeder.info_hash ≢ replicate 20 0
unfolding Handshake.new
other_hash = λ e. cc

-- The bytes that the seeder sends.
abbrev greeting : Pipe
greeting = record { input = Handshake.serialize seeder ++ []; output = [] }

greeting_accepted : (complete_handshake pipe seeder.info_hash id config greeting).0 ≡ ok seeder
greeting_accepted =
    let r =
      complete_handshake_agrees pipe view pipe-IsStream config id seeder []
        (new-IsHandshake hash id true refl refl) in
    let (s', e, inp, out) = r.run greeting refl in ap (λ w. w.0) e

abbrev choke : Message
choke = record { id = 0; payload = [] }

abbrev sample_dial : Dial ℕ
sample_dial = record {
  peer = record { addr = []; index = pos 0 };
  peer_id = id;
  info_hash = hash;
  discovery_config = config;
  has_dht_node = false;
}

-- One connection that was dialed, and the incoming one.
abbrev sockets : List Pipe
sockets =
    record {
      input =
          Handshake.serialize seeder ++ frame (record { id = msg_bitfield; payload = 0xff ∷ [] });
      output = [];
    }
    ∷ record { input = []; output = [] }
    ∷ []

abbrev sample_client : Client ℕ
sample_client = record {
  choked = false;
  bitfield = 0xff ∷ [];
  peer = sample_dial.peer;
  info_hash = hash;
  peer_id = id;
  discovery_config = config;
  has_dht_node = false;
}

-- A network on which every call goes well, and whose state is the connections.
abbrev calm : SciondCalls
calm = record {
  Net = List Pipe;
  Ia = ℕ;
  Connector = ℕ;
  lookup_env = λ variable. none;
  default_api_address = [];
  default_disp_path = [];
  connect = λ address. pure 0;
  underlay_anycast = λ conn. pure (record { ip = []; port = pos 0 });
  local_ia = λ conn. pure 1;
  get_free_port = λ s. (pos 4711, s);
  stat = λ path. pure (2 ^ 24);
}

abbrev calm_sockets : SocketCalls pipe calm
calm_sockets = record {
  Sock = ℕ;
  parse_udp_addr = λ text. some (record { ia = 1; host = record { ip = text; port = pos 0 } });
  new_mp_peer_sock = λ local remote. pure 3;
  listen = λ sock. pure tt;
  connect = λ sock. pure tt;
  wait_for_peer_connect = λ sock. pure tt;
  connections = λ sock s. s;
  set_connections = λ sock conns s. conns;
  wait_for_incoming_conn = λ sock. pure (record { input = []; output = [] });
}

abbrev undialled : State pipe calm calm_sockets sample_dial
undialled = record {
  client = record {
    peer = sample_dial.peer;
    peer_id = id;
    info_hash = hash;
    bitfield = [];
    mp_sock = none;
  };
  network = sockets;
}

abbrev dialled : State pipe calm calm_sockets sample_dial
dialled = record {
  client = record {
    peer = sample_dial.peer;
    peer_id = id;
    info_hash = hash;
    bitfield = 0xff ∷ [];
    mp_sock = some 3;
  };
  network = (dial pipe sample_dial sockets).1;
}
