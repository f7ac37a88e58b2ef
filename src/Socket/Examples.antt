-- ===== src/Socket/Examples.antt =====
-- The theorems about sockets at concrete inputs: a network that counts its connections.
use bittorrent_over_scion.Common.{
  ℕ, suc, ◌≡◌, refl, List, [], ◌∷◌, none, some, true, false, pos, ok, err, eof, length, pure, lift,
}
use bittorrent_over_scion.Socket.{call, Call, listens, dials, reads, calls}
use bittorrent_over_scion.Socket.Tcp
use bittorrent_over_scion.Socket.Tcp.{new_tcp_socket, TcpCalls}
use bittorrent_over_scion.Socket.Scion.{
  ScionCalls, Certs, ScionState, init_squic_certs, dial, scion,
}
use bittorrent_over_scion.Socket.Networks.{over_tcp, tcp_text, make, new_socket, new_socket-reads}
use bittorrent_over_scion.Socket.Certificates.{failed_certs_stay}

abbrev counting : TcpCalls
counting = record {
  Net = ℕ;
  Addr = List ℕ;
  Listener = ℕ;
  Conn = ℕ;
  resolve_tcp_addr = λ text. pure text;
  listen_tcp = λ addr n. (ok n, suc n);
  dial = λ text n. (ok n, suc n);
  accept = λ listener n. (ok n, suc n);
  read = λ conn size. pure (conn ∷ []);
  write = λ conn bs. pure (length bs);
}

-- No certificate can be read.
abbrev uncertified : ScionCalls
uncertified = record {
  Net = ℕ;
  Addr = List ℕ;
  UdpAddr = List ℕ;
  PacketConn = ℕ;
  QuicListener = ℕ;
  Session = ℕ;
  Stream = ℕ;
  Certificate = ℕ;
  no_certificate = 0;
  load_x509_key_pair = lift (err eof);
  parse_udp_addr = λ text. ok text;
  udp_host = λ addr. addr;
  listen_packets = λ addr n. (ok n, suc n);
  quic_listen = λ conn certs. pure conn;
  dial_addr = λ addr certs n. (ok n, suc n);
  open_stream = λ session. pure session;
  accept_session = λ listener n. (ok n, suc n);
  accept_stream = λ session. pure session;
  read = λ stream size. pure (stream ∷ []);
  write = λ stream bs. pure (length bs);
}

abbrev no_certs : Certs uncertified
no_certs = record { quic_init = false; certificates = [] }

abbrev history : List Call
history = dials (1 ∷ []) (pos 0) ∷ listens (2 ∷ []) ∷ dials (3 ∷ []) (pos 0) ∷ reads 4 ∷ []

new_socket-reads_example :
    let m = make counting 5 uncertified no_certs 0 over_tcp in
    let after = (calls m.socket history m.state).1 in
    (new_socket counting 5 uncertified no_certs 0 tcp_text ≡ some m)
    × (m.socket.read 8 after ≡ (ok (7 ∷ []), after))
    × (m.socket.write [] after ≡ (ok 0, after))
unfolding calls call Tcp.listen Tcp.dial Tcp.read_on Tcp.write_on new_tcp_socket
new_socket-reads_example = new_socket-reads counting 5 uncertified no_certs 0 over_tcp history 8 []

abbrev at_start : ScionState uncertified
at_start = record {
  certs = no_certs;
  socket = record { conn = none; listener = none; local_addr = [] };
  network = 0;
}

failed_certs_stay_example :
    ((dial uncertified (1 ∷ []) (pos 0) at_start).0 ≡ err eof)
    × (let t =
          (calls (scion uncertified) history (dial uncertified (1 ∷ []) (pos 0) at_start).1).1 in
        (t.certs ≡ record { quic_init = true; certificates = 0 ∷ [] })
        × (init_squic_certs uncertified t ≡ (ok tt, t)))
failed_certs_stay_example =
    failed_certs_stay uncertified at_start (1 ∷ []) (pos 0) eof history refl refl
