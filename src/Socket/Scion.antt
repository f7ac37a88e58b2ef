-- ===== src/Socket/Scion.antt =====
-- socket/scionsocket.go: a socket over QUIC and SCION.
use bittorrent_over_scion.Common.{
  ℕ, List, [], ◌∷◌, Bool, true, Option, none, some, if◌then◌else◌, ℤ, Result, ok, err, halt, panic,
  M, ◌>>=◌, ◌>>◌, pure, lift, try,
}
use bittorrent_over_scion.Socket.{Socket}

-- The packages crypto/tls, snet, appnet and quic, with the state of the network.
pub record ScionCalls : Type 1 where
  pub Net : Type 0
  pub Addr : Type 0
  pub UdpAddr : Type 0
  pub PacketConn : Type 0
  pub QuicListener : Type 0
  pub Session : Type 0
  pub Stream : Type 0
  pub Certificate : Type 0
  -- the zero value
  pub no_certificate : Certificate
  pub load_x509_key_pair : M Net Certificate
  pub parse_udp_addr : List ℕ → Result Addr
  pub udp_host : Addr → UdpAddr
  pub listen_packets : UdpAddr → M Net PacketConn
  pub quic_listen : PacketConn → List Certificate → M Net QuicListener
  pub dial_addr : Addr → List Certificate → M Net Session
  pub open_stream : Session → M Net Stream
  pub accept_session : QuicListener → M Net Session
  pub accept_stream : Session → M Net Stream
  pub read : Stream → ℕ → M Net (List ℕ)
  pub write : Stream → List ℕ → M Net ℕ

module _ (net : ScionCalls) where
  -- A stream that may be nil, and the session for its addresses.
  pub record SquicStreamWrapper : Type 0 where
    pub stream : Option net.Stream
    pub session : net.Session

  -- The fields remoteAddr and address are never set.
  pub record ScionSocket : Type 0 where
    pub conn : Option SquicStreamWrapper
    pub listener : Option net.QuicListener
    pub local_addr : List ℕ

  unfoldable pub new_scion_socket : ScionSocket
  new_scion_socket = record { conn = none; listener = none; local_addr = [] }

  -- `quicInit` and the certificates of `TLSCfg` are variables of the package.
  pub record Certs : Type 0 where
    pub quic_init : Bool
    pub certificates : List net.Certificate

  pub record ScionState : Type 0 where
    pub certs : Certs
    pub socket : ScionSocket
    pub network : net.Net

  abbrev pub on_net : {A : Type 0} → M net.Net A → M ScionState A
  on_net m s = ((m s.network).0, record s { network = (m s.network).1 })

  -- The function of `quicInit.Do`: it has run even if it panics.
  unfoldable pub set_certs : Result net.Certificate → Certs → Result (Unit {0}) × Certs
  set_certs (ok cert) certs = (ok tt, record { quic_init = true; certificates = cert ∷ [] })
  set_certs (err e) certs =
      (err e, record { quic_init = true; certificates = net.no_certificate ∷ [] })
  set_certs (halt h) certs = (halt h, record certs { quic_init = true })

  -- `initErr` is new in each call.
  unfoldable pub init_squic_certs : M ScionState (Unit {0})
  unfolding set_certs
  init_squic_certs s = if s.certs.quic_init then (ok tt, s) else (
    (set_certs (net.load_x509_key_pair s.network).0 s.certs).0,
    record s {
      certs = (set_certs (net.load_x509_key_pair s.network).0 s.certs).1;
      network = (net.load_x509_key_pair s.network).1;
    },
  )

  -- quic.Listen and appquic.DialAddr with `TLSCfg`.
  unfoldable pub certified : {A : Type 0} → (List net.Certificate → M net.Net A) → M ScionState A
  certified m s = on_net (m s.certs.certificates) s

  unfoldable pub listening : List ℕ → net.QuicListener → M ScionState net.QuicListener
  listening addr listener s = (
    ok listener,
    record s { socket = record s.socket { local_addr = addr; listener = some listener } },
  )

  unfoldable pub listen : List ℕ → M ScionState net.QuicListener
  unfolding certified listening
  listen addr = do
    init_squic_certs
    address ← lift (net.parse_udp_addr addr)
    conn ← on_net (net.listen_packets (net.udp_host address))
    listener ← certified (net.quic_listen conn)
    listening addr listener

  unfoldable pub connected : net.Session → net.Stream → M ScionState SquicStreamWrapper
  connected session stream s =
      let conn : SquicStreamWrapper = record { stream = some stream; session = session } in
      (ok conn, record s { socket = record s.socket { conn = some conn } })

  unfoldable pub open_on : net.Session → M ScionState SquicStreamWrapper
  unfolding connected
  open_on session = do stream ← on_net (net.open_stream session); connected session stream

  -- The index is not used.
  unfoldable pub dial : List ℕ → ℤ → M ScionState SquicStreamWrapper
  unfolding certified open_on
  dial addr index = do
    init_squic_certs
    address ← lift (net.parse_udp_addr addr)
    session ← certified (net.dial_addr address)
    open_on session

  -- A nil interface, in the socket or in the wrapper of a stream.
  unfoldable pub read_stream : Option net.Stream → ℕ → M ScionState (List ℕ)
  read_stream none n = lift (halt panic)
  read_stream (some stream) n = on_net (net.read stream n)

  unfoldable pub read_on : Option SquicStreamWrapper → ℕ → M ScionState (List ℕ)
  unfolding read_stream
  read_on none n = lift (halt panic)
  read_on (some conn) n = read_stream conn.stream n

  unfoldable pub write_stream : Option net.Stream → List ℕ → M ScionState ℕ
  write_stream none bs = lift (halt panic)
  write_stream (some stream) bs = on_net (net.write stream bs)

  unfoldable pub write_on : Option SquicStreamWrapper → List ℕ → M ScionState ℕ
  unfolding write_stream
  write_on none bs = lift (halt panic)
  write_on (some conn) bs = write_stream conn.stream bs

  -- The error of AcceptStream is dropped; the stream is nil then.
  abbrev pub stream_of : Result net.Stream → Option net.Stream
  stream_of (ok stream) = some stream
  stream_of (err e) = none
  stream_of (halt h) = none

  unfoldable pub wrap_stream : net.Session → Result net.Stream → M ScionState SquicStreamWrapper
  wrap_stream session stream = pure (record { stream = stream_of stream; session = session })

  unfoldable pub accept_on : Option net.QuicListener → M ScionState SquicStreamWrapper
  unfolding wrap_stream
  accept_on none = lift (halt panic)
  accept_on (some listener) = do
    session ← on_net (net.accept_session listener)
    stream ← try (on_net (net.accept_stream session))
    wrap_stream session stream

  abbrev pub scion : Socket
  scion = record {
    State = ScionState;
    Listener = net.QuicListener;
    Conn = SquicStreamWrapper;
    listen = listen;
    dial = dial;
    read = λ n s. read_on s.socket.conn n s;
    write = λ bs s. write_on s.socket.conn bs s;
    accept = λ s. accept_on s.socket.listener s;
  }
