-- ===== src/Socket/Networks.antt =====
-- socket/interface.go: NewSocket, and what a new socket of either kind reads and writes.
use bittorrent_over_scion.Common.{
  ℕ, ◌≡◌, refl, ◌∙◌, halt, panic, ap, List, [], ◌∷◌, Option, none, some, if◌then◌else◌, bytes_equal,
  M,
}
use bittorrent_over_scion.Socket.{Socket, Call, Outcome, calls, last_dialled, calls-conn}
use bittorrent_over_scion.Socket.Tcp
use bittorrent_over_scion.Socket.Scion
use bittorrent_over_scion.Socket.Tcp.{TcpCalls, TcpState, new_tcp_socket, tcp, tcp_laws}
use bittorrent_over_scion.Socket.Scion.{
  ScionCalls, ScionState, SquicStreamWrapper, Certs, new_scion_socket, scion,
}
use bittorrent_over_scion.Socket.Streams.{scion_laws}

pub data Network : Type 0 where
  over_tcp over_scion : Network

-- "tcp" and "scion"
abbrev pub tcp_text : List ℕ
tcp_text = 116 ∷ 99 ∷ 112 ∷ []

abbrev pub scion_text : List ℕ
scion_text = 115 ∷ 99 ∷ 105 ∷ 111 ∷ 110 ∷ []

abbrev pub text_of : Network → List ℕ
text_of over_tcp = tcp_text
text_of over_scion = scion_text

-- The kind of the socket that NewSocket makes; nil for any other text.
unfoldable pub network_of : List ℕ → Option Network
network_of text =
    if bytes_equal text tcp_text
    then some over_tcp
    else (if bytes_equal text scion_text then some over_scion else none)

-- A socket and its state.
pub record Made : Type 1 where
  pub socket : Socket
  pub state : socket.State

module _ (net : TcpCalls) (w : net.Net) (quic : ScionCalls) (certs : Certs quic)
    (v : quic.Net) where
  abbrev pub make : Network → Made
  make over_tcp = record {
    socket = tcp net;
    state = record { socket = new_tcp_socket net; network = w };
  }
  make over_scion = record {
    socket = scion quic;
    state = record { certs = certs; socket = new_scion_socket quic; network = v };
  }

  abbrev made : Option Network → Option Made
  made none = none
  made (some k) = some (make k)

  unfoldable pub new_socket : List ℕ → Option Made
  new_socket text = made (network_of text)

  abbrev read_streamed : Option quic.Stream → ℕ → M (ScionState quic) (List ℕ)
  read_streamed none n s = (halt panic, s)
  read_streamed (some stream) n s =
      ((quic.read stream n s.network).0, record s { network = (quic.read stream n s.network).1 })

  abbrev write_streamed : Option quic.Stream → List ℕ → M (ScionState quic) ℕ
  write_streamed none bs s = (halt panic, s)
  write_streamed (some stream) bs s = (
    (quic.write stream bs s.network).0,
    record s { network = (quic.write stream bs s.network).1 },
  )

  -- Read and Write of the connection that was dialled last, on the network; with none, or with one
  -- that has no stream, they panic.
  abbrev read_conn :
      (k : Network) → Option (make k).socket.Conn → ℕ → M (make k).socket.State (List ℕ)
  read_conn over_tcp none n s = (halt panic, s)
  read_conn over_tcp (some conn) n s =
      ((net.read conn n s.network).0, record s { network = (net.read conn n s.network).1 })
  read_conn over_scion none n s = (halt panic, s)
  read_conn over_scion (some conn) n s = read_streamed conn.stream n s

  abbrev write_conn :
      (k : Network) → Option (make k).socket.Conn → List ℕ → M (make k).socket.State ℕ
  write_conn over_tcp none bs s = (halt panic, s)
  write_conn over_tcp (some conn) bs s =
      ((net.write conn bs s.network).0, record s { network = (net.write conn bs s.network).1 })
  write_conn over_scion none bs s = (halt panic, s)
  write_conn over_scion (some conn) bs s = write_streamed conn.stream bs s

  tcp_read_lem :
      (conn : Option net.Conn) (n : ℕ) (s : TcpState net)
      → Tcp.read_on net conn n s ≡ read_conn over_tcp conn n s
  unfolding Tcp.read_on
  tcp_read_lem none n s = refl
  tcp_read_lem (some conn) n s = refl

  tcp_write_lem :
      (conn : Option net.Conn) (bs : List ℕ) (s : TcpState net)
      → Tcp.write_on net conn bs s ≡ write_conn over_tcp conn bs s
  unfolding Tcp.write_on
  tcp_write_lem none bs s = refl
  tcp_write_lem (some conn) bs s = refl

  stream_read_lem :
      (stream : Option quic.Stream) (n : ℕ) (s : ScionState quic)
      → Scion.read_stream quic stream n s ≡ read_streamed stream n s
  unfolding Scion.read_stream
  stream_read_lem none n s = refl
  stream_read_lem (some stream) n s = refl

  stream_write_lem :
      (stream : Option quic.Stream) (bs : List ℕ) (s : ScionState quic)
      → Scion.write_stream quic stream bs s ≡ write_streamed stream bs s
  unfolding Scion.write_stream
  stream_write_lem none bs s = refl
  stream_write_lem (some stream) bs s = refl

  scion_read_lem :
      (conn : Option (SquicStreamWrapper quic)) (n : ℕ) (s : ScionState quic)
      → Scion.read_on quic conn n s ≡ read_conn over_scion conn n s
  unfolding Scion.read_on
  scion_read_lem none n s = refl
  scion_read_lem (some conn) n s = stream_read_lem conn.stream n s

  scion_write_lem :
      (conn : Option (SquicStreamWrapper quic)) (bs : List ℕ) (s : ScionState quic)
      → Scion.write_on quic conn bs s ≡ write_conn over_scion conn bs s
  unfolding Scion.write_on
  scion_write_lem none bs s = refl
  scion_write_lem (some conn) bs s = stream_write_lem conn.stream bs s

  -- What the calls on the new socket give, and what they leave.
  abbrev outcomes_of : (k : Network) → List Call → List (Outcome (make k).socket)
  outcomes_of k xs = (calls (make k).socket xs (make k).state).0

  abbrev after_calls : (k : Network) → List Call → (make k).socket.State
  after_calls k xs = (calls (make k).socket xs (make k).state).1

  -- For both networks, tcp and scion, and whatever calls are made on the new socket, those that
  -- fail included: NewSocket makes the socket of that network, and a Read or a Write then is one of
  -- the connection that the last successful Dial returned, and panics if no Dial succeeded.
  pub new_socket-reads :
      (k : Network) (xs : List Call) (n : ℕ) (bs : List ℕ)
      → (new_socket (text_of k) ≡ some (make k))
        × ((make k).socket.read n (after_calls k xs)
            ≡ read_conn k
                (last_dialled (make k).socket none (outcomes_of k xs))
                n
                (after_calls k xs))
        × ((make k).socket.write bs (after_calls k xs)
            ≡ write_conn k
                (last_dialled (make k).socket none (outcomes_of k xs))
                bs
                (after_calls k xs))
  unfolding new_socket network_of new_tcp_socket new_scion_socket tcp_laws scion_laws
  new_socket-reads over_tcp xs n bs =
      let conn = calls-conn (tcp net) (tcp_laws net) xs (make over_tcp).state in
      (
        refl,
        ap (λ c. Tcp.read_on net c n (after_calls over_tcp xs)) conn
            ∙ tcp_read_lem _ n (after_calls over_tcp xs),
        ap (λ c. Tcp.write_on net c bs (after_calls over_tcp xs)) conn
            ∙ tcp_write_lem _ bs (after_calls over_tcp xs),
      )
  new_socket-reads over_scion xs n bs =
      let conn = calls-conn (scion quic) (scion_laws quic) xs (make over_scion).state in
      (
        refl,
        ap (λ c. Scion.read_on quic c n (after_calls over_scion xs)) conn
            ∙ scion_read_lem _ n (after_calls over_scion xs),
        ap (λ c. Scion.write_on quic c bs (after_calls over_scion xs)) conn
            ∙ scion_write_lem _ bs (after_calls over_scion xs),
      )
