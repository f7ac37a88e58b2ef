-- ===== src/Socket/Tcp.antt =====
-- socket/tcpsocket.go: a socket over TCP.
use bittorrent_over_scion.Common.{
  ℕ, ◌≡◌, refl, List, [], Option, none, some, ℤ, ok, halt, panic, M, ◌>>=◌, lift, ◌>>◌,
}
use bittorrent_over_scion.Socket.{
  Socket, Call, listens, dials, reads, writes, accepts, call, newest, IsSocket, Keeps, Keeps-bind,
  Dials, Dials-bind,
}

-- The package net, with the state of the network.
pub record TcpCalls : Type 1 where
  pub Net : Type 0
  pub Addr : Type 0
  pub Listener : Type 0
  pub Conn : Type 0
  pub resolve_tcp_addr : List ℕ → M Net Addr
  pub listen_tcp : Addr → M Net Listener
  pub dial : List ℕ → M Net Conn
  -- of a listener that may be nil
  pub accept : Option Listener → M Net Conn
  -- with the length of the buffer; the bytes that were read
  pub read : Conn → ℕ → M Net (List ℕ)
  pub write : Conn → List ℕ → M Net ℕ

module _ (net : TcpCalls) where
  pub record TcpSocket : Type 0 where
    pub conn : Option net.Conn
    pub listener : Option net.Listener
    pub local_addr : List ℕ
    pub remote_addr : List ℕ
    pub address : Option net.Addr

  pub record TcpState : Type 0 where
    pub socket : TcpSocket
    pub network : net.Net

  unfoldable pub new_tcp_socket : TcpSocket
  new_tcp_socket = record {
    conn = none;
    listener = none;
    local_addr = [];
    remote_addr = [];
    address = none;
  }

  -- A call on the network.
  abbrev pub on_net : {A : Type 0} → M net.Net A → M TcpState A
  on_net m s = ((m s.network).0, record s { network = (m s.network).1 })

  resolved : List ℕ → net.Addr → M TcpState (Unit {0})
  resolved addr local_addr s = (
    ok tt,
    record s { socket = record s.socket { local_addr = addr; address = some local_addr } },
  )

  listening : net.Listener → M TcpState net.Listener
  listening listener s =
      (ok listener, record s { socket = record s.socket { listener = some listener } })

  unfoldable pub listen : List ℕ → M TcpState net.Listener
  unfolding resolved listening
  listen addr = do
    local_addr ← on_net (net.resolve_tcp_addr addr)
    resolved addr local_addr
    listener ← on_net (net.listen_tcp local_addr)
    listening listener

  connected : net.Conn → M TcpState net.Conn
  connected conn s = (ok conn, record s { socket = record s.socket { conn = some conn } })

  -- The index is not used.
  unfoldable pub dial : List ℕ → ℤ → M TcpState net.Conn
  unfolding connected
  dial addr index = do conn ← on_net (net.dial addr); connected conn

  -- A nil pointer.
  unfoldable pub read_on : Option net.Conn → ℕ → M TcpState (List ℕ)
  read_on none n = lift (halt panic)
  read_on (some conn) n = on_net (net.read conn n)

  unfoldable pub write_on : Option net.Conn → List ℕ → M TcpState ℕ
  write_on none bs = lift (halt panic)
  write_on (some conn) bs = on_net (net.write conn bs)

  abbrev pub tcp : Socket
  tcp = record {
    State = TcpState;
    Listener = net.Listener;
    Conn = net.Conn;
    listen = listen;
    dial = dial;
    read = λ n s. read_on s.socket.conn n s;
    write = λ bs s. write_on s.socket.conn bs s;
    accept = λ s. on_net (net.accept s.socket.listener) s;
  }

  abbrev pub conn_of : TcpState → Option net.Conn
  conn_of s = s.socket.conn

  net-Keeps : {A : Type 0} (m : M net.Net A) → Keeps tcp conn_of (on_net m)
  net-Keeps m = record { same = λ s. refl }

  listen-Keeps : (addr : List ℕ) → Keeps tcp conn_of (listen addr)
  unfolding listen resolved listening
  listen-Keeps addr =
      Keeps-bind tcp conn_of _ (net-Keeps (net.resolve_tcp_addr addr)) (λ local_addr.
        Keeps-bind tcp conn_of {m = resolved addr local_addr} _ (record { same = λ s. refl })
          (λ u.
            Keeps-bind tcp conn_of listening (net-Keeps (net.listen_tcp local_addr))
              (λ listener. record { same = λ s. refl })))

  dial-Dials : (addr : List ℕ) (index : ℤ) → Dials tcp conn_of (dial addr index)
  unfolding dial connected
  dial-Dials addr index =
      Dials-bind tcp conn_of _ (net-Keeps (net.dial addr)) (λ conn. record { newer = λ s. refl })

  read_on-Keeps : (conn : Option net.Conn) (n : ℕ) → Keeps tcp conn_of (read_on conn n)
  unfolding read_on
  read_on-Keeps none n = record { same = λ s. refl }
  read_on-Keeps (some conn) n = record { same = λ s. refl }

  write_on-Keeps : (conn : Option net.Conn) (bs : List ℕ) → Keeps tcp conn_of (write_on conn bs)
  unfolding write_on
  write_on-Keeps none bs = record { same = λ s. refl }
  write_on-Keeps (some conn) bs = record { same = λ s. refl }

  pub tcp-keeps :
      (x : Call) (s : TcpState) → conn_of (call tcp x s).1 ≡ newest tcp (conn_of s) (call tcp x s).0
  unfolding call
  tcp-keeps (listens addr) s = (listen-Keeps addr).same s
  tcp-keeps (dials addr index) s = (dial-Dials addr index).newer s
  tcp-keeps (reads n) s = (read_on-Keeps s.socket.conn n).same s
  tcp-keeps (writes bs) s = (write_on-Keeps s.socket.conn bs).same s
  tcp-keeps accepts s = (net-Keeps (net.accept s.socket.listener)).same s

  unfoldable pub tcp_laws : IsSocket tcp
  tcp_laws = record {
    conn_of = conn_of;
    read_on = read_on;
    write_on = write_on;
    keeps = tcp-keeps;
    reads_conn = λ n s. refl;
    writes_conn = λ bs s. refl;
  }
