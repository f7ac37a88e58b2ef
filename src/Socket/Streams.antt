-- ===== src/Socket/Streams.antt =====
-- socket/scionsocket.go: what each call does with the connection of the socket.
use bittorrent_over_scion.Common.{
  ℕ, ◌≡◌, refl, List, Option, none, some, ℤ, Result, ok, err, halt, panic, M, lift, try, settle,
  Bool-cases, inl, inr,
}
use bittorrent_over_scion.Socket.{
  Call, listens, dials, reads, writes, accepts, call, newest, IsSocket, Keeps, Keeps-bind, Dials,
  Dials-bind,
}
use bittorrent_over_scion.Socket.Scion.{
  ScionCalls, SquicStreamWrapper, ScionState, on_net, init_squic_certs, certified, listening,
  listen, connected, open_on, dial, read_stream, read_on, write_stream, write_on, wrap_stream,
  accept_on, scion,
}

module _ (net : ScionCalls) where
  abbrev pub conn_of : ScionState net → Option (SquicStreamWrapper net)
  conn_of s = s.socket.conn

  net-Keeps : {A : Type 0} (m : M net.Net A) → Keeps (scion net) conn_of (on_net net m)
  net-Keeps m = record { same = λ s. refl }

  lift-Keeps : {A : Type 0} (r : Result A) → Keeps (scion net) conn_of (lift r)
  lift-Keeps r = record { same = λ s. refl }

  init_squic_certs-Keeps : Keeps (scion net) conn_of (init_squic_certs net)
  unfolding init_squic_certs
  init_squic_certs-Keeps = record {
    same = λ s. elim (Bool-cases s.certs.quic_init) [ inl e ↦ rw e refl | inr e ↦ rw e refl ];
  }

  certified-Keeps :
      {A : Type 0} (m : List net.Certificate → M net.Net A)
      → Keeps (scion net) conn_of (certified net m)
  unfolding certified
  certified-Keeps m = record { same = λ s. refl }

  listen-Keeps : (addr : List ℕ) → Keeps (scion net) conn_of (listen net addr)
  unfolding listen listening
  listen-Keeps addr =
      Keeps-bind (scion net) conn_of {m = init_squic_certs net} _ init_squic_certs-Keeps (λ u.
        Keeps-bind (scion net) conn_of _ (lift-Keeps (net.parse_udp_addr addr)) (λ address.
          Keeps-bind (scion net) conn_of _ (net-Keeps (net.listen_packets (net.udp_host address)))
            (λ conn.
              Keeps-bind (scion net) conn_of (listening net addr)
                (certified-Keeps (net.quic_listen conn))
                (λ listener. record { same = λ s. refl }))))

  open_on-Dials : (session : net.Session) → Dials (scion net) conn_of (open_on net session)
  unfolding open_on connected
  open_on-Dials session =
      Dials-bind (scion net) conn_of (connected net session) (net-Keeps (net.open_stream session))
        (λ stream. record { newer = λ s. refl })

  dial-Dials : (addr : List ℕ) (index : ℤ) → Dials (scion net) conn_of (dial net addr index)
  unfolding dial
  dial-Dials addr index =
      Dials-bind (scion net) conn_of {m = init_squic_certs net} _ init_squic_certs-Keeps (λ u.
        Dials-bind (scion net) conn_of _ (lift-Keeps (net.parse_udp_addr addr)) (λ address.
          Dials-bind (scion net) conn_of (open_on net) (certified-Keeps (net.dial_addr address))
            open_on-Dials))

  read_stream-Keeps :
      (stream : Option net.Stream) (n : ℕ) → Keeps (scion net) conn_of (read_stream net stream n)
  unfolding read_stream
  read_stream-Keeps none n = lift-Keeps (halt panic)
  read_stream-Keeps (some stream) n = net-Keeps (net.read stream n)

  read_on-Keeps :
      (conn : Option (SquicStreamWrapper net)) (n : ℕ)
      → Keeps (scion net) conn_of (read_on net conn n)
  unfolding read_on
  read_on-Keeps none n = lift-Keeps (halt panic)
  read_on-Keeps (some conn) n = read_stream-Keeps conn.stream n

  write_stream-Keeps :
      (stream : Option net.Stream) (bs : List ℕ)
      → Keeps (scion net) conn_of (write_stream net stream bs)
  unfolding write_stream
  write_stream-Keeps none bs = lift-Keeps (halt panic)
  write_stream-Keeps (some stream) bs = net-Keeps (net.write stream bs)

  write_on-Keeps :
      (conn : Option (SquicStreamWrapper net)) (bs : List ℕ)
      → Keeps (scion net) conn_of (write_on net conn bs)
  unfolding write_on
  write_on-Keeps none bs = lift-Keeps (halt panic)
  write_on-Keeps (some conn) bs = write_stream-Keeps conn.stream bs

  try-Keeps : {A : Type 0} (m : M net.Net A) → Keeps (scion net) conn_of (try (on_net net m))
  try-Keeps m = record {
    same = λ s. settled (m s.network).0 (record s { network = (m s.network).1 });
  }
    where
      settled :
          {A : Type 0} (r : Result A) (s : ScionState net) → conn_of (settle r s).1 ≡ conn_of s
      settled (ok a) s = refl
      settled (err e) s = refl
      settled (halt h) s = refl

  accept_on-Keeps :
      (listener : Option net.QuicListener) → Keeps (scion net) conn_of (accept_on net listener)
  unfolding accept_on wrap_stream
  accept_on-Keeps none = lift-Keeps (halt panic)
  accept_on-Keeps (some listener) =
      Keeps-bind (scion net) conn_of _ (net-Keeps (net.accept_session listener)) (λ session.
        Keeps-bind (scion net) conn_of (wrap_stream net session)
          (try-Keeps (net.accept_stream session)) (λ r. record { same = λ s. refl }))

  pub scion-keeps :
      (x : Call) (s : ScionState net)
      → conn_of (call (scion net) x s).1 ≡ newest (scion net) (conn_of s) (call (scion net) x s).0
  unfolding call
  scion-keeps (listens addr) s = (listen-Keeps addr).same s
  scion-keeps (dials addr index) s = (dial-Dials addr index).newer s
  scion-keeps (reads n) s = (read_on-Keeps s.socket.conn n).same s
  scion-keeps (writes bs) s = (write_on-Keeps s.socket.conn bs).same s
  scion-keeps accepts s = (accept_on-Keeps s.socket.listener).same s

  unfoldable pub scion_laws : IsSocket (scion net)
  scion_laws = record {
    conn_of = conn_of;
    read_on = read_on net;
    write_on = write_on net;
    keeps = scion-keeps;
    reads_conn = λ n s. refl;
    writes_conn = λ bs s. refl;
  }
