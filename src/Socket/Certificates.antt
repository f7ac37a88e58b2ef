-- ===== src/Socket/Certificates.antt =====
-- socket/scionsocket.go: InitSQUICCerts, over any calls on a socket.
use bittorrent_over_scion.Common.{
  ℕ, ◌≡◌, refl, ap, ◌∙◌, List, [], ◌∷◌, true, false, Option, none, some, ℤ, Result, ok, err, halt,
  panic, M, ◌>>=◌, resume, lift, settle, Error,
}
use bittorrent_over_scion.Socket.{Call, listens, dials, reads, writes, accepts, call, calls}
use bittorrent_over_scion.Socket.Scion.{
  ScionCalls, SquicStreamWrapper, ScionState, Certs, on_net, set_certs, init_squic_certs, certified,
  listening, listen, connected, open_on, dial, read_stream, read_on, write_stream, write_on,
  wrap_stream, accept_on, scion,
}

module _ (net : ScionCalls) where
  -- The certificates, once they are set, stay.
  record Settled (certs : Certs net) {A : Type 0} (m : M (ScionState net) A) : Type 0 where
    stays : (s : ScionState net) → s.certs ≡ certs → (m s).1.certs ≡ certs

  module _ (certs : Certs net) (is_init : certs.quic_init ≡ true) where
    net-Settled : {A : Type 0} (m : M net.Net A) → Settled certs (on_net net m)
    net-Settled m = record { stays = λ s e. e }

    lift-Settled : {A : Type 0} (r : Result A) → Settled certs (lift r)
    lift-Settled r = record { stays = λ s e. e }

    resume-Settled :
        {A B : Type 0} (r : Result A) (s : ScionState net) (f : A → M (ScionState net) B)
        → s.certs ≡ certs
        → ((a : A) → Settled certs (f a))
        → (resume r s f).1.certs ≡ certs
    resume-Settled (ok a) s f e k = (k a).stays s e
    resume-Settled (err x) s f e k = e
    resume-Settled (halt h) s f e k = e

    bind-Settled :
        {A B : Type 0} {m : M (ScionState net) A} (f : A → M (ScionState net) B)
        → Settled certs m
        → ((a : A) → Settled certs (f a))
        → Settled certs (m >>= f)
    bind-Settled {m} f h k = record {
      stays = λ s e. resume-Settled (m s).0 (m s).1 f (h.stays s e) k;
    }

    init_once : (s : ScionState net) → s.certs ≡ certs → init_squic_certs net s ≡ (ok tt, s)
    unfolding init_squic_certs
    init_once s e = rw (ap (λ c. c.quic_init) e ∙ is_init) refl

    init-Settled : Settled certs (init_squic_certs net)
    init-Settled = record { stays = λ s e. ap (λ x. x.1.certs) (init_once s e) ∙ e }

    certified-Settled :
        {A : Type 0} (m : List net.Certificate → M net.Net A) → Settled certs (certified net m)
    unfolding certified
    certified-Settled m = record { stays = λ s e. e }

    listen-Settled : (addr : List ℕ) → Settled certs (listen net addr)
    unfolding listen listening
    listen-Settled addr = bind-Settled {m = init_squic_certs net} _ init-Settled (λ u.
        bind-Settled _ (lift-Settled (net.parse_udp_addr addr)) (λ address.
          bind-Settled _ (net-Settled (net.listen_packets (net.udp_host address))) (λ conn.
            bind-Settled (listening net addr) (certified-Settled (net.quic_listen conn))
              (λ listener. record { stays = λ s e. e }))))

    open_on-Settled : (session : net.Session) → Settled certs (open_on net session)
    unfolding open_on connected
    open_on-Settled session =
        bind-Settled (connected net session) (net-Settled (net.open_stream session))
          (λ stream. record { stays = λ s e. e })

    dial-Settled : (addr : List ℕ) (index : ℤ) → Settled certs (dial net addr index)
    unfolding dial
    dial-Settled addr index = bind-Settled {m = init_squic_certs net} _ init-Settled (λ u.
        bind-Settled _ (lift-Settled (net.parse_udp_addr addr)) (λ address.
          bind-Settled (open_on net) (certified-Settled (net.dial_addr address)) open_on-Settled))

    read_stream-Settled :
        (stream : Option net.Stream) (n : ℕ) → Settled certs (read_stream net stream n)
    unfolding read_stream
    read_stream-Settled none n = lift-Settled (halt panic)
    read_stream-Settled (some stream) n = net-Settled (net.read stream n)

    read_on-Settled :
        (conn : Option (SquicStreamWrapper net)) (n : ℕ) → Settled certs (read_on net conn n)
    unfolding read_on
    read_on-Settled none n = lift-Settled (halt panic)
    read_on-Settled (some conn) n = read_stream-Settled conn.stream n

    write_stream-Settled :
        (stream : Option net.Stream) (bs : List ℕ) → Settled certs (write_stream net stream bs)
    unfolding write_stream
    write_stream-Settled none bs = lift-Settled (halt panic)
    write_stream-Settled (some stream) bs = net-Settled (net.write stream bs)

    write_on-Settled :
        (conn : Option (SquicStreamWrapper net)) (bs : List ℕ)
        → Settled certs (write_on net conn bs)
    unfolding write_on
    write_on-Settled none bs = lift-Settled (halt panic)
    write_on-Settled (some conn) bs = write_stream-Settled conn.stream bs

    settled-Settled :
        {A : Type 0} (r : Result A) (s : ScionState net)
        → s.certs ≡ certs
        → (settle r s).1.certs ≡ certs
    settled-Settled (ok a) s e = e
    settled-Settled (err x) s e = e
    settled-Settled (halt h) s e = e

    accept_on-Settled :
        (listener : Option net.QuicListener) → Settled certs (accept_on net listener)
    unfolding accept_on wrap_stream
    accept_on-Settled none = lift-Settled (halt panic)
    accept_on-Settled (some listener) =
        bind-Settled _ (net-Settled (net.accept_session listener)) (λ session.
          bind-Settled (wrap_stream net session)
            (record { stays = λ s e. settled-Settled (net.accept_stream session s.network).0 _ e })
            (λ r. record { stays = λ s e. e }))

    call-Settled :
        (x : Call) (s : ScionState net) → s.certs ≡ certs → (call (scion net) x s).1.certs ≡ certs
    unfolding call
    call-Settled (listens addr) s e = (listen-Settled addr).stays s e
    call-Settled (dials addr index) s e = (dial-Settled addr index).stays s e
    call-Settled (reads n) s e = (read_on-Settled s.socket.conn n).stays s e
    call-Settled (writes bs) s e = (write_on-Settled s.socket.conn bs).stays s e
    call-Settled accepts s e = (accept_on-Settled s.socket.listener).stays s e

    calls-certs :
        (xs : List Call) (s : ScionState net)
        → s.certs ≡ certs
        → (calls (scion net) xs s).1.certs ≡ certs
    unfolding calls
    calls-certs [] s e = e
    calls-certs (x ∷ xs) s e = calls-certs xs (call (scion net) x s).1 (call-Settled x s e)

  -- Where the certificate has not been loaded yet and cannot be loaded: a Dial over SCION returns
  -- the error; and whatever calls are made on the socket after it, the only certificate is the
  -- empty one, and InitSQUICCerts returns no error and changes nothing.
  pub failed_certs_stay :
      (s : ScionState net) (addr : List ℕ) (index : ℤ) (x : Error) (xs : List Call)
      → s.certs.quic_init ≡ false
      → (net.load_x509_key_pair s.network).0 ≡ err x
      → ((dial net addr index s).0 ≡ err x)
        × (let t = (calls (scion net) xs (dial net addr index s).1).1 in
            (t.certs ≡ record { quic_init = true; certificates = net.no_certificate ∷ [] })
            × (init_squic_certs net t ≡ (ok tt, t)))
  unfolding dial init_squic_certs set_certs
  failed_certs_stay s addr index x xs fresh failed =
      let at_once : (dial net addr index s).1.certs
          ≡ record { quic_init = true; certificates = net.no_certificate ∷ [] } =
        simp (fresh, failed) in
      let at_last =
        calls-certs (record { quic_init = true; certificates = net.no_certificate ∷ [] }) refl xs
          (dial net addr index s).1 at_once in
      (simp (fresh, failed), (at_last, init_once _ refl _ at_last))
