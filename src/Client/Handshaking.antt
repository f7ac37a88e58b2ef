-- ===== src/Client/Handshaking.antt =====
-- client/client.go: completeHandshake and recvBitfield on a working connection.
use bittorrent_over_scion.Common.{
  ℕ, ◌+◌, ◌<◌, ◌^◌, ◌≡◌, ◌≢◌, refl, List, [], ◌++◌, append-nil, Bool, true, false, ◌&&◌, some,
  ne→==_false, if◌then◌else◌, bytes_equal, bytes_equal→eq, bytes_equal_refl, length, Bool-cases,
  inl, inr, Result, ok, err, wrong_id, wrong_info_hash, resume-ok, pure, try,
}
use bittorrent_over_scion.Common.Stream.{
  Conn, View, IsStream, Runs, Runs-bind, Runs-then, Runs-pure, Runs-lift, Runs-try, Runs-cast,
  Runs-defer,
}
use bittorrent_over_scion.Config.{PeerDiscoveryConfig}
use bittorrent_over_scion.Handshake
use bittorrent_over_scion.Handshake.{Handshake}
use bittorrent_over_scion.Handshake.Wire.{IsHandshake, read-serialize_handshake}
use bittorrent_over_scion.Message.{Message, msg_bitfield, format_port}
use bittorrent_over_scion.Message.Wire.{frame, serialize-frame, read-frame}
use bittorrent_over_scion.Message.Formats.{format_port-IsMessage}
use bittorrent_over_scion.Client.{
  send, send_port_if, check_reply, exchange, complete_handshake, bitfield_of, recv_bitfield,
}

-- The bytes of the PORT message, if it is sent.
abbrev pub port_bytes : Bool → ℕ → List ℕ
port_bytes both port = if both then frame (format_port port) else []

module _ (c : Conn) (v : View c.State) (stream : IsStream c v) where
  pub send-Runs :
      (m : Message) (inp : List ℕ)
      → length m.payload + 5 < 2 ^ 32
      → Runs v (send c m) inp (ok tt) inp (frame m)
  unfolding send
  send-Runs m inp h =
      rw (serialize-frame m h)
        (Runs-bind c.write (Runs-pure (frame m) inp) (stream.writes (frame m) inp))

  pub send_port_if-Runs :
      (both : Bool) (port : ℕ) (inp : List ℕ)
      → Runs v (send_port_if c both port) inp (ok tt) inp (port_bytes both port)
  unfolding send_port_if
  send_port_if-Runs false port inp = Runs-pure tt inp
  send_port_if-Runs true port inp = Runs-cast refl refl (append-nil _) (
      Runs-bind _ (Runs-try (send-Runs (format_port port) inp (format_port-IsMessage port).fits))
        (Runs-pure tt inp))

  module _ {Addr : Type 0} (cfg : PeerDiscoveryConfig Addr) where
    check_reply_accepts :
        (h : Handshake) (inp : List ℕ)
        → Runs v
            (check_reply c h.info_hash cfg h)
            inp
            (ok h)
            inp
            (port_bytes (h.dht_support && cfg.enable_dht) cfg.dht_port)
    unfolding check_reply
    check_reply_accepts h inp = rw (bytes_equal_refl h.info_hash) (
        Runs-cast refl refl (append-nil _) (
          Runs-then (send_port_if-Runs (h.dht_support && cfg.enable_dht) cfg.dht_port inp)
            (Runs-pure h inp)))

    check_reply_refuses :
        (infohash : List ℕ) (h : Handshake) (inp : List ℕ)
        → h.info_hash ≢ infohash
        → Runs v (check_reply c infohash cfg h) inp (err wrong_info_hash) inp []
    unfolding check_reply
    check_reply_refuses infohash h inp ne = elim (Bool-cases (bytes_equal h.info_hash infohash)) [
      | inl e ↦ absurd (ne (bytes_equal→eq _ _ e))
      | inr e ↦ rw e (Runs-lift _ inp)
    ]

    -- With the deadline set before and taken away after.
    with_deadlines :
        (infohash peer_id : List ℕ) (inp : List ℕ) {r : Result Handshake} {rest out : List ℕ}
        → Runs v (exchange c infohash peer_id cfg) inp r rest out
        → Runs v (complete_handshake c infohash peer_id cfg) inp r rest out
    unfolding complete_handshake
    with_deadlines infohash peer_id inp h =
        Runs-cast refl refl (append-nil _)
          (Runs-bind _ (Runs-try (stream.deadlines 3 inp)) (Runs-defer h (stream.deadlines 0 _)))

    -- On a working connection where a well-formed handshake for the same torrent waits,
    -- completeHandshake returns it. It sends its own handshake, then the PORT message exactly when
    -- both sides run a DHT node.
    pub complete_handshake_agrees :
        (peer_id : List ℕ) (h : Handshake) (rest : List ℕ)
        → IsHandshake h
        → Runs v
            (complete_handshake c h.info_hash peer_id cfg)
            (Handshake.serialize h ++ rest)
            (ok h)
            rest
            (Handshake.serialize (Handshake.new h.info_hash peer_id cfg.enable_dht)
              ++ port_bytes (h.dht_support && cfg.enable_dht) cfg.dht_port)
    complete_handshake_agrees peer_id h rest w = with_deadlines h.info_hash peer_id _ (
        unfold exchange in
        Runs-then (stream.writes _ _)
          (Runs-bind _ (read-serialize_handshake c v stream h w rest) (check_reply_accepts h rest)))

    -- On a working connection, a well-formed handshake for another torrent is refused, after both
    -- handshakes were exchanged.
    pub complete_handshake_refuses :
        (infohash peer_id : List ℕ) (h : Handshake) (rest : List ℕ)
        → IsHandshake h
        → h.info_hash ≢ infohash
        → Runs v
            (complete_handshake c infohash peer_id cfg)
            (Handshake.serialize h ++ rest)
            (err wrong_info_hash)
            rest
            (Handshake.serialize (Handshake.new infohash peer_id cfg.enable_dht))
    complete_handshake_refuses infohash peer_id h rest w ne = with_deadlines infohash peer_id _ (
        unfold exchange in
        Runs-cast refl refl (append-nil _) (
          Runs-then (stream.writes _ _) (
            Runs-bind _ (read-serialize_handshake c v stream h w rest)
              (check_reply_refuses infohash h rest ne))))

  bitfield_of-Runs :
      (bf inp : List ℕ)
      → Runs v
          (bitfield_of c (some (record { id = msg_bitfield; payload = bf })))
          inp
          (ok bf)
          inp
          []
  unfolding bitfield_of
  bitfield_of-Runs bf inp = Runs-pure bf inp

  -- recvBitfield returns the payload of a bitfield message.
  pub recv_bitfield-Runs :
      (bf rest : List ℕ)
      → length bf + 5 < 2 ^ 32
      → Runs v
          (recv_bitfield c)
          (frame (record { id = msg_bitfield; payload = bf }) ++ rest)
          (ok bf)
          rest
          []
  unfolding recv_bitfield
  recv_bitfield-Runs bf rest fits = Runs-bind _ (Runs-try (stream.deadlines 5 _)) (
      Runs-defer
        (Runs-bind (bitfield_of c)
          (read-frame c v stream (record { id = msg_bitfield; payload = bf }) rest fits)
          (bitfield_of-Runs bf rest))
        (stream.deadlines 0 rest))

  bitfield_of_other :
      (m : Message) (inp : List ℕ)
      → m.id ≢ msg_bitfield
      → Runs v (bitfield_of c (some m)) inp (err (wrong_id msg_bitfield m.id)) inp []
  unfolding bitfield_of
  bitfield_of_other m inp ne = rw (ne→==_false m.id msg_bitfield ne) (Runs-lift _ inp)

  -- On a working connection, recvBitfield refuses a message of less than 4 GiB that is no bitfield,
  -- with an error that names its number, and leaves what follows it.
  pub recv_bitfield_refuses :
      (m : Message) (rest : List ℕ)
      → length m.payload + 5 < 2 ^ 32
      → m.id ≢ msg_bitfield
      → Runs v (recv_bitfield c) (frame m ++ rest) (err (wrong_id msg_bitfield m.id)) rest []
  unfolding recv_bitfield
  recv_bitfield_refuses m rest fits ne = Runs-bind _ (Runs-try (stream.deadlines 5 _)) (
      Runs-defer
        (Runs-bind (bitfield_of c) (read-frame c v stream m rest fits)
          (bitfield_of_other m rest ne))
        (stream.deadlines 0 rest))

check_reply-ok :
    {Addr : Type 0} (c : Conn) (infohash : List ℕ) (cfg : PeerDiscoveryConfig Addr)
    (res h : Handshake) (s : c.State)
    → (check_reply c infohash cfg res s).0 ≡ ok h
    → h.info_hash ≡ infohash
unfolding check_reply
check_reply-ok c infohash cfg res h s e = elim (Bool-cases (bytes_equal res.info_hash infohash)) [
  | inl same ↦
      let (u, p, q) =
        resume-ok (send_port_if c (res.dht_support && cfg.enable_dht) cfg.dht_port s).0 _
          (λ _. pure res) (rw same at e) in
      let same_reply : res ≡ h = cc q in rw (← same_reply) (bytes_equal→eq _ _ same)
  | inr other ↦ cc (rw other at e)
]

-- On any connection at all, working or not: completeHandshake succeeds only with a peer that has
-- the info hash that was asked for.
pub complete_handshake-info_hash :
    {Addr : Type 0} (c : Conn) (infohash peer_id : List ℕ) (cfg : PeerDiscoveryConfig Addr)
    (h : Handshake) (s : c.State)
    → (complete_handshake c infohash peer_id cfg s).0 ≡ ok h
    → h.info_hash ≡ infohash
unfolding complete_handshake exchange
complete_handshake-info_hash c infohash peer_id cfg h s e =
    let (a, p, e₁) = resume-ok (try (c.set_deadline 3) s).0 (try (c.set_deadline 3) s).1 _ e in
    let s₁ = (try (c.set_deadline 3) s).1 in
    let hello = c.write (Handshake.serialize (Handshake.new infohash peer_id cfg.enable_dht)) in
    let (b, q, e₂) = resume-ok (hello s₁).0 (hello s₁).1 _ e₁ in
    let (res, r, e₃) =
      resume-ok (Handshake.read c (hello s₁).1).0 (Handshake.read c (hello s₁).1).1 _ e₂ in
    check_reply-ok c infohash cfg res h _ e₃
