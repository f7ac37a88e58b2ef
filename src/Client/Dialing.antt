-- ===== src/Client/Dialing.antt =====
-- client/client.go: the loop over the connections of DialAndWaitForConnectBack.
use bittorrent_over_scion.Common.{
  ◌-◌, ◌≡◌, refl, List, [], ◌∷◌, false, length, All, Result, ok, err, halt, resume-ok, arith,
}
use bittorrent_over_scion.Common.Stream.{Conn}
use bittorrent_over_scion.Client.{
  Client, Dial, connect_one, connected, connect_each, closed, dial, complete_handshake,
  recv_bitfield,
}

module _ {Addr : Type 0} (c : Conn) (d : Dial Addr) where
  -- A client of this dial: for its peer and torrent, and not choked.
  pub record IsFresh (cl : Client Addr) : Type 0 where
    pub same_hash : cl.info_hash ≡ d.info_hash
    pub same_id : cl.peer_id ≡ d.peer_id
    pub same_peer : cl.peer ≡ d.peer
    pub unchoked : cl.choked ≡ false

  connect_one-IsFresh :
      (s : c.State) (cl : Client Addr) → (connect_one c d s).0 ≡ ok cl → IsFresh cl
  unfolding connect_one
  connect_one-IsFresh s cl e =
      let (h, p, e₁) =
        resume-ok (complete_handshake c d.info_hash d.peer_id d.discovery_config s).0 _ _ e in
      let (bf, q, e₂) =
        resume-ok
          (recv_bitfield c (complete_handshake c d.info_hash d.peer_id d.discovery_config s).1).0 _
          _ e₁ in
      ground (arith, e₂)

  connected-ok :
      (r : Result (Client Addr)) (s : c.State) (u : List c.State)
      (rest : Result (List (Client Addr)) × List c.State) (cls : List (Client Addr))
      → (connected c d r s u rest).0 ≡ ok cls
      → (cl : Client Addr) × (more : List (Client Addr)) × (r ≡ ok cl)
        × (rest.0 ≡ ok more)
        × (cls ≡ cl ∷ more)
  unfolding connected
  connected-ok (ok cl) s u (ok more, later) cls e = (cl, more, refl, refl, cc e)
  connected-ok (ok cl) s u (err x, later) cls e = cc
  connected-ok (ok cl) s u (halt x, later) cls e = cc
  connected-ok (err x) s u rest cls e = cc
  connected-ok (halt x) s u rest cls e = cc

  connect_each-ok :
      (conns : List c.State) (cls : List (Client Addr))
      → (connect_each c d conns).0 ≡ ok cls
      → (length cls ≡ length conns - 1) × All IsFresh cls
  unfolding connect_each
  connect_each-ok [] [] e = (omega arith, tt)
  connect_each-ok [] (x ∷ cls) e = cc
  connect_each-ok (s ∷ []) [] e = (omega arith, tt)
  connect_each-ok (s ∷ []) (x ∷ cls) e = cc
  connect_each-ok (s ∷ t ∷ rest) cls e =
      let (cl, more, p, q, same) =
        connected-ok (connect_one c d s).0 (connect_one c d s).1 (t ∷ rest)
          (connect_each c d (t ∷ rest)) cls e in
      let (n, fresh) = connect_each-ok (t ∷ rest) more q in
      rw same (omega (arith, n), (connect_one-IsFresh s cl p, fresh))

  -- When the dial succeeds, on any connections, there is one client for each connection but the
  -- last, and each is for the peer and the torrent of the dial, and is not choked.
  pub dial-ok :
      (conns : List c.State) (cls : List (Client Addr))
      → (dial c d conns).0 ≡ ok cls
      → (length cls ≡ length conns - 1) × All IsFresh cls
  unfolding dial
  dial-ok conns cls e = connect_each-ok conns cls (opened (connect_each c d conns) cls e)
    where
      opened :
          (r : Result (List (Client Addr)) × List c.State) (cls : List (Client Addr))
          → (closed c d r).0 ≡ ok cls
          → r.0 ≡ ok cls
      opened (ok x, conns) cls e = e
      opened (err x, conns) cls e = cc
      opened (halt x, conns) cls e = cc
