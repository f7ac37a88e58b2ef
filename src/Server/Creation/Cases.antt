-- ===== src/Server/Creation/Cases.antt =====
-- server/server.go: what NewServer returns.
use mathlib.Core.Bool.{false≢true}
use mathlib.Core.Path.{subst}
use bittorrent_over_scion.Common.{
  ℕ, ◌%◌, ◌^◌, ◌++◌, to_u64, and_then, Error, Halt, panic, unsupported, bytes_equal_refl, ◌≡◌, refl,
  sym, ap, ◌∙◌, ◌⊎◌, ◌≢◌, Option-cases, bytes_equal→eq, unparsable, List, [], ◌∷◌, true, Option,
  none, some, not, ◌&&◌, length, ltb, ℤ, pos_part, is_neg, Result, ok, err, halt, Bool-cases, inl,
  inr, bytes_equal,
}
use bittorrent_over_scion.Bitfield.{has_piece}
use bittorrent_over_scion.DhtNode.{DhtNode}
use bittorrent_over_scion.Peers.{new_peer_set}
use bittorrent_over_scion.Server.Seeding.{has_piece-full_bitfield}
use bittorrent_over_scion.Server.Leechers.{no_leechers}
use bittorrent_over_scion.Server.Creation.{
  ServerConfig, Created, AddrCalls, client, is_some, parsed_addr, created, find_local_addr, node_at,
  node_for, make_node, new_server,
}

module _ {Addr UdpAddr : Type 0} (calls : AddrCalls Addr UdpAddr) (config : ServerConfig Addr) where
  -- The local address of a text: that of the host for the empty text, or the one that it parses as.
  abbrev pub IsAt : List ℕ → Option UdpAddr → Type 0
  IsAt [] o = calls.default_local_addr ≡ o
  IsAt (b ∷ bs) o = (calls.parse_udp_addr (b ∷ bs) ≡ o) × (o ≢ none)

  abbrev pub HasNoAddress : List ℕ → Type 0
  HasNoAddress [] = ⊥
  HasNoAddress (b ∷ bs) = calls.parse_udp_addr (b ∷ bs) ≡ none

  -- The call that makes the DHT node of the server at an address.
  abbrev pub node_call : UdpAddr → Result (DhtNode Addr)
  node_call a =
      calls.new_node (calls.with_port a config.discovery_config.dht_port)
        config.torrent_file.info_hash
        (config.torrent_file.nodes ++ config.discovery_config.dht_nodes)
        (to_u64 (calls.host_port a) % 2 ^ 16)

  -- A new server that seeds all of its torrent, to no one yet.
  pub record IsReady {Route C : Type 0} (s : Created Addr UdpAddr Route C) : Type 0 where
    pub complete :
        (j : ℤ)
        → has_piece s.server.bitfield j
          ≡ (not (is_neg j) && ltb (pos_part j) (length config.torrent_file.piece_hashes))
    pub same_file : s.server.torrent_file ≡ config.torrent_file
    pub node_if : s.server.has_dht_node ≡ config.discovery_config.enable_dht
    pub no_one : (s.leechers ≡ no_leechers) × (s.conns ≡ []) × (s.peers ≡ [])
    pub by_server : config.path_selection_responsibility ≢ client
    pub at_local : IsAt config.l_addr s.local_addr
    pub same_paths : s.num_paths ≡ config.num_paths
    pub same_port : s.dial_back_start_port ≡ config.dial_back_port

  -- Why there is no server, with what NewServer comes to: who selects the paths, the address, a DHT
  -- node at no address, or one that is not made at the server's address.
  pub data IsRefused {X : Type 0} (r : Result X) : Type 0 where
    by_choice : config.path_selection_responsibility ≡ client → r ≡ err unsupported → IsRefused r
    by_address : HasNoAddress config.l_addr → r ≡ err unparsable → IsRefused r
    by_nil :
        config.discovery_config.enable_dht ≡ true
        → IsAt config.l_addr none
        → r ≡ halt panic
        → IsRefused r
    by_node :
        config.discovery_config.enable_dht ≡ true
        → (a : UdpAddr) → IsAt config.l_addr (some a)
        → (x : Error) → node_call a ≡ err x
        → r ≡ err x
        → IsRefused r
    by_halt :
        config.discovery_config.enable_dht ≡ true
        → (a : UdpAddr) → IsAt config.l_addr (some a)
        → (h : Halt) → node_call a ≡ halt h
        → r ≡ halt h
        → IsRefused r

  find_local_addr_cases :
      (text : List ℕ)
      → ((a : Option UdpAddr) × (find_local_addr calls text ≡ ok a) × IsAt text a)
        ⊎ ((find_local_addr calls text ≡ err unparsable) × HasNoAddress text)
  unfolding find_local_addr parsed_addr
  find_local_addr_cases [] = inl (calls.default_local_addr, refl, refl)
  find_local_addr_cases (b ∷ bs) = elim (Option-cases (calls.parse_udp_addr (b ∷ bs))) [
    | inl e ↦ inr (ap parsed_addr e, e)
    | inr (a, e) ↦ inl (some a, ap parsed_addr e, (e, λ e'. cc e'))
  ]

  -- What the making of the node comes to, and with it the whole.
  pub data IsMade (a : Option UdpAddr) : Type 0 where
    made :
        (node : Option (DhtNode Addr))
        → make_node calls config a ≡ ok node
        → is_some node ≡ config.discovery_config.enable_dht
        → IsMade a
    nil_addr :
        config.discovery_config.enable_dht ≡ true
        → a ≡ none
        → make_node calls config a ≡ halt panic
        → IsMade a
    node_err :
        config.discovery_config.enable_dht ≡ true
        → (b : UdpAddr) → a ≡ some b
        → (x : Error) → node_call b ≡ err x
        → make_node calls config a ≡ err x
        → IsMade a
    node_halt :
        config.discovery_config.enable_dht ≡ true
        → (b : UdpAddr) → a ≡ some b
        → (h : Halt) → node_call b ≡ halt h
        → make_node calls config a ≡ halt h
        → IsMade a

  with_node :
      (a : UdpAddr)
      → config.discovery_config.enable_dht ≡ true
      → (r : Result (DhtNode Addr)) → node_call a ≡ r
      → IsMade (some a)
  unfolding make_node node_for node_at
  with_node a on (ok node) e = made (some node) (rw (on, e) refl) (sym on)
  with_node a on (err x) e = node_err on a refl x e (rw (on, e) refl)
  with_node a on (halt h) e = node_halt on a refl h e (rw (on, e) refl)

  make_node_cases : (a : Option UdpAddr) → IsMade a
  unfolding make_node node_for
  make_node_cases a = elim (Bool-cases config.discovery_config.enable_dht) [
    | inr off ↦ made none (rw off refl) (sym off)
    | inl on ↦ elim (Option-cases a) [
      | inl e ↦ nil_addr on e (rw (on, e) refl)
      | inr (b, e) ↦ subst IsMade (sym e) (with_node b on (node_call b) refl)
    ]
  ]

  -- NewServer, once the address is known.
  at_address :
      (Route C : Type 0) (a : Option UdpAddr)
      → config.path_selection_responsibility ≢ client
      → IsAt config.l_addr a
      → new_server calls {Route = Route} {C = C} config
        ≡ and_then (make_node calls config a) (λ node. ok (created config a node))
      → IsMade a
      → ((s : Created Addr UdpAddr Route C) × (new_server calls config ≡ ok s) × IsReady s)
        ⊎ IsRefused (new_server calls {Route = Route} {C = C} config)
  unfolding created new_peer_set
  at_address Route C a chosen at whole (made node e if_some) = inl (
    created config a node,
    whole ∙ rw e refl,
    record {
      complete = has_piece-full_bitfield config.torrent_file;
      same_file = refl;
      node_if = if_some;
      no_one = (refl, refl, refl);
      by_server = chosen;
      at_local = at;
      same_paths = refl;
      same_port = refl;
    },
  )
  at_address Route C a chosen at whole (nil_addr on e m) =
      inr (by_nil on (subst (IsAt config.l_addr) e at) (whole ∙ rw m refl))
  at_address Route C a chosen at whole (node_err on b e x call m) =
      inr (by_node on b (subst (IsAt config.l_addr) e at) x call (whole ∙ rw m refl))
  at_address Route C a chosen at whole (node_halt on b e h call m) =
      inr (by_halt on b (subst (IsAt config.l_addr) e at) h call (whole ∙ rw m refl))

  -- NewServer either returns a server or refuses to. The server has exactly the pieces of the
  -- torrent, the numbers from 0 on, one for each piece hash; it has the configured local address,
  -- or the default one if none is configured, a DHT node exactly if the configuration wants one,
  -- and no leecher, no connection and no peer yet; and it is not the client who selects the paths.
  -- A refusal is one of these, each with just its own error: the client selects the paths; the
  -- local address does not parse; a DHT node is wanted and there is no default address for it,
  -- which is a panic; or it is wanted and the call that makes it at the server's own address fails
  -- or stops.
  pub new_server_cases :
      (Route C : Type 0)
      → ((s : Created Addr UdpAddr Route C) × (new_server calls config ≡ ok s) × IsReady s)
        ⊎ IsRefused (new_server calls {Route = Route} {C = C} config)
  unfolding new_server
  new_server_cases Route C =
      elim (Bool-cases (bytes_equal config.path_selection_responsibility client)) [
        | inl e ↦ inr (by_choice (bytes_equal→eq _ _ e) (rw e refl))
        | inr other ↦ elim (find_local_addr_cases config.l_addr) [
          | inr (e, none_there) ↦ inr (by_address none_there (rw (other, e) refl))
          | inl (a, found, at) ↦
              at_address Route C a (λ e. false≢true (sym other ∙ rw e (bytes_equal_refl client))) at
                (rw (other, found) refl) (make_node_cases a)
        ]
      ]
