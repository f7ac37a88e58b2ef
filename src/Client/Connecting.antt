-- ===== src/Client/Connecting.antt =====
-- client/client.go: DialAndWaitForConnectBack as a whole, and WaitForNewClient. The socket of
-- scion-path-discovery, which holds the connections, and the parser of addresses are parameters.
use bittorrent_over_scion.Common.{
  ℕ, List, [], ◌∷◌, Bool, false, Option, none, some, Result, ok, err, halt, panic, unparsable, M,
  ◌>>=◌, ◌>>◌, lift, resume,
}
use bittorrent_over_scion.Common.Stream.{Conn}
use bittorrent_over_scion.Bitfield.{Bitfield}
use bittorrent_over_scion.Peers.{Peer}
use bittorrent_over_scion.Client.{Client, Dial, dial}
use bittorrent_over_scion.Utils.Addresses.{SnetAddr, SciondCalls, get_default_local_addr}

-- A socket of scion-path-discovery on the network.
pub record SocketCalls (c : Conn) (calls : SciondCalls) : Type 1 where
  pub Sock : Type 0
  pub parse_udp_addr : List ℕ → Option (SnetAddr calls.Ia)
  pub new_mp_peer_sock : SnetAddr calls.Ia → SnetAddr calls.Ia → M calls.Net Sock
  pub listen : Sock → M calls.Net (Unit {0})
  pub connect : Sock → M calls.Net (Unit {0})
  pub wait_for_peer_connect : Sock → M calls.Net (Unit {0})
  pub connections : Sock → calls.Net → List c.State
  -- the network, with other states of the connections
  pub set_connections : Sock → List c.State → calls.Net → calls.Net
  pub wait_for_incoming_conn : Sock → M calls.Net c.State

-- MPClient: the embedded client, as far as it is read, and the socket.
pub record MpClient (Sock : Type 0) : Type 0 where
  pub peer : Peer
  pub peer_id : List ℕ
  pub info_hash : List ℕ
  pub bitfield : Bitfield
  pub mp_sock : Option Sock

-- A client of WaitForNewClient, with its connection. It has no DiscoveryConfig and no DhtNode.
pub record NewClient (S : Type 0) : Type 0 where
  pub peer : Peer
  pub peer_id : List ℕ
  pub conn : S
  pub info_hash : List ℕ
  pub choked : Bool
  pub bitfield : Bitfield

module _ {Addr : Type 0} (c : Conn) (calls : SciondCalls) (sockets : SocketCalls c calls)
    (d : Dial Addr) where
  pub record State : Type 0 where
    pub client : MpClient sockets.Sock
    pub network : calls.Net

  abbrev pub on_net : {A : Type 0} → M calls.Net A → M State A
  on_net m s = ((m s.network).0, record s { network = (m s.network).1 })

  abbrev pub parsed : Option (SnetAddr calls.Ia) → Result (SnetAddr calls.Ia)
  parsed none = err unparsable
  parsed (some address) = ok address

  unfoldable pub local_socket_addr : List ℕ → M State (SnetAddr calls.Ia)
  local_socket_addr [] = on_net (get_default_local_addr calls)
  local_socket_addr (b ∷ bs) = lift (parsed (sockets.parse_udp_addr (b ∷ bs)))

  -- The error of GetFreePort is dropped.
  unfoldable pub with_free_port : SnetAddr calls.Ia → M State (SnetAddr calls.Ia)
  with_free_port addr s =
      let (port, network) = calls.get_free_port s.network in
      (ok (record addr { host = record addr.host { port = port } }), record s { network = network })

  unfoldable pub stored : sockets.Sock → M State (Unit {0})
  stored sock s = (ok tt, record s { client = record s.client { mp_sock = some sock } })

  -- The variable bf after the loop: the bitfield of the last client, and none without a client.
  unfoldable pub last_bitfield : List (Client Addr) → Bitfield
  last_bitfield [] = []
  last_bitfield (cl ∷ []) = cl.bitfield
  last_bitfield (cl ∷ next ∷ cls) = last_bitfield (next ∷ cls)

  -- The assignments to the embedded client before the return.
  unfoldable pub remembered : List (Client Addr) → M State (List (Client Addr))
  unfolding last_bitfield
  remembered cls s = (
    ok cls,
    record s {
      client = record s.client {
        info_hash = d.info_hash;
        peer = d.peer;
        peer_id = d.peer_id;
        bitfield = last_bitfield cls;
      };
    },
  )

  -- The loop over the connections.
  unfoldable pub connected : sockets.Sock → M State (List (Client Addr))
  unfolding remembered
  connected sock s =
      let (r, conns) = dial c d (sockets.connections sock s.network) in
      resume r (record s { network = sockets.set_connections sock conns s.network }) remembered

  -- With the socket that was made.
  unfoldable pub connect_back : sockets.Sock → M State (List (Client Addr))
  unfolding stored connected
  connect_back sock = do
    stored sock
    on_net (sockets.listen sock)
    on_net (sockets.connect sock)
    on_net (sockets.wait_for_peer_connect sock)
    connected sock

  unfoldable pub dial_and_wait_for_connect_back : List ℕ → M State (List (Client Addr))
  unfolding with_free_port connect_back
  dial_and_wait_for_connect_back local = do
    address ← lift (parsed (sockets.parse_udp_addr d.peer.addr))
    local_addr ← local_socket_addr local
    local_with_port ← with_free_port local_addr
    sock ← on_net (sockets.new_mp_peer_sock local_with_port address)
    connect_back sock

  new_client : c.State → M State (NewClient c.State)
  new_client conn s = (
    ok (record {
      peer = s.client.peer;
      peer_id = s.client.peer_id;
      conn = conn;
      info_hash = s.client.info_hash;
      choked = false;
      bitfield = s.client.bitfield;
    }),
    s,
  )

  wait_on : Option sockets.Sock → M State (NewClient c.State)
  unfolding new_client
  wait_on none = lift (halt panic)
  wait_on (some sock) = do conn ← on_net (sockets.wait_for_incoming_conn sock); new_client conn

  unfoldable pub wait_for_new_client : M State (NewClient c.State)
  unfolding wait_on
  wait_for_new_client s = wait_on s.client.mp_sock s
