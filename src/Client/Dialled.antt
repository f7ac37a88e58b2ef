-- ===== src/Client/Dialled.antt =====
-- client/client.go: what DialAndWaitForConnectBack has done when it succeeds.
use bittorrent_over_scion.Common.{ℕ, ◌-◌, ◌≡◌, List, [], ◌∷◌, ◌++◌, some, length, All, ok, ℤ, ◌⊎◌}
use bittorrent_over_scion.Common.Stream.{Conn}
use bittorrent_over_scion.Bitfield.{Bitfield}
use bittorrent_over_scion.Client.{Client, Dial, dial}
use bittorrent_over_scion.Client.Dialing.{IsFresh}
use bittorrent_over_scion.Utils.Addresses.{SnetAddr, SciondCalls, get_default_local_addr}
use bittorrent_over_scion.Client.Connecting.{SocketCalls, State}

module _ {Addr : Type 0} (c : Conn) (calls : SciondCalls) (sockets : SocketCalls c calls)
    (d : Dial Addr) where
  -- The address of the client's host: the given one, or without one the default.
  pub data IsLocal : List ℕ → calls.Net → SnetAddr calls.Ia → calls.Net → Type 0 where
    given :
        {b : ℕ} {bs : List ℕ} {a : SnetAddr calls.Ia} {n : calls.Net}
        → sockets.parse_udp_addr (b ∷ bs) ≡ some a
        → IsLocal (b ∷ bs) n a n
    default :
        {a : SnetAddr calls.Ia} {n n' : calls.Net}
        → get_default_local_addr calls n ≡ (ok a, n')
        → IsLocal [] n a n'

  -- The calls of the socket, one after the other, from the network `n` to the network `after`.
  pub record IsJoined (local : List ℕ) (remote : SnetAddr calls.Ia) (n : calls.Net)
      (sock : sockets.Sock) (after : calls.Net) : Type 0 where
    pub address : SnetAddr calls.Ia
    pub port : ℤ
    pub known : calls.Net
    pub with_port : calls.Net
    pub made : calls.Net
    pub listening : calls.Net
    pub dialled : calls.Net
    pub is_local : IsLocal local n address known
    pub is_free : calls.get_free_port known ≡ (port, with_port)
    pub is_made :
        sockets.new_mp_peer_sock
          (record address { host = record address.host { port = port } })
          remote
          with_port
        ≡ (ok sock, made)
    pub listens : sockets.listen sock made ≡ (ok tt, listening)
    pub connects : sockets.connect sock listening ≡ (ok tt, dialled)
    pub waits : sockets.wait_for_peer_connect sock dialled ≡ (ok tt, after)

  -- The bitfield that was received last, or none.
  abbrev pub IsLast : List (Client Addr) → Bitfield → Type 0
  IsLast cls bf =
      ((cls ≡ []) × (bf ≡ []))
      ⊎ ((front : List (Client Addr)) × (cl : Client Addr) × (cls ≡ front ++ (cl ∷ []))
          × (bf ≡ cl.bitfield))

  -- What the clients and the state are after the dial.
  pub record IsDialed (local : List ℕ) (n : calls.Net) (cls : List (Client Addr))
      (t : State c calls sockets d) : Type 0 where
    pub remote : SnetAddr calls.Ia
    pub sock : sockets.Sock
    pub network : calls.Net
    pub conns : List c.State
    pub is_remote : sockets.parse_udp_addr d.peer.addr ≡ some remote
    pub is_joined : IsJoined local remote n sock network
    pub is_dialled : dial c d (sockets.connections sock network) ≡ (ok cls, conns)
    pub count : length cls ≡ length (sockets.connections sock network) - 1
    pub fresh : All (IsFresh c d) cls
    pub left : t.network ≡ sockets.set_connections sock conns network
    pub has_sock : t.client.mp_sock ≡ some sock
    pub has_peer : t.client.peer ≡ d.peer
    pub has_id : t.client.peer_id ≡ d.peer_id
    pub has_hash : t.client.info_hash ≡ d.info_hash
    pub has_last : IsLast cls t.client.bitfield
