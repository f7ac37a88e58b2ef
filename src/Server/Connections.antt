-- ===== src/Server/Connections.antt =====
-- server/server.go: the open connections of ListenHandshake. The type of a connection, its id and
-- whether it is closed belong to scion-path-discovery.
pub mod Tracking
mod Examples
use bittorrent_over_scion.Common.{ℕ, List, [], ◌∷◌, ◌++◌, Bool, not, if◌then◌else◌, drop}
use bittorrent_over_scion.Common.Ids.{has_id, keep_if}

-- `conns` is the server's field Conns. `started` are the connections on which measureConnMetrics,
-- and with it handleConnection, was started, and `shut` those on which Close was called, in their order.
pub record Connections (C : Type 0) : Type 0 where
  pub conns : List C
  pub started : List C
  pub shut : List C

-- A value from OnConnectionsChange, and the states of the connections when it is received.
pub record Change (C : Type 0) : Type 0 where
  pub conns : List C
  pub closed : C → Bool

module _ {C : Type 0} (id : C → List ℕ) where
  abbrev pub open_conn : Connections C → C → Connections C
  open_conn s conn = record s { conns = s.conns ++ (conn ∷ []); started = s.started ++ (conn ∷ []) }

  -- The connections that the socket has at first; that of the dial is left out.
  unfoldable pub open_all : Connections C → List C → Connections C
  open_all s [] = s
  open_all s (conn ∷ conns) = open_all (open_conn s conn) conns

  unfoldable pub open_first : Connections C → List C → Connections C
  open_first s conns = open_all s (drop 1 conns)

  unfoldable pub open_new : Connections C → List C → Connections C
  open_new s [] = s
  open_new s (conn ∷ conns) =
      open_new (if not (has_id id s.conns (id conn)) then open_conn s conn else s) conns

  unfoldable pub shut_closed : Connections C → (C → Bool) → Connections C
  shut_closed s closed = record s {
    conns = keep_if (λ v. not (closed v)) s.conns;
    shut = s.shut ++ keep_if closed s.conns;
  }

  -- One round of the loop of the goroutine.
  unfoldable pub on_connections_change : Connections C → Change C → Connections C
  on_connections_change s change = open_new (shut_closed s change.closed) change.conns
