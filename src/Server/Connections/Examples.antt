-- ===== src/Server/Connections/Examples.antt =====
-- The theorem on the open connections at a concrete input: a connection is its id.
use bittorrent_over_scion.Common.{ℕ, ◌≡◌, refl, List, [], ◌∷◌, bytes_equal}
use bittorrent_over_scion.Common.Ids.{has_id, IsDistinct}
use bittorrent_over_scion.Server.Connections.{
  Connections, Change, open_first, open_all, on_connections_change,
}
use bittorrent_over_scion.Server.Connections.Tracking.{IsChanged, on_connections_change-IsChanged}

abbrev itself : List ℕ → List ℕ
itself id = id

abbrev nothing_open : Connections (List ℕ)
nothing_open = record { conns = []; started = []; shut = [] }

abbrev two_open : Connections (List ℕ)
two_open = record {
  conns = (1 ∷ []) ∷ (2 ∷ []) ∷ [];
  started = (1 ∷ []) ∷ (2 ∷ []) ∷ [];
  shut = [];
}

-- The first connection is that of the dial.
opened_first : open_first itself nothing_open ((0 ∷ []) ∷ (1 ∷ []) ∷ (2 ∷ []) ∷ []) ≡ two_open
unfolding open_first open_all
opened_first = refl

two_open-IsDistinct : IsDistinct itself two_open.conns
unfolding has_id
two_open-IsDistinct = (refl, (refl, tt))

-- The first one is closed, and a third one is reported twice.
abbrev change : Change (List ℕ)
change = record {
  conns = (2 ∷ []) ∷ (3 ∷ []) ∷ (3 ∷ []) ∷ [];
  closed = λ v. bytes_equal v (1 ∷ []);
}

on_connections_change-IsChanged_example :
    IsChanged itself two_open change (on_connections_change itself two_open change)
on_connections_change-IsChanged_example =
    on_connections_change-IsChanged itself two_open change two_open-IsDistinct
