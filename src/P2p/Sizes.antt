-- ===== src/P2p/Sizes.antt =====
-- p2p/p2p.go: what attemptDownloadPiece leaves of a piece on any connection, working or not.
use bittorrent_over_scion.Common.{◌≡◌, List, length, All, ◌+◌}
use bittorrent_over_scion.Message
use bittorrent_over_scion.Message.{Message}
use bittorrent_over_scion.Client.{Client}
use bittorrent_over_scion.P2p.Writes.{Block, IsInside, write_all, sum_lengths}
use bittorrent_over_scion.P2p.{Progress}

-- The same piece, with some blocks written to its buffer and counted.
record Kept {Addr : Type 0} (p p' : Progress Addr) : Type 0 where
  same_index : p'.index ≡ p.index
  blocks : List Block
  inside : All (IsInside (length p.buf)) blocks
  written : p'.buf ≡ write_all blocks p.buf
  counted : p'.downloaded ≡ p.downloaded + sum_lengths blocks
