-- ===== src/P2p/Workers.antt =====
-- p2p/p2p.go: the workers of startDownloadWorker and the loop of Download that waits for their
-- results, as steps that come in any order. A worker is one of the goroutines that range over
-- `workQueue`, with its connection; those of the first connections check the hash. `workQueue` is a
-- channel with room for one work for each piece hash, `results` has no buffer, so that a result is
-- handed over in one step. A worker whose round ends the program takes no step.
pub mod Conservation
pub mod Room
pub mod Verified
use bittorrent_over_scion.Common.{
  ℕ, ◌+◌, ◌<◌, ◌≡◌, List, [], ◌∷◌, ◌++◌, Bool, true, false, Option, none, some, length,
}
use bittorrent_over_scion.Common.Stream.{Conn}
use bittorrent_over_scion.Client.{Client}
use bittorrent_over_scion.P2p.{Torrent, PieceWork, PieceResult, queue_from}
use bittorrent_over_scion.P2p.Integrity.{Round, put_back, gave_up, delivered, died, work_round}

-- What a worker is about to do: wait for work, work, send the work back to the queue and go on, do
-- so and end, or send a result.
pub data Job : Type 0 where
  idle : Job
  working : PieceWork → Job
  returning : PieceWork → Job
  leaving : PieceWork → Job
  offering : PieceResult → Job
  ended : Job

-- The two channels: what waits in the queue, the results that Download has received, and whether
-- it has closed the queue.
pub record Channels : Type 0 where
  pub queue : List PieceWork
  pub results : List PieceResult
  pub closed : Bool

-- A send to `workQueue` goes through: it does not block, and the channel is not closed.
pub record HasRoom (capacity : ℕ) (h : Channels) : Type 0 where
  pub free : length h.queue < capacity
  pub is_open : h.closed ≡ false

abbrev pub put : Channels → PieceWork → Channels
put h pw = record h { queue = h.queue ++ (pw ∷ []) }

module _ (Addr : Type 0) (c : Conn) where
  pub record Worker : Type 0 where
    pub checked : Bool
    pub client : Client Addr
    pub conn : c.State
    pub job : Job

  pub record Downloading : Type 0 where
    pub channels : Channels
    pub workers : List Worker

abbrev pub IsChecked : {Addr : Type 0} {c : Conn} → Worker Addr c → Type 0
IsChecked w = w.checked ≡ true

module _ {Addr : Type 0} (sha1 : List ℕ → List ℕ) (c : Conn) where
  -- After a round with a piece.
  unfoldable pub after_round :
      Worker Addr c → PieceWork → Round Addr × c.State → Option (Worker Addr c)
  after_round w pw (put_back, s) = some (record w { conn = s; job = returning pw })
  after_round w pw (gave_up, s) = some (record w { conn = s; job = leaving pw })
  after_round w pw (delivered cl r, s) = some (record w { client = cl; conn = s; job = offering r })
  after_round w pw (died h, s) = none

  -- A step of one worker, with the channels before and after.
  pub data Act (capacity : ℕ) (h : Channels) (w : Worker Addr c) (h' : Channels)
      (w' : Worker Addr c) : Type 0 where
    takes :
        (pw : PieceWork) (rest : List PieceWork)
        → w.job ≡ idle
        → h.queue ≡ pw ∷ rest
        → h' ≡ record h { queue = rest }
        → w' ≡ record w { job = working pw }
        → Act capacity h w h' w'
    works :
        (fuel : ℕ) (pw : PieceWork)
        → w.job ≡ working pw
        → after_round w pw (work_round sha1 c w.checked fuel w.client pw w.conn) ≡ some w'
        → h' ≡ h
        → Act capacity h w h' w'
    returns :
        (pw : PieceWork)
        → w.job ≡ returning pw
        → HasRoom capacity h
        → h' ≡ put h pw
        → w' ≡ record w { job = idle }
        → Act capacity h w h' w'
    leaves :
        (pw : PieceWork)
        → w.job ≡ leaving pw
        → HasRoom capacity h
        → h' ≡ put h pw
        → w' ≡ record w { job = ended }
        → Act capacity h w h' w'
    offers :
        (r : PieceResult)
        → w.job ≡ offering r
        → length h.results < capacity
        → h' ≡ record h { results = h.results ++ (r ∷ []) }
        → w' ≡ record w { job = idle }
        → Act capacity h w h' w'
    finishes :
        w.job ≡ idle
        → h.queue ≡ []
        → h.closed ≡ true
        → h' ≡ h
        → w' ≡ record w { job = ended }
        → Act capacity h w h' w'

  -- A worker acts, a new one starts, Download closes the queue, or startDownloadWorker, after its
  -- workers have ended, finds a work in the queue and sends it back before it dials again.
  pub data Step (capacity : ℕ) (s t : Downloading Addr c) : Type 0 where
    acts :
        (before after : List (Worker Addr c)) (w w' : Worker Addr c)
        → s.workers ≡ before ++ (w ∷ after)
        → t.workers ≡ before ++ (w' ∷ after)
        → Act capacity s.channels w t.channels w'
        → Step capacity s t
    joins :
        (w : Worker Addr c)
        → w.job ≡ idle
        → t ≡ record s { workers = w ∷ s.workers }
        → Step capacity s t
    retries :
        (w : Worker Addr c) (pw : PieceWork) (rest : List PieceWork)
        → w.job ≡ leaving pw
        → w.checked ≡ true
        → s.channels.queue ≡ pw ∷ rest
        → t ≡ record { channels = record s.channels { queue = rest }; workers = w ∷ s.workers }
        → Step capacity s t
    closes :
        length s.channels.results ≡ capacity
        → t ≡ record s { channels = record s.channels { closed = true } }
        → Step capacity s t

  pub data Reach (capacity : ℕ) (s : Downloading Addr c) : Downloading Addr c → Type 0 where
    here : Reach capacity s s
    next : {t u : Downloading Addr c} → Reach capacity s t → Step capacity t u → Reach capacity s u

  -- `Download` fills the queue before the first worker starts.
  unfoldable pub start : Torrent → Downloading Addr c
  start t = record {
    channels = record { queue = queue_from t 0 t.piece_hashes; results = []; closed = false };
    workers = [];
  }
