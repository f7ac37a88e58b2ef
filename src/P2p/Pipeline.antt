-- ===== src/P2p/Pipeline.antt =====
-- p2p/p2p.go: the requests of attemptDownloadPiece, which are sent ahead of the answers.
use bittorrent_over_scion.Common.{
  ℕ, zero, suc, ◌+◌, ◌-◌, ◌<◌, ◌≤◌, ◌≡◌, refl, ◌∙◌, List, [], ◌∷◌, ◌++◌, Bool, true, false, ◌&&◌,
  ltb, length, All, ℤ, pos, ltb_ℤ, pos_part, neg_part, sub_ℕ, ok, Bool-cases, inl, inr, arith, ◌>>◌,
}
use bittorrent_over_scion.Common.Stream.{Conn, View, IsStream, Runs, Runs-then, Runs-pure, Runs-ext}
use bittorrent_over_scion.Message.{format_request}
use bittorrent_over_scion.Message.Wire.{frame}
use bittorrent_over_scion.Message.Formats.{format_request-IsMessage}
use bittorrent_over_scion.Client.{send_request}
use bittorrent_over_scion.Client.Handshaking.{send-Runs}
use bittorrent_over_scion.P2p.{
  Progress, max_block_size, max_backlog, block_size, requested_more, send_requests,
  request_if_unchoked,
}

abbrev pub sum : List ℕ → ℕ
sum [] = 0
sum (n ∷ ns) = n + sum ns

-- The frames of requests for blocks of these sizes, one behind the other from `begin` on.
abbrev pub asks : ℤ → ℕ → List ℕ → List ℕ
asks index begin [] = []
asks index begin (n ∷ ns) =
    frame (format_request index (pos begin) (pos n)) ++ asks index (begin + n) ns

-- A size that may be asked for.
abbrev pub IsSize : ℕ → Type 0
IsSize n = (1 ≤ n) × (n ≤ max_block_size)

-- More can be asked for: fewer than MaxBacklog requests are open, and the piece is not all requested.
abbrev pub has_room : {Addr : Type 0} → ℕ → Progress Addr → Bool
has_room len p = ltb_ℤ p.backlog (pos max_backlog) && ltb p.requested len

abbrev pub add_ℕ : ℤ → ℕ → ℤ
add_ℕ a n = sub_ℕ (pos_part a + n) (neg_part a)

-- What a round of requests leaves: the blocks asked for stand one behind the other up to the end of
-- the piece at most, each has a proper size, and the round stops only when there is no more room.
pub record Advances {Addr : Type 0} (len : ℕ) (p p' : Progress Addr) (sizes : List ℕ) : Type 0 where
  pub same_index : p'.index ≡ p.index
  pub same_client : p'.client ≡ p.client
  pub same_buf : p'.buf ≡ p.buf
  pub same_downloaded : p'.downloaded ≡ p.downloaded
  pub more_requested : p'.requested ≡ p.requested + sum sizes
  pub more_open : p'.backlog ≡ add_ℕ p.backlog (length sizes)
  pub inside : p'.requested ≤ len
  pub proper : All IsSize sizes
  pub full : has_room len p' ≡ false

pub block_size-IsSize :
    (len requested : ℕ)
    → requested < len
    → IsSize (block_size len requested) × (requested + block_size len requested ≤ len)
unfolding block_size
block_size-IsSize len requested h = ground arith

pub send_request-Runs :
    (c : Conn) (v : View c.State) (stream : IsStream c v) (index begin n : ℤ) (inp : List ℕ)
    → Runs v (send_request c index begin n) inp (ok tt) inp (frame (format_request index begin n))
unfolding send_request
send_request-Runs c v stream index begin n inp =
    send-Runs c v stream (format_request index begin n) inp
      (format_request-IsMessage index begin n).fits

stay-Advances :
    {Addr : Type 0} (len : ℕ) (p : Progress Addr)
    → p.requested ≤ len
    → has_room len p ≡ false
    → Advances len p p []
stay-Advances len p h stop = record {
  same_index = refl;
  same_client = refl;
  same_buf = refl;
  same_downloaded = refl;
  more_requested = omega arith;
  more_open = ground arith;
  inside = h;
  proper = tt;
  full = stop;
}

module _ {Addr : Type 0} (c : Conn) where
  pub stop_lem :
      (fuel len : ℕ) (p : Progress Addr)
      → has_room len p ≡ false
      → (s : c.State) → send_requests c (suc fuel) len p s ≡ (ok p, s)
  unfolding send_requests
  stop_lem fuel len p h s = rw h

  pub go_on_lem :
      (fuel len : ℕ) (p : Progress Addr)
      → has_room len p ≡ true
      → (s : c.State)
      → send_requests c (suc fuel) len p s
        ≡ (send_request c p.index (pos p.requested) (pos (block_size len p.requested))
              >> send_requests c fuel len (requested_more c (block_size len p.requested) p))
            s
  unfolding send_requests
  go_on_lem fuel len p h s = rw h

  step-Advances :
      (len : ℕ) (p p' : Progress Addr) (sizes : List ℕ)
      → p.requested < len
      → Advances len (requested_more c (block_size len p.requested) p) p' sizes
      → Advances len p p' (block_size len p.requested ∷ sizes)
  unfolding requested_more
  step-Advances len p p' sizes h a = record {
    same_index = a.same_index;
    same_client = a.same_client;
    same_buf = a.same_buf;
    same_downloaded = a.same_downloaded;
    more_requested = omega (arith, a.more_requested);
    more_open = a.more_open ∙ ground arith;
    inside = a.inside;
    proper = ((block_size-IsSize len p.requested h).0, a.proper);
    full = a.full;
  }

  module _ (v : View c.State) (stream : IsStream c v) where
    -- On a working connection, with no more requested than the piece is long and with more fuel
    -- than there are bytes to request, the inner loop ends. It sends requests for blocks of 1 to
    -- MaxBlockSize bytes that follow one another from what was requested so far and end within the
    -- piece, counts them, stops only with a full backlog or the whole piece requested, and leaves
    -- the incoming bytes alone.
    pub send_requests-Advances :
        (fuel len : ℕ) (p : Progress Addr) (inp : List ℕ)
        → p.requested ≤ len
        → len - p.requested < fuel
        → (p' : Progress Addr) × (sizes : List ℕ) × Runs v
            (send_requests c fuel len p)
            inp
            (ok p')
            inp
            (asks p.index p.requested sizes)
          × Advances len p p' sizes
    unfolding requested_more
    send_requests-Advances zero len p inp h k = absurd (omega arith)
    send_requests-Advances (suc fuel) len p inp h k = elim (Bool-cases (has_room len p)) [
      | inr stop ↦
          (p, [], Runs-ext (stop_lem fuel len p stop) (Runs-pure p inp), stay-Advances len p h stop)
      | inl more ↦
          let size = block_size len p.requested in
          let lt : p.requested < len = ground arith in
          let ih =
            send_requests-Advances fuel len (requested_more c size p) inp
              (omega (arith, block_size-IsSize len p.requested lt))
              (omega (arith, block_size-IsSize len p.requested lt)) in
          let first : Runs v (send_request c p.index (pos p.requested) (pos size)) inp (ok tt) inp
              (frame (format_request p.index (pos p.requested) (pos size))) =
            send_request-Runs c v stream p.index (pos p.requested) (pos size) inp in
          (
            ih.0,
            size ∷ ih.1,
            Runs-ext (go_on_lem fuel len p more) (Runs-then first ih.2),
            step-Advances len p ih.0 ih.1 lt ih.3,
          )
    ]

    -- Requests are sent exactly to a peer that does not choke.
    pub request_if_unchoked-Runs :
        (len : ℕ) (p : Progress Addr) (inp : List ℕ)
        → p.requested ≤ len
        → (p' : Progress Addr) × (out : List ℕ) × Runs v
            (request_if_unchoked c len p)
            inp
            (ok p')
            inp
            out
          × (p'.index ≡ p.index)
          × (p'.client ≡ p.client)
          × (p'.buf ≡ p.buf)
          × (p'.downloaded ≡ p.downloaded)
          × (p'.requested ≤ len)
    unfolding request_if_unchoked
    request_if_unchoked-Runs len p inp h = elim (Bool-cases p.client.choked) [
      | inl choked ↦ (p, [], simp choked (Runs-pure p inp), refl, refl, refl, refl, h)
      | inr free ↦
          let (p', sizes, r, a) = send_requests-Advances (suc len) len p inp h (omega arith) in
          (
            p',
            asks p.index p.requested sizes,
            simp free r,
            a.same_index,
            a.same_client,
            a.same_buf,
            a.same_downloaded,
            a.inside,
          )
    ]
