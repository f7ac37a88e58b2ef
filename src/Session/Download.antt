-- ===== src/Session/Download.antt =====
-- p2p/p2p.go, server/server.go: Download with one worker, whose peer is a seeder of the file.
use mathlib.Core.Path.{subst}
use bittorrent_over_scion.Common.{
  ℕ, suc, ◌+◌, ◌*◌, ◌<◌, ◌≤◌, ◌^◌, ◌≡◌, refl, sym, ap, ◌∙◌, List, [], ◌∷◌, ◌++◌, append_assoc,
  append-nil, true, false, length, length-append, length-take, take, drop, pos, arith,
}
use bittorrent_over_scion.Common.Stream.{Conn, View, IsStream}
use bittorrent_over_scion.Message.{format_have}
use bittorrent_over_scion.Message.Wire.{frame}
use bittorrent_over_scion.Bitfield.{has_piece}
use bittorrent_over_scion.P2p.{Torrent, PieceResult, queue_from, calculate_piece_size}
use bittorrent_over_scion.P2p.Bounds.{Sized}
use bittorrent_over_scion.P2p.Assembly.{piece_of}
use bittorrent_over_scion.P2p.Workers.{Worker, Downloading, idle, Reach}
use bittorrent_over_scion.P2p.Download.{Describes}
use bittorrent_over_scion.Server.Sessions.{requests, answers}
use bittorrent_over_scion.Session.Seeded.{requests_of, attempt_download_piece-served}
use bittorrent_over_scion.Session.Delivery.{Delivered, work_round-Delivered}
use bittorrent_over_scion.Session.Rounds.{
  all_requests, all_answers, results_of, piece_size_lem, single, one_piece,
}

-- The numbers of the torrent and of the file are small enough for the messages.
pub record IsSmall (pl len : ℕ) : Type 0 where
  pub piece_u32 : pl + 13 < 2 ^ 32
  pub file_u32 : len + pl < 2 ^ 32

module _ {Addr : Type 0} (sha1 : List ℕ → List ℕ) (c : Conn) (v : View c.State)
    (stream : IsStream c v) (t : Torrent) (pl len : ℕ) (sz : Sized t pl len)
    (small : IsSmall pl len) (file : List ℕ) (whole : length file ≡ len) where
  -- A round for one piece of the file.
  piece_round :
      (w : Worker Addr c) (i : ℕ) (hash rest : List ℕ)
      → w.client.choked ≡ false
      → has_piece w.client.bitfield (pos i) ≡ true
      → i * pl < len
      → i < 2 ^ 32
      → hash ≡ sha1 (piece_of pl file i)
      → v.incoming w.conn ≡ answers (requests_of file pl i) ++ rest
      → Delivered sha1 c v w
          (suc (length (requests_of file pl i)))
          (record { index = pos i; hash = hash; length = calculate_piece_size t (pos i) })
          i
          (piece_of pl file i)
          rest
          (requests (requests_of file pl i))
  piece_round w i hash rest free has inside short hashed at =
      let piece = piece_of pl file i in
      let (p, run, content, same) =
        attempt_download_piece-served c v stream w.client i (sha1 piece) piece (take (i * pl) file)
          (drop pl (drop (i * pl) file)) rest free short
          (omega (arith, length-take pl (drop (i * pl) file), small.piece_u32)) in
      let rs = requests_of file pl i in
      let fuel = suc (length rs) in
      let d =
        work_round-Delivered sha1 c v stream w fuel i piece _ rest (requests rs) (length piece) p at
          has run content same in
      subst
        (λ h.
          Delivered sha1 c v w fuel
            (record { index = pos i; hash = h; length = calculate_piece_size t (pos i) }) i piece
            rest (requests rs))
        (sym hashed)
        (subst
          (λ k.
            Delivered sha1 c v w fuel (record { index = pos i; hash = sha1 piece; length = k }) i
              piece rest (requests rs))
          (sym (piece_size_lem t pl len sz file i whole inside (omega (arith, small.file_u32)))) d)

  module _ (capacity : ℕ) (s : Downloading Addr c) where
    -- The worker after all of its rounds.
    pub record Worked (w : Worker Addr c) (i n : ℕ) (results : List PieceResult) (rest : List ℕ)
        : Type 0 where
      pub conn : c.State
      pub reached :
          Reach sha1 c capacity s
            (single sha1 c (record w { conn = conn }) [] (results ++ results_of file pl i n))
      pub left : v.incoming conn ≡ rest
      pub sent : v.sent conn ≡ v.sent w.conn ++ all_requests file pl i n

    pub all_pieces :
        (hashes : List (List ℕ)) (w : Worker Addr c) (i : ℕ) (results : List PieceResult)
        (rest : List ℕ)
        → w.client.choked ≡ false
        → ((k : ℕ) → k < i + length hashes → has_piece w.client.bitfield (pos k) ≡ true)
        → (i + length hashes) * pl < len + pl
        → i + length hashes < 2 ^ 32
        → Describes t pl len sz file sha1 i hashes
        → w.job ≡ idle
        → length results + length hashes ≤ capacity
        → v.incoming w.conn ≡ all_answers file pl i (length hashes) ++ rest
        → Reach sha1 c capacity s (single sha1 c w (queue_from t i hashes) results)
        → Worked w i (length hashes) results rest
    unfolding queue_from
    all_pieces [] w i results rest free has inside short d job room at run = record {
      conn = w.conn;
      reached =
          subst (λ l. Reach sha1 c capacity s (single sha1 c w [] l)) (sym (append-nil results))
            run;
      left = at;
      sent = sym (append-nil (v.sent w.conn));
    }
    all_pieces (x ∷ hashes) w i results rest free has inside short d job room at run =
        let made : PieceResult = record { index = pos i; buf = piece_of pl file i } in
        let more = all_answers file pl (i + 1) (length hashes) ++ rest in
        let r =
          piece_round w i x more free (has i (omega arith)) (omega arith) (omega arith)
            (d 0 x refl ∙ ap (λ k. sha1 (piece_of pl file k)) (omega arith))
            (at
              ∙ append_assoc (answers (requests_of file pl i))
                  (all_answers file pl (i + 1) (length hashes)) rest) in
        let y =
          all_pieces hashes (record w { conn = r.conn }) (i + 1) (results ++ (made ∷ [])) rest free
            (λ k lt. has k (omega arith)) (omega arith) (omega arith)
            (λ j hash e. d (suc j) hash e ∙ ap (λ k. sha1 (piece_of pl file k)) (omega arith)) job
            (omega (arith, room, length-append results (made ∷ []))) r.left
            (one_piece sha1 c v capacity s w _ i _ _ _ _ (queue_from t (i + 1) hashes) results job
              (omega (arith, room)) r run) in
        record {
          conn = y.conn;
          reached =
              subst (λ l. Reach sha1 c capacity s (single sha1 c (record w { conn = y.conn }) [] l))
                (append_assoc results (made ∷ []) (results_of file pl (i + 1) (length hashes)))
                y.reached;
          left = y.left;
          sent =
              y.sent
              ∙ ap (λ l. l ++ all_requests file pl (i + 1) (length hashes)) r.sent
              ∙ append_assoc (v.sent w.conn)
                  (requests (requests_of file pl i) ++ frame (format_have (pos i)))
                  (all_requests file pl (i + 1) (length hashes));
        }
