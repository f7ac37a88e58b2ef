-- ===== src/Session/Serving.antt =====
-- server/server.go, p2p/p2p.go: the seeder of a download with one worker.
use bittorrent_over_scion.Common.{
  ℕ, zero, suc, ◌+◌, ◌*◌, ◌<◌, ◌^◌, ◌≡◌, refl, sym, ◌∙◌, List, [], ◌∷◌, ◌++◌, append_assoc, length,
  pos, arith, All, ok,
}
use bittorrent_over_scion.Common.Stream.{Conn, View, IsStream, Runs, Runs-cast, Runs-pure}
use bittorrent_over_scion.Message.{format_have}
use bittorrent_over_scion.Message.Wire.{frame}
use bittorrent_over_scion.Message.Formats.{format_request-IsMessage, format_have-IsMessage}
use bittorrent_over_scion.Message.Blocks.{piece_message}
use bittorrent_over_scion.Server.{Server, handle_loop, handle_message}
use bittorrent_over_scion.Server.Requests.{request_of, handle_request-Runs}
use bittorrent_over_scion.Server.Sessions.{
  Request, InFile, requests, answers, keep_alive, loop_step, loop_end,
}
use bittorrent_over_scion.Session.Seeded.{requests_of, requests_of-InFile}
use bittorrent_over_scion.Session.Rounds.{all_requests, all_answers}
use bittorrent_over_scion.Session.Download.{IsSmall}

module _ {Addr : Type 0} (d : Conn) (s : Server Addr) (v : View d.State)
    (stream : IsStream d v) where
  -- A HAVE is passed over.
  handle_have-Runs :
      (i : ℕ) (inp : List ℕ) → Runs v (handle_message d s (format_have (pos i))) inp (ok tt) inp []
  unfolding handle_message format_have
  handle_have-Runs i inp = Runs-pure tt inp

  -- Enough fuel for what the seeder reads and answers.
  pub record Served (inp rest out : List ℕ) : Type 0 where
    pub fuel : ℕ
    pub runs : Runs v (handle_loop d s fuel) inp (ok tt) rest out

  module _ (pl : ℕ) (piece_length : s.torrent_file.piece_length ≡ pos pl) where
    then_Served :
        (rs : List Request) (inp rest out : List ℕ)
        → All (InFile s.torrent_file.content.bytes pl) rs
        → Served inp rest out
        → Served (requests rs ++ inp) rest (answers rs ++ out)
    then_Served [] inp rest out h k = k
    then_Served (r ∷ rs) inp rest out (b, h) k =
        let x = then_Served rs inp rest out h k in
        record {
          fuel = suc x.fuel;
          runs =
              Runs-cast
                (sym (append_assoc (frame (request_of r.index r.begin r.block)) (requests rs) inp))
                refl
                (sym
                  (append_assoc (frame (piece_message r.index r.begin r.block)) (answers rs) out))
                (loop_step d s v stream (request_of r.index r.begin r.block) x.fuel _ _ rest _
                  (format_request-IsMessage _ _ _).fits
                  (handle_request-Runs d s pl piece_length v stream r.index r.begin r.pre r.block
                    r.post b _)
                  x.runs);
        }

    then_have :
        (i : ℕ) (inp rest out : List ℕ)
        → Served inp rest out
        → Served (frame (format_have (pos i)) ++ inp) rest out
    then_have i inp rest out k = record {
      fuel = suc k.fuel;
      runs =
          loop_step d s v stream (format_have (pos i)) k.fuel inp [] rest out
            (format_have-IsMessage (pos i)).fits (handle_have-Runs i inp) k.runs;
    }

    module _ (len : ℕ) (small : IsSmall pl len)
        (whole : length s.torrent_file.content.bytes ≡ len) where
      pub all-Served :
          (n i : ℕ) (rest : List ℕ)
          → (i + n) * pl < len + pl
          → i + n < 2 ^ 32
          → Served
              (all_requests s.torrent_file.content.bytes pl i n ++ (keep_alive ++ rest))
              rest
              (all_answers s.torrent_file.content.bytes pl i n)
      all-Served zero i rest inside short = record { fuel = 1; runs = loop_end d s v stream 0 rest }
      all-Served (suc n) i rest inside short =
          let file = s.torrent_file.content.bytes in
          let rs = requests_of file pl i in
          let later = all_requests file pl (i + 1) n ++ (keep_alive ++ rest) in
          let x =
            then_Served rs _ rest _
              (requests_of-InFile file pl i (omega arith) (omega (arith, whole)) small.piece_u32
                (omega (arith, whole, small.file_u32)))
              (then_have i later rest _ (all-Served n (i + 1) rest (omega arith) (omega arith))) in
          record {
            fuel = x.fuel;
            runs =
                Runs-cast
                  (sym (
                    append_assoc (requests rs ++ frame (format_have (pos i)))
                      (all_requests file pl (i + 1) n) (keep_alive ++ rest)
                    ∙ append_assoc (requests rs) (frame (format_have (pos i))) later))
                  refl refl x.runs;
          }
