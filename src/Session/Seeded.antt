-- ===== src/Session/Seeded.antt =====
-- p2p/p2p.go, server/server.go: a leecher that downloads a piece from a seeder.
use mathlib.Core.Path.{subst}
use bittorrent_over_scion.Common.{
  ℕ, suc, ◌+◌, ◌*◌, ◌<◌, ◌≤◌, ◌^◌, ◌≡◌, refl, sym, ap, ◌∙◌, List, ◌++◌, false, length, length-take,
  take, drop, pos, max_int, arith, All, ok,
}
use bittorrent_over_scion.Common.Stream.{Conn, View, IsStream, Runs, Runs-cast}
use bittorrent_over_scion.Client.{Client}
use bittorrent_over_scion.P2p.{Progress, PieceWork, attempt_download_piece}
use bittorrent_over_scion.P2p.Assembly.{piece_of}
use bittorrent_over_scion.P2p.Pipeline.{sum}
use bittorrent_over_scion.P2p.Exchange.{IsPlan, IsPlan-sum, plan, plan-IsPlan}
use bittorrent_over_scion.P2p.Exchange.Turns.{joined}
use bittorrent_over_scion.P2p.Exchange.Whole.{lengths}
use bittorrent_over_scion.P2p.Exchange.Piece.{attempt_download_piece-asks}
use bittorrent_over_scion.Server.Sessions.{Request, InFile, requests, answers}
use bittorrent_over_scion.Session.Blocks.{
  cut, joined-cut, lengths-cut, requests_for, length-requests_for, requests-asks,
  answers-block_frames, requests_for-InFile, file-piece,
}

-- The blocks of a piece, as the leecher asks for them.
abbrev pub blocks_of : List ℕ → List (List ℕ)
blocks_of piece = cut (plan (length piece) (length piece) 0) piece

blocks_of-sum : (piece : List ℕ) → sum (plan (length piece) (length piece) 0) ≡ length piece
blocks_of-sum piece = omega (
  arith,
  IsPlan-sum (length piece) 0 _
      (plan-IsPlan (length piece) (length piece) 0 (omega arith) (omega arith)),
)

pub joined-blocks_of : (piece : List ℕ) → joined (blocks_of piece) ≡ piece
joined-blocks_of piece =
    joined-cut (plan (length piece) (length piece) 0) piece (blocks_of-sum piece)

pub blocks_of-IsPlan : (piece : List ℕ) → IsPlan (length piece) 0 (lengths (blocks_of piece))
blocks_of-IsPlan piece =
    subst (λ ns. IsPlan (length piece) 0 ns)
      (sym (lengths-cut (plan (length piece) (length piece) 0) piece (blocks_of-sum piece)))
      (plan-IsPlan (length piece) (length piece) 0 (omega arith) (omega arith))

-- The requests of a leecher for a piece of the file.
abbrev pub requests_of : List ℕ → ℕ → ℕ → List Request
requests_of file pl i =
    requests_for i 0 (take (i * pl) file) (drop pl (drop (i * pl) file))
      (blocks_of (piece_of pl file i))

pub requests_of-InFile :
    (file : List ℕ) (pl i : ℕ)
    → i < 2 ^ 32
    → i * pl ≤ length file
    → pl + 13 < 2 ^ 32
    → length file ≤ max_int
    → All (InFile file pl) (requests_of file pl i)
requests_of-InFile file pl i small inside fits int =
    let whole = joined-blocks_of (piece_of pl file i) in
    requests_for-InFile file pl i small int 0 (take (i * pl) file) (drop pl (drop (i * pl) file))
      (blocks_of (piece_of pl file i))
      (file-piece pl i file
        ∙ ap (λ l. take (i * pl) file ++ (l ++ drop pl (drop (i * pl) file))) (sym whole))
      (length-take (i * pl) file ∙ omega (arith, inside))
      (omega (arith, ap length whole, length-take pl (drop (i * pl) file), fits))

module _ {Addr : Type 0} (c : Conn) (v : View c.State) (leeching : IsStream c v) where
  pub attempt_download_piece-served :
      (cl : Client Addr) (i : ℕ) (hash piece pre post rest : List ℕ)
      → cl.choked ≡ false
      → i < 2 ^ 32
      → length piece + 13 < 2 ^ 32
      → (p : Progress Addr) × Runs v
          (attempt_download_piece c
            (suc (length (requests_for i 0 pre post (blocks_of piece))))
            cl
            (record { index = pos i; hash = hash; length = pos (length piece) }))
          (answers (requests_for i 0 pre post (blocks_of piece)) ++ rest)
          (ok p)
          rest
          (requests (requests_for i 0 pre post (blocks_of piece)))
        × (p.buf ≡ piece)
        × (p.client ≡ cl)
  attempt_download_piece-served cl i hash piece pre post rest free small fits =
      let bs = blocks_of piece in
      let whole = joined-blocks_of piece in
      let work : ℕ → PieceWork = λ len. record { index = pos i; hash = hash; length = pos len } in
      let rs = requests_for i 0 pre post bs in
      let (p, run, content, same_client) =
        attempt_download_piece-asks c v leeching i small cl free hash bs rest
          (omega (arith, ap length whole, fits))
          (subst (λ k. IsPlan k 0 (lengths bs)) (ap length (sym whole)) (blocks_of-IsPlan piece)) in
      (
        p,
        subst
            (λ n.
              Runs v (attempt_download_piece c (suc n) cl (work (length piece)))
                (answers rs ++ rest) (ok p) rest (requests rs))
            (sym (length-requests_for i 0 pre post bs))
            (subst
              (λ len.
                Runs v (attempt_download_piece c (suc (length bs)) cl (work len))
                  (answers rs ++ rest) (ok p) rest (requests rs))
              (ap length whole)
              (Runs-cast (ap (λ l. l ++ rest) (sym (answers-block_frames i 0 pre post bs))) refl
                (sym (requests-asks i 0 pre post bs)) run)),
        content ∙ whole,
        same_client,
      )
