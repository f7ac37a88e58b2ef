-- ===== src/P2p/Integrity.antt =====
-- p2p/p2p.go: checkIntegrity, and one round of a download worker with a piece from the queue. The
-- workers of the first connections check the hash; those of connections found later do not.
use mathlib.Core.Path.{subst}
use bittorrent_over_scion.Common.{
  ℕ, ◌≡◌, refl, List, Bool, true, not, if◌then◌else◌, bytes_equal, bytes_equal→eq, Bool-cases, inl,
  inr, Result, ok, err, halt, Halt, fatal, integrity, try,
}
use bittorrent_over_scion.Common.Stream.{Conn}
use bittorrent_over_scion.Bitfield.{has_piece}
use bittorrent_over_scion.Client.{Client, send_have}
use bittorrent_over_scion.P2p.{Progress, PieceWork, PieceResult, attempt_download_piece}

module _ (sha1 : List ℕ → List ℕ) where
  unfoldable pub check_integrity : PieceWork → List ℕ → Result (Unit {0})
  check_integrity pw buf = if not (bytes_equal (sha1 buf) pw.hash) then err integrity else ok tt

-- What a round comes to: the piece goes back to the queue; or it does and the worker ends, its
-- connection closed; or a result goes out; or the program ends.
pub data Round (Addr : Type 0) : Type 0 where
  put_back : Round Addr
  gave_up : Round Addr
  delivered : Client Addr → PieceResult → Round Addr
  died : Halt → Round Addr

module _ {Addr : Type 0} (sha1 : List ℕ → List ℕ) (c : Conn) where
  -- A wrong hash is a `log.Fatalf`, which ends the program; the lines below it are not reached.
  deliver : Progress Addr → PieceWork → Result (Unit {0}) → c.State → Round Addr × c.State
  deliver p pw (ok u) s = (
    delivered p.client (record { index = pw.index; buf = p.buf }),
    (try (send_have c pw.index) s).1,
  )
  deliver p pw (err e) s = (died fatal, s)
  deliver p pw (halt h) s = (died h, s)

  attempted : Bool → PieceWork → Result (Progress Addr) → c.State → Round Addr × c.State
  unfolding deliver
  attempted checked pw (ok p) s =
      deliver p pw (if checked then check_integrity sha1 pw p.buf else ok tt) s
  attempted checked pw (err e) s = (gave_up, (c.close s).1)
  attempted checked pw (halt h) s = (died h, s)

  unfoldable pub work_round : Bool → ℕ → Client Addr → PieceWork → c.State → Round Addr × c.State
  unfolding attempted
  work_round checked fuel cl pw s =
      if not (has_piece cl.bitfield pw.index)
      then (put_back, s)
      else attempted checked pw (attempt_download_piece c fuel cl pw s).0
          (attempt_download_piece c fuel cl pw s).1

  deliver-hash :
      (p : Progress Addr) (pw : PieceWork) (s : c.State) (cl : Client Addr) (r : PieceResult)
      → (deliver p pw (check_integrity sha1 pw p.buf) s).0 ≡ delivered cl r
      → (sha1 r.buf ≡ pw.hash) × (r.index ≡ pw.index)
  unfolding deliver check_integrity
  deliver-hash p pw s cl r e = elim (Bool-cases (bytes_equal (sha1 p.buf) pw.hash)) [
    | inl same ↦
        let made : PieceResult = record { index = pw.index; buf = p.buf } in
        let same_result : made ≡ r = cc (rw same at e) in
        subst (λ x. (sha1 x.buf ≡ pw.hash) × (x.index ≡ pw.index)) same_result
          (bytes_equal→eq _ _ same, refl)
    | inr other ↦ cc (rw other at e)
  ]

  deliver-index :
      (p : Progress Addr) (pw : PieceWork) (u : Result (Unit {0})) (s : c.State) (cl : Client Addr)
      (r : PieceResult)
      → (deliver p pw u s).0 ≡ delivered cl r
      → r.index ≡ pw.index
  unfolding deliver
  deliver-index p pw (ok u) s cl r e =
      let made : PieceResult = record { index = pw.index; buf = p.buf } in
      let same_result : made ≡ r = cc in subst (λ x. x.index ≡ pw.index) same_result refl
  deliver-index p pw (err x) s cl r e = cc
  deliver-index p pw (halt x) s cl r e = cc

  attempted-index :
      (checked : Bool) (pw : PieceWork) (a : Result (Progress Addr)) (s : c.State)
      (cl : Client Addr) (r : PieceResult)
      → (attempted checked pw a s).0 ≡ delivered cl r
      → r.index ≡ pw.index
  unfolding attempted
  attempted-index checked pw (ok p) s cl r e = deliver-index p pw _ s cl r e
  attempted-index checked pw (err x) s cl r e = cc
  attempted-index checked pw (halt x) s cl r e = cc

  pub work_round-index :
      (checked : Bool) (fuel : ℕ) (cl : Client Addr) (pw : PieceWork) (s : c.State)
      (cl' : Client Addr) (r : PieceResult)
      → (work_round checked fuel cl pw s).0 ≡ delivered cl' r
      → r.index ≡ pw.index
  unfolding work_round
  work_round-index checked fuel cl pw s cl' r e =
      elim (Bool-cases (has_piece cl.bitfield pw.index)) [
        | inl has ↦ attempted-index checked pw _ _ cl' r (rw has at e)
        | inr lacks ↦ cc (rw lacks at e)
      ]

  attempted-hash :
      (pw : PieceWork) (a : Result (Progress Addr)) (s : c.State) (cl : Client Addr)
      (r : PieceResult)
      → (attempted true pw a s).0 ≡ delivered cl r
      → (sha1 r.buf ≡ pw.hash) × (r.index ≡ pw.index)
  unfolding attempted
  attempted-hash pw (ok p) s cl r e = deliver-hash p pw s cl r e
  attempted-hash pw (err x) s cl r e = cc
  attempted-hash pw (halt x) s cl r e = cc

  -- On any connection at all, a worker that checks delivers only a piece that the peer has, under
  -- the piece's own number, and with bytes whose hash is the one in the torrent.
  pub work_round-verified :
      (fuel : ℕ) (cl : Client Addr) (pw : PieceWork) (s : c.State) (cl' : Client Addr)
      (r : PieceResult)
      → (work_round true fuel cl pw s).0 ≡ delivered cl' r
      → (has_piece cl.bitfield pw.index ≡ true) × (sha1 r.buf ≡ pw.hash) × (r.index ≡ pw.index)
  unfolding work_round
  work_round-verified fuel cl pw s cl' r e = elim (Bool-cases (has_piece cl.bitfield pw.index)) [
    | inl has ↦ let (h, i) = attempted-hash pw _ _ cl' r (rw has at e) in (has, h, i)
    | inr lacks ↦ cc (rw lacks at e)
  ]
