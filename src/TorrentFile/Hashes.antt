-- ===== src/TorrentFile/Hashes.antt =====
-- torrentfile/torrentfile.go: the text of the piece hashes, cut into hashes.
use bittorrent_over_scion.Common.{
  ℕ, zero, suc, ◌+◌, ◌*◌, ◌/◌, ◌%◌, ◌≡◌, ◌≢◌, ◌⊎◌, inl, inr, refl, sym, ap, List, [], ◌∷◌, ◌++◌,
  ◌==◌, ==_iff, length, drop, drop_length, drop-drop, take-append-drop, length-take, length-drop,
  All, ok, err, malformed_pieces, Bool-cases, arith,
}
use bittorrent_over_scion.TorrentFile.{BencodeInfo, split_from, split_piece_hashes}

abbrev pub joined : List (List ℕ) → List ℕ
joined [] = []
joined (h ∷ hs) = h ++ joined hs

abbrev pub IsHash : List ℕ → Type 0
IsHash h = length h ≡ 20

split_from-shape :
    (n i : ℕ) (buf : List ℕ)
    → (n + i) * 20 ≡ length buf
    → (joined (split_from n i buf) ≡ drop (i * 20) buf)
      × (length (split_from n i buf) ≡ n)
      × All IsHash (split_from n i buf)
unfolding split_from
split_from-shape zero i buf h =
    let all : i * 20 ≡ length buf = omega arith in (rw all (sym (drop_length buf)), refl, tt)
split_from-shape (suc n) i buf h =
    let (whole, count, each) = split_from-shape n (i + 1) buf (omega arith) in
    let next : (i + 1) * 20 ≡ i * 20 + 20 = omega arith in
    (
      rw (whole, next, ← drop-drop 20 (i * 20) buf) (take-append-drop 20 (drop (i * 20) buf)),
      ap suc count,
      (omega (arith, length-take {0} 20 (drop (i * 20) buf), length-drop {0} (i * 20) buf), each),
    )

-- A text whose length is a multiple of 20 is cut into hashes of 20 bytes, as many as fit, which
-- joined are the text again. Any other is refused, with its length.
pub split_piece_hashes_cases :
    (i : BencodeInfo)
    → ((hs : List (List ℕ)) × (split_piece_hashes i ≡ ok hs)
        × (joined hs ≡ i.pieces)
        × (length hs * 20 ≡ length i.pieces)
        × All IsHash hs)
      ⊎ ((split_piece_hashes i ≡ err (malformed_pieces (length i.pieces)))
          × (length i.pieces % 20 ≢ 0))
unfolding split_piece_hashes
split_piece_hashes_cases i = elim (Bool-cases (length i.pieces % 20 == 0)) [
  | inl e ↦
      let n = length i.pieces / 20 in
      let exact : (n + 0) * 20 ≡ length i.pieces = omega (arith, (==_iff _ _).0 e) in
      let (whole, count, each) = split_from-shape n 0 i.pieces exact in
      inl (split_from n 0 i.pieces, rw e, whole, omega (arith, count), each)
  | inr e ↦ inr (rw e, λ z. ground arith)
]

pub split_piece_hashes-ok :
    (i : BencodeInfo) (hs : List (List ℕ))
    → split_piece_hashes i ≡ ok hs
    → (joined hs ≡ i.pieces) × All IsHash hs
split_piece_hashes-ok i hs e = elim (split_piece_hashes_cases i) [
  | inl (hs', e', whole, count, each) ↦
      let same : hs' ≡ hs = cc (e, e') in rw (← same) (whole, each)
  | inr (e', bad) ↦ cc (e, e')
]
