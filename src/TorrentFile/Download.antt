-- ===== src/TorrentFile/Download.antt =====
-- torrentfile/torrentfile.go: what DownloadToFile makes of a torrent file, and the way of a file from
-- its torrent to the buffer of the download.
use mathlib.Core.Path.{ap₂, subst}
use bittorrent_over_scion.Common.{
  ℕ, zero, suc, ◌+◌, ◌*◌, ◌<◌, ◌≤◌, ◌≡◌, refl, sym, ap, ◌∙◌, List, [], ◌∷◌, length, take, drop,
  get_elem?, take-append-eq, drop-append-eq, length-append, All, some, none, Option, ℤ, pos,
  max_int, Result, ok, halt, fatal, arith,
}
use bittorrent_over_scion.Common.Stream.{Conn}
use bittorrent_over_scion.Peers.{PeerSet, new_peer_set, add}
use bittorrent_over_scion.P2p.{Torrent}
use bittorrent_over_scion.P2p.Bounds.{Sized}
use bittorrent_over_scion.P2p.Assembly.{assemble, piece_of}
use bittorrent_over_scion.P2p.Workers.{IsChecked, Downloading, Reach, start}
use bittorrent_over_scion.P2p.Download.{download-content}
use bittorrent_over_scion.TorrentFile.{TorrentFile, BencodeInfo, BencodeTorrent, to_torrent_file}
use bittorrent_over_scion.TorrentFile.Hashes.{joined, IsHash}
use bittorrent_over_scion.TorrentFile.Nodes.{to_torrent_file-Describes}

-- The torrent of a download, as far as P2p models it.
unfoldable pub torrent_of : {Addr : Type 0} → TorrentFile Addr → Torrent
torrent_of t = record {
  piece_hashes = t.piece_hashes;
  piece_length = t.piece_length;
  length = t.length;
}

-- The peers of a download: none for the empty text. `parses` is whether snet takes the text.
unfoldable pub target_peers : (List ℕ → Option (Unit {0})) → List ℕ → Result PeerSet
target_peers parse_udp_addr [] = ok new_peer_set
target_peers parse_udp_addr (b ∷ bs) = elim (parse_udp_addr (b ∷ bs)) [
  | none ↦ halt fatal
  | some _ ↦ ok (add new_peer_set (record { addr = b ∷ bs; index = pos 0 }))
]

joined-injective :
    (hs hs' : List (List ℕ)) → All IsHash hs → All IsHash hs' → joined hs ≡ joined hs' → hs ≡ hs'
joined-injective [] [] a b e = refl
joined-injective [] (h ∷ hs') a (b, bs) e =
    absurd (omega (arith, ap length e, length-append h (joined hs'), b))
joined-injective (h ∷ hs) [] (a, as') b e =
    absurd (omega (arith, ap length e, length-append h (joined hs), a))
joined-injective (h ∷ hs) (h' ∷ hs') (a, as') (b, bs) e =
    let first : h ≡ h' =
      sym (take-append-eq h (joined hs) 20 a)
      ∙ ap (take 20) e
      ∙ take-append-eq h' (joined hs') 20 b in
    let rest : joined hs ≡ joined hs' =
      sym (drop-append-eq h (joined hs) 20 a)
      ∙ ap (drop 20) e
      ∙ drop-append-eq h' (joined hs') 20 b in
    ap₂ ◌∷◌ first (joined-injective hs hs' as' bs rest)

module _ (sha1 : List ℕ → List ℕ) (pl : ℕ) (content : List ℕ) where
  -- The hashes of `n` pieces of a file, from number `i` on.
  abbrev pub hashes_of : ℕ → ℕ → List (List ℕ)
  hashes_of zero i = []
  hashes_of (suc n) i = sha1 (piece_of pl content i) ∷ hashes_of n (i + 1)

  length-hashes_of : (n i : ℕ) → length (hashes_of n i) ≡ n
  length-hashes_of zero i = refl
  length-hashes_of (suc n) i = ap suc (length-hashes_of n (i + 1))

  hashes_of-IsHash :
      ((bs : List ℕ) → length (sha1 bs) ≡ 20) → (n i : ℕ) → All IsHash (hashes_of n i)
  hashes_of-IsHash h zero i = tt
  hashes_of-IsHash h (suc n) i = (h (piece_of pl content i), hashes_of-IsHash h n (i + 1))

  get_elem?-hashes_of :
      (n i j : ℕ) (hash : List ℕ)
      → get_elem? (hashes_of n i) j ≡ some hash
      → hash ≡ sha1 (piece_of pl content (i + j))
  get_elem?-hashes_of zero i j hash e = cc
  get_elem?-hashes_of (suc n) i zero hash e =
      let same : sha1 (piece_of pl content i) ≡ hash = cc in
      sym same ∙ ap (λ k. sha1 (piece_of pl content k)) (omega arith)
  get_elem?-hashes_of (suc n) i (suc j) hash e =
      get_elem?-hashes_of n (i + 1) j hash e ∙ ap (λ k. sha1 (piece_of pl content k)) (omega arith)

  -- The info of a torrent for the file, in `n` pieces.
  pub record IsPublished (n : ℕ) (info : BencodeInfo) : Type 0 where
    pub pieces : info.pieces ≡ joined (hashes_of n 0)
    pub cut : info.piece_length ≡ pos pl
    pub measured : info.length ≡ pos (length content)
    pub proper : 0 < pl
    pub enough : length content ≤ n * pl
    pub no_more : n * pl < length content + pl
    pub fits : length content + pl ≤ max_int

  module _ {Addr : Type 0} (parse_addr : List ℕ → ℤ → Option Addr)
      (marshal : BencodeInfo → Result (List ℕ)) (c : Conn) where
    -- From the torrent to the file: an accepted torrent file has the lengths of a file and, as the
    -- text of its pieces, the hashes of the file's pieces joined; the hash has 20 bytes, and
    -- nothing but a piece of the file has the hash of that piece. Then a download from it, by any
    -- number of workers that check and whose steps come in any order, ends with the file: once
    -- Download has received as many results as there are pieces, the buffer that it returns is the
    -- file. The piece length is positive, and the lengths are far enough from the largest int.
    pub download_to_file-content :
        (sized : (bs : List ℕ) → length (sha1 bs) ≡ 20) (n : ℕ) (bto : BencodeTorrent)
        (t : TorrentFile Addr)
        → IsPublished n bto.info
        → to_torrent_file parse_addr marshal sha1 bto ≡ ok t
        → ((buf : List ℕ) (i : ℕ)
            → i * pl < length content
            → sha1 buf ≡ sha1 (piece_of pl content i)
            → buf ≡ piece_of pl content i)
        → (s : Downloading Addr c)
        → Reach sha1 c (length t.piece_hashes) (start sha1 c (torrent_of t)) s
        → All IsChecked s.workers
        → length s.channels.results ≡ length t.piece_hashes
        → assemble (torrent_of t) s.channels.results ≡ ok content
    unfolding torrent_of
    download_to_file-content sized n bto t p e trusted s r checks done =
        let d = to_torrent_file-Describes parse_addr marshal sha1 bto t e in
        let sz : Sized (torrent_of t) pl (length content) = record {
          piece_length_pos = d.same_piece_length ∙ p.cut;
          length_pos = d.same_length ∙ p.measured;
          proper = p.proper;
        } in
        let all_hashes =
          joined-injective t.piece_hashes (hashes_of n 0) d.hashes_whole
            (hashes_of-IsHash sized n 0) (d.pieces_joined ∙ p.pieces) in
        let count : length t.piece_hashes ≡ n = ap length all_hashes ∙ length-hashes_of n 0 in
        download-content (torrent_of t) pl (length content) sz content sha1 refl p.fits trusted
          (subst (λ k. length content ≤ k * pl) (sym count) p.enough)
          (subst (λ k. k * pl < length content + pl) (sym count) p.no_more) c
          (λ j hash at.
            get_elem?-hashes_of n 0 j hash (subst (λ hs. get_elem? hs j ≡ some hash) all_hashes at))
          s r checks done
