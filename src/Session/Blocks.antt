-- ===== src/Session/Blocks.antt =====
-- p2p/p2p.go, server/server.go: a piece cut into the blocks that are asked for, and the seeder's
-- requests for them.
use bittorrent_over_scion.Common.{
  ℕ, suc, ◌+◌, ◌*◌, ◌<◌, ◌≤◌, ◌^◌, ◌≡◌, refl, sym, ap, ◌∙◌, List, [], ◌∷◌, ◌++◌, append_assoc,
  length, length-append, length-take, length-drop, take, drop, take-append-drop, nil_of_length, pos,
  max_int, arith, All,
}
use bittorrent_over_scion.Message.Wire.{frame}
use bittorrent_over_scion.Message.Blocks.{piece_message}
use bittorrent_over_scion.Message.{format_request}
use bittorrent_over_scion.P2p.Assembly.{piece_of}
use bittorrent_over_scion.P2p.Pipeline.{sum, asks}
use bittorrent_over_scion.P2p.Exchange.Turns.{block_frames, joined}
use bittorrent_over_scion.P2p.Exchange.Whole.{lengths}
use bittorrent_over_scion.Server.Sessions.{Request, InFile, requests, answers}

-- The bytes, cut into parts of the given sizes.
abbrev pub cut : List ℕ → List ℕ → List (List ℕ)
cut [] bytes = []
cut (n ∷ ns) bytes = take n bytes ∷ cut ns (drop n bytes)

pub joined-cut : (ns bytes : List ℕ) → sum ns ≡ length bytes → joined (cut ns bytes) ≡ bytes
joined-cut [] bytes e = sym (nil_of_length bytes (omega (arith, e)))
joined-cut (n ∷ ns) bytes e =
    ap (λ l. take n bytes ++ l)
      (joined-cut ns (drop n bytes) (omega (arith, e, length-drop n bytes)))
    ∙ take-append-drop n bytes

pub lengths-cut : (ns bytes : List ℕ) → sum ns ≡ length bytes → lengths (cut ns bytes) ≡ ns
lengths-cut [] bytes e = refl
lengths-cut (n ∷ ns) bytes e =
    let first : length (take n bytes) ≡ n = length-take n bytes ∙ omega (arith, e) in
    ap (λ k. k ∷ lengths (cut ns (drop n bytes))) first
    ∙ ap (λ l. n ∷ l) (lengths-cut ns (drop n bytes) (omega (arith, e, length-drop n bytes)))

-- The requests for the blocks, which lie one behind the other in the file.
abbrev pub requests_for : ℕ → ℕ → List ℕ → List ℕ → List (List ℕ) → List Request
requests_for index begin pre post [] = []
requests_for index begin pre post (b ∷ bs) =
    record { index = index; begin = begin; pre = pre; block = b; post = joined bs ++ post }
    ∷ requests_for index (begin + length b) (pre ++ b) post bs

pub length-requests_for :
    (index begin : ℕ) (pre post : List ℕ) (bs : List (List ℕ))
    → length (requests_for index begin pre post bs) ≡ length bs
length-requests_for index begin pre post [] = refl
length-requests_for index begin pre post (b ∷ bs) =
    ap suc (length-requests_for index (begin + length b) (pre ++ b) post bs)

-- They are, byte for byte, what the leecher sends.
pub requests-asks :
    (index begin : ℕ) (pre post : List ℕ) (bs : List (List ℕ))
    → requests (requests_for index begin pre post bs) ≡ asks (pos index) begin (lengths bs)
requests-asks index begin pre post [] = refl
requests-asks index begin pre post (b ∷ bs) =
    ap (λ l. frame (format_request (pos index) (pos begin) (pos (length b))) ++ l)
      (requests-asks index (begin + length b) (pre ++ b) post bs)

-- Their answers are, byte for byte, what the leecher reads.
pub answers-block_frames :
    (index begin : ℕ) (pre post : List ℕ) (bs : List (List ℕ))
    → answers (requests_for index begin pre post bs) ≡ block_frames index begin bs
answers-block_frames index begin pre post [] = refl
answers-block_frames index begin pre post (b ∷ bs) =
    ap (λ l. frame (piece_message index begin b) ++ l)
      (answers-block_frames index (begin + length b) (pre ++ b) post bs)

module _ (file : List ℕ) (pl index : ℕ) (index_u32 : index < 2 ^ 32)
    (file_int : length file ≤ max_int) where
  pub requests_for-InFile :
      (begin : ℕ) (pre post : List ℕ) (bs : List (List ℕ))
      → file ≡ pre ++ (joined bs ++ post)
      → length pre ≡ index * pl + begin
      → begin + length (joined bs) + 13 < 2 ^ 32
      → All (InFile file pl) (requests_for index begin pre post bs)
  requests_for-InFile begin pre post [] placed at fits = tt
  requests_for-InFile begin pre post (b ∷ bs) placed at fits =
      let size = length-append b (joined bs) in
      let whole : file ≡ pre ++ (b ++ (joined bs ++ post)) =
        placed ∙ ap (λ l. pre ++ l) (append_assoc b (joined bs) post) in
      (
        record {
          placed = whole;
          offset = at;
          index_u32 = index_u32;
          begin_u32 = omega (arith, fits);
          block_u32 = omega (arith, fits, size);
          file_int = file_int;
        },
        requests_for-InFile (begin + length b) (pre ++ b) post bs
            (whole ∙ sym (append_assoc pre b (joined bs ++ post)))
            (omega (arith, at, length-append pre b)) (omega (arith, fits, size)),
      )

-- A piece in its file.
pub file-piece :
    (pl i : ℕ) (file : List ℕ)
    → file ≡ take (i * pl) file ++ (piece_of pl file i ++ drop pl (drop (i * pl) file))
file-piece pl i file =
    sym (take-append-drop (i * pl) file)
    ∙ ap (λ l. take (i * pl) file ++ l) (sym (take-append-drop pl (drop (i * pl) file)))
