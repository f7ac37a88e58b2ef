-- ===== src/P2p/Parcels.antt =====
-- p2p/p2p.go: a peer's answers to attemptDownloadPiece, and what the loop does with each.
use bittorrent_over_scion.Common.{
  Option, Result, ℕ, suc, ◌+◌, ◌<◌, ◌≤◌, ◌^◌, ◌≡◌, refl, sym, ◌∙◌, List, [], ◌∷◌, ◌++◌,
  append_assoc, lt→ltb, le→ltb, length, length-append, All, pos, ok, arith, ◌>>=◌,
}
use bittorrent_over_scion.Common.Stream.{
  Conn, View, IsStream, Runs, Runs-bind, Runs-lift, Runs-ext, Runs-cast,
}
use bittorrent_over_scion.Message.{Message, parse_piece}
use bittorrent_over_scion.Message.Wire.{frame, frame?, read-frame}
use bittorrent_over_scion.Message.Blocks.{
  piece_message, parse_piece-piece_message, length-piece_message,
}
use bittorrent_over_scion.P2p.{
  Progress, dec, take_message, take_message?, take_block, read_message, request_if_unchoked,
  download_loop,
}
use bittorrent_over_scion.P2p.Notes.{IsNote?, read_note}
use bittorrent_over_scion.P2p.Pipeline.{request_if_unchoked-Runs}

-- A block, and the messages that come before it.
pub record Parcel : Type 0 where
  pub notes : List (Option Message)
  pub block : List ℕ

abbrev pub joined : List Parcel → List ℕ
joined [] = []
joined (x ∷ xs) = x.block ++ joined xs

abbrev pub note_frames : List (Option Message) → List ℕ
note_frames [] = []
note_frames (m ∷ ms) = frame? m ++ note_frames ms

-- The frames of a peer that sends the blocks in their order, from `begin` on.
abbrev pub deliveries : ℕ → ℕ → List Parcel → List ℕ
deliveries index begin [] = []
deliveries index begin (x ∷ xs) =
    note_frames x.notes
    ++ (frame (piece_message index begin x.block) ++ deliveries index (begin + length x.block) xs)

abbrev pub plus_length {ℓ} : {A : Type ℓ} → List A → ℕ → ℕ
plus_length [] k = k
plus_length (x ∷ xs) k = suc (plus_length xs k)

-- How many messages these are.
abbrev pub messages : List Parcel → ℕ
messages [] = 0
messages (x ∷ xs) = plus_length x.notes (suc (messages xs))

-- A block of a byte at least, behind notes.
pub record IsParcel (x : Parcel) : Type 0 where
  pub nonempty : 0 < length x.block
  pub noted : All IsNote? x.notes

module _ {Addr : Type 0} (c : Conn) where
  pub loop_ends :
      (fuel len : ℕ) (p : Progress Addr)
      → len ≤ p.downloaded
      → (s : c.State) → download_loop c (suc fuel) len p s ≡ (ok p, s)
  unfolding download_loop
  loop_ends fuel len p h s = rw (le→ltb p.downloaded len h)

  pub loop_goes_on :
      (fuel len : ℕ) (p : Progress Addr)
      → p.downloaded < len
      → (s : c.State)
      → download_loop c (suc fuel) len p s
        ≡ (request_if_unchoked c len p >>= λ p₁.
              read_message c p₁ >>= λ p₂. download_loop c fuel len p₂)
            s
  unfolding download_loop
  loop_goes_on fuel len p h s = rw (lt→ltb p.downloaded len h)

  -- What a block does to the progress, when it is the next one.
  pub record Extends (p p' : Progress Addr) (done block old : List ℕ) : Type 0 where
    pub kept : p'.buf ≡ (done ++ block) ++ old
    pub counted : p'.downloaded ≡ p.downloaded + length block
    pub same_requested : p'.requested ≡ p.requested
    pub same_index : p'.index ≡ p.index
    pub same_client : p'.client ≡ p.client
    pub one_less : p'.backlog ≡ dec p.backlog

  module _ (v : View c.State) (stream : IsStream c v) (index : ℕ) (small : index < 2 ^ 32) where
    pub read_block :
        (p : Progress Addr) (done old old' block rest : List ℕ)
        → p.index ≡ pos index
        → p.buf ≡ done ++ (old ++ old')
        → length old ≡ length block
        → length done < 2 ^ 32
        → length block + 13 < 2 ^ 32
        → 0 < length block
        → (p' : Progress Addr) × Runs v
            (read_message c p)
            (frame (piece_message index (length done) block) ++ rest)
            (ok p')
            rest
            []
          × Extends p p' done block old'
    unfolding read_message take_message? take_message take_block
    read_block p done old old' block rest hi hb same hd fits some_bytes =
        let parsed : parse_piece p.index p.buf (piece_message index (length done) block)
            ≡ ok (length block, done ++ (block ++ old')) =
          rw (hi, hb)
            (parse_piece-piece_message index done old old' block small hd same
              (omega (arith, length-append {0} old old'))) in
        (
          record p {
            buf = done ++ (block ++ old');
            downloaded = p.downloaded + length block;
            backlog = dec p.backlog;
          },
          Runs-bind (take_message? c p)
              (read-frame c v stream (piece_message index (length done) block) rest
                (omega (arith, length-piece_message index (length done) block)))
              (rw parsed (Runs-lift _ rest)),
          record {
            kept = sym (append_assoc done block old');
            counted = refl;
            same_requested = refl;
            same_index = refl;
            same_client = refl;
            one_less = refl;
          },
        )

    -- What the messages before a block leave of the progress.
    pub record Carries (len : ℕ) (p p' : Progress Addr) : Type 0 where
      pub same_index : p'.index ≡ p.index
      pub same_buf : p'.buf ≡ p.buf
      pub same_downloaded : p'.downloaded ≡ p.downloaded
      pub inside : p'.requested ≤ len

    pub record Passed (len k : ℕ) (notes : List (Option Message)) (p : Progress Addr)
        (rest : List ℕ) : Type 0 where
      pub after : Progress Addr
      pub out : List ℕ
      pub carries : Carries len p after
      pub go :
          {r : Result (Progress Addr)} {rest' more : List ℕ}
          → Runs v (download_loop c (suc k) len after) rest r rest' more
          → Runs v
              (download_loop c (suc (plus_length notes k)) len p)
              (note_frames notes ++ rest)
              r
              rest'
              (out ++ more)

    pub pass_notes :
        (len k : ℕ) (notes : List (Option Message)) (p : Progress Addr) (rest : List ℕ)
        → All IsNote? notes
        → p.downloaded < len
        → p.requested ≤ len
        → Passed len k notes p rest
    pass_notes len k [] p rest w lt h = record {
      after = p;
      out = [];
      carries = record { same_index = refl; same_buf = refl; same_downloaded = refl; inside = h };
      go = λ run. run;
    }
    pass_notes len k (m ∷ ms) p rest (now, w) lt h =
        let (q, out, asked, same_index, same_client, same_buf, same_downloaded, inside) =
          request_if_unchoked-Runs c v stream len p (note_frames (m ∷ ms) ++ rest) h in
        let (q', got, still) = read_note c v stream q m (note_frames ms ++ rest) now in
        let later =
          pass_notes len k ms q' rest w (omega (arith, lt, still.same_downloaded, same_downloaded))
            (omega (arith, inside, still.same_requested)) in
        record {
          after = later.after;
          out = out ++ later.out;
          carries = record {
            same_index = later.carries.same_index ∙ still.same_index ∙ same_index;
            same_buf = later.carries.same_buf ∙ still.same_buf ∙ same_buf;
            same_downloaded =
                later.carries.same_downloaded ∙ still.same_downloaded ∙ same_downloaded;
            inside = later.carries.inside;
          };
          go = λ run. Runs-cast refl refl (sym (append_assoc out later.out _)) (
              Runs-ext (loop_goes_on (suc (plus_length ms k)) len p lt) (
                Runs-bind _ asked (
                  Runs-bind _
                    (Runs-cast (sym (append_assoc (frame? m) (note_frames ms) rest)) refl refl got)
                    (later.go run))));
        }
