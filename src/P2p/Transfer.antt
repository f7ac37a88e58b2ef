-- ===== src/P2p/Transfer.antt =====
-- p2p/p2p.go: attemptDownloadPiece with a peer that sends the blocks of the piece.
use bittorrent_over_scion.Common.{
  Result, ℕ, suc, ◌+◌, ◌<◌, ◌≤◌, ◌^◌, ◌≡◌, refl, sym, ap, ◌∙◌, List, [], ◌∷◌, ◌++◌, append-nil,
  append_assoc, length, length-append, length-replicate, replicate, split_at, nil_of_length, All,
  pos, ok, arith,
}
use bittorrent_over_scion.Common.Stream.{
  Conn, View, IsStream, Runs, Runs-bind, Runs-pure, Runs-try, Runs-defer, Runs-ext, Runs-cast,
}
use bittorrent_over_scion.Message.Wire.{frame}
use bittorrent_over_scion.Message.Blocks.{piece_message}
use bittorrent_over_scion.Client.{Client}
use bittorrent_over_scion.P2p.{
  Progress, PieceWork, download_loop, start_progress, attempt_download_piece,
}
use bittorrent_over_scion.P2p.Parcels.{
  Parcel, IsParcel, joined, note_frames, deliveries, messages, loop_ends, loop_goes_on, Extends,
  read_block, Carries, pass_notes,
}
use bittorrent_over_scion.P2p.Pipeline.{request_if_unchoked-Runs}

module _ {Addr : Type 0} (c : Conn) where
  module _ (v : View c.State) (stream : IsStream c v) (index : ℕ) (small : index < 2 ^ 32) where
    -- The piece so far, and the blocks that are still to come.
    record Half (len : ℕ) (p : Progress Addr) (done old : List ℕ) (parcels : List Parcel)
        : Type 0 where
      indexed : p.index ≡ pos index
      filled : p.buf ≡ done ++ old
      counted : p.downloaded ≡ length done
      whole : length done + length old ≡ len
      owed : length old ≡ length (joined parcels)
      asked : p.requested ≤ len

    next-Half :
        (len : ℕ) (x : Parcel) (xs : List Parcel) (p₁ p₂ : Progress Addr)
        (done old₁ old₂ old : List ℕ) {p : Progress Addr}
        → old ≡ old₁ ++ old₂
        → length old₁ ≡ length x.block
        → Extends c p₁ p₂ done x.block old₂
        → Half len p done old (x ∷ xs)
        → p₁.index ≡ p.index
        → p₁.downloaded ≡ p.downloaded
        → p₁.requested ≤ len
        → Half len p₂ (done ++ x.block) old₂ xs
    next-Half len x xs p₁ p₂ done old₁ old₂ old split len₁ e w same_index same_downloaded inside =
        record {
          indexed = e.same_index ∙ same_index ∙ w.indexed;
          filled = e.kept;
          counted =
              omega (arith, e.counted, same_downloaded, w.counted, length-append done x.block);
          whole = omega (
            arith,
            w.whole,
            ap length split,
            len₁,
            length-append old₁ old₂,
            length-append done x.block,
          );
          owed = omega (
            arith,
            w.owed,
            ap length split,
            len₁,
            length-append old₁ old₂,
            length-append x.block (joined xs),
          );
          asked = omega (arith, e.same_requested, inside);
        }

    carried-Half :
        (len : ℕ) (xs : List Parcel) (p p' : Progress Addr) (done old : List ℕ)
        → Half len p done old xs
        → Carries c v stream index small len p p'
        → Half len p' done old xs
    carried-Half len xs p p' done old w k = record {
      indexed = k.same_index ∙ w.indexed;
      filled = k.same_buf ∙ w.filled;
      counted = k.same_downloaded ∙ w.counted;
      whole = w.whole;
      owed = w.owed;
      asked = k.inside;
    }

    -- The loop from half of a piece on, up to its end.
    record Gets (len fuel : ℕ) (p : Progress Addr) (inp rest content : List ℕ) : Type 0 where
      after : Progress Addr
      out : List ℕ
      runs : Runs v (download_loop c fuel len p) inp (ok after) rest out
      final : after.buf ≡ content

    -- The block of the next parcel: what is left of the piece, and the rest of the loop.
    record PassedBlock (len k : ℕ) (x : Parcel) (xs : List Parcel) (p : Progress Addr)
        (done rest : List ℕ) : Type 0 where
      after : Progress Addr
      old : List ℕ
      out : List ℕ
      half : Half len after (done ++ x.block) old xs
      go :
          {r : Result (Progress Addr)} {rest' more : List ℕ}
          → Runs v (download_loop c k len after) rest r rest' more
          → Runs v
              (download_loop c (suc k) len p)
              (frame (piece_message index (length done) x.block) ++ rest)
              r
              rest'
              (out ++ more)

    pass_block :
        (len k : ℕ) (x : Parcel) (xs : List Parcel) (p : Progress Addr) (done old rest : List ℕ)
        → len + 13 < 2 ^ 32
        → 0 < length x.block
        → Half len p done old (x ∷ xs)
        → PassedBlock len k x xs p done rest
    pass_block len k x xs p done old rest hl nb w =
        let b = x.block in
        let (old₁, old₂, split, len₁, len₂) =
          split_at (length b) old (omega (arith, w, length-append {0} b (joined xs))) in
        let (p₁, out, asked, same_index, same_client, same_buf, same_downloaded, inside) =
          request_if_unchoked-Runs c v stream len p
            (frame (piece_message index (length done) b) ++ rest) w.asked in
        let (p₂, got, e) =
          read_block c v stream index small p₁ done old₁ old₂ b rest (same_index ∙ w.indexed)
            (same_buf ∙ w.filled ∙ ap (λ l. done ++ l) split) len₁ (omega (arith, w))
            (omega (arith, w, length-append {0} b (joined xs))) nb in
        record {
          after = p₂;
          old = old₂;
          out = out;
          half =
              next-Half len x xs p₁ p₂ done old₁ old₂ old split len₁ e w same_index same_downloaded
                inside;
          go = λ run.
              Runs-ext
                (loop_goes_on c k len p (omega (arith, w, nb, length-append {0} b (joined xs))))
                (Runs-bind _ asked (Runs-bind _ got run));
        }

    loop-Gets :
        (len : ℕ) (parcels : List Parcel) (p : Progress Addr) (done old rest : List ℕ)
        → len + 13 < 2 ^ 32
        → All IsParcel parcels
        → Half len p done old parcels
        → Gets len
            (suc (messages parcels))
            p
            (deliveries index (length done) parcels ++ rest)
            rest
            (done ++ joined parcels)
    loop-Gets len [] p done old rest hl ok_parcels w = record {
      after = p;
      out = [];
      runs = Runs-ext (loop_ends c 0 len p (omega (arith, w))) (Runs-pure p rest);
      final = w.filled ∙ ap (λ l. done ++ l) (nil_of_length old (omega (arith, w)));
    }
    loop-Gets len (x ∷ xs) p done old rest hl (now, later) w =
        let b = x.block in
        let after_block = deliveries index (length done + length b) xs ++ rest in
        let first_frame = frame (piece_message index (length done) b) in
        let noted =
          pass_notes c v stream index small len (suc (messages xs)) x.notes p
            (first_frame ++ after_block) now.noted
            (omega (arith, w, now.nonempty, length-append {0} b (joined xs))) w.asked in
        let blocked =
          pass_block len (suc (messages xs)) x xs noted.after done old after_block hl now.nonempty
            (carried-Half len (x ∷ xs) p noted.after done old w noted.carries) in
        let last =
          loop-Gets len xs blocked.after (done ++ b) blocked.old rest hl later blocked.half in
        record {
          after = last.after;
          out = noted.out ++ (blocked.out ++ last.out);
          runs =
              Runs-cast
                (ap (λ l. note_frames x.notes ++ l)
                    (sym (
                      append_assoc first_frame (deliveries index (length done + length b) xs) rest))
                  ∙ sym (
                      append_assoc (note_frames x.notes)
                        (first_frame ++ deliveries index (length done + length b) xs) rest))
                refl refl
                (noted.go (
                  blocked.go (
                    Runs-cast (ap (λ k. deliveries index k xs ++ rest) (length-append done b)) refl
                      refl last.runs)));
          final = last.final ∙ append_assoc done b (joined xs);
        }

    -- On a working connection to a peer that sends the blocks of a piece in their order, none
    -- empty, however it cuts the piece into blocks, with keep-alives and any other messages but
    -- broken HAVEs between them, attemptDownloadPiece ends with no error, leaves what follows the
    -- blocks unread, and its buffer is the blocks joined. The index fits 32 bits, every message is
    -- less than 4 GiB, and so is the piece with the 13 bytes of a message's head; the fuel is one
    -- more than the number of messages.
    pub attempt_download_piece-gets :
        (cl : Client Addr) (hash : List ℕ) (parcels : List Parcel) (rest : List ℕ)
        → length (joined parcels) + 13 < 2 ^ 32
        → All IsParcel parcels
        → let pw : PieceWork = record {
          index = pos index;
          hash = hash;
          length = pos (length (joined parcels));
        } in
          (p : Progress Addr) × (out : List ℕ) × Runs v
            (attempt_download_piece c (suc (messages parcels)) cl pw)
            (deliveries index 0 parcels ++ rest)
            (ok p)
            rest
            out
          × (p.buf ≡ joined parcels)
    unfolding attempt_download_piece start_progress
    attempt_download_piece-gets cl hash parcels rest fits ne =
        let len = length (joined parcels) in
        let zeros : List ℕ = replicate len 0 in
        let start : Half len
            (start_progress c cl (record { index = pos index; hash = hash; length = pos len })) []
            zeros parcels =
          record {
            indexed = refl;
            filled = refl;
            counted = refl;
            whole = omega (arith, length-replicate {0} {A = ℕ} len 0);
            owed = length-replicate {A = ℕ} len 0;
            asked = omega arith;
          } in
        let g = loop-Gets len parcels _ [] zeros rest fits ne start in
        (
          g.after,
          g.out,
          Runs-cast refl refl (append-nil g.out) (
              Runs-bind _ (Runs-try (stream.deadlines 30 _))
                (Runs-defer g.runs (stream.deadlines 0 rest))),
          g.final,
        )
