-- ===== src/P2p/Assembly.antt =====
-- p2p/p2p.go: the end of Download, which copies the results into the buffer of the file.
use mathlib.Core.Bool.{false≢true}
use native.Mathlib.Nat.{div-eq_of_lt-le}
use bittorrent_over_scion.Common.{
  ℕ, ◌+◌, ◌-◌, ◌*◌, ◌/◌, ◌<◌, ◌≤◌, ◌≡◌, refl, sym, ap, ◌∙◌, List, [], ◌∷◌, Bool, true, false, ◌&&◌,
  ◌||◌, ltb, leb, le→leb, lt→ltb, le→ltb, ◌==◌, ==_iff, if◌then◌else◌, length, length-take,
  length-drop, length-replicate, take, drop, replicate, get_or, get_or-drop, get_or-take, list_ext,
  copy_at, length-copy_at, get_or-copy_at, Bool-cases, inl, inr, ◌⊎◌, pos, is_neg, pos_part, ltb_ℤ,
  eqb_ℤ, max_int, All, Result, ok, halt, panic, and_then, arith,
}
use bittorrent_over_scion.P2p.{Torrent, PieceResult, calculate_bounds_for_piece}
use bittorrent_over_scion.P2p.Bounds.{Sized, next_piece, bounds_inside}

-- `copy(buf[begin:end], res.buf)`; the slice panics unless 0 ≤ begin ≤ end ≤ len(buf).
unfoldable pub put_result : Torrent → List ℕ → PieceResult → Result (List ℕ)
put_result t buf r =
    let (begin, end) = calculate_bounds_for_piece t r.index in
    if is_neg begin || is_neg end || ltb_ℤ end begin || ltb (length buf) (pos_part end)
    then halt panic
    else ok (copy_at buf (pos_part begin) (take (pos_part end - pos_part begin) r.buf))

-- The loop over the results, in the order in which they come.
unfoldable pub collect : Torrent → List ℕ → List PieceResult → Result (List ℕ)
collect t buf [] = ok buf
collect t buf (r ∷ rs) = and_then (put_result t buf r) (λ buf'. collect t buf' rs)

unfoldable pub assemble : Torrent → List PieceResult → Result (List ℕ)
assemble t rs =
    if is_neg t.length then halt panic else collect t (replicate (pos_part t.length) 0) rs

-- The bytes of a piece of the file.
abbrev pub piece_of : ℕ → List ℕ → ℕ → List ℕ
piece_of pl content i = take pl (drop (i * pl) content)

quotient_of_bounds : (k i pl : ℕ) → i * pl ≤ k → k < i * pl + pl → k / pl ≡ i
quotient_of_bounds k i pl h l = div-eq_of_lt-le pl h (omega arith)

bounds_of_quotient : (k pl : ℕ) → 0 < pl → (k / pl * pl ≤ k) × (k < k / pl * pl + pl)
bounds_of_quotient k pl h = omega arith

in_piece :
    (i pl len b e k : ℕ)
    → 0 < pl
    → b ≡ i * pl
    → e ≤ len
    → e ≤ b + pl
    → (e ≡ (i + 1) * pl) ⊎ (e ≡ len)
    → k < len
    → (leb b k && ltb k e) ≡ (k / pl == i)
in_piece i pl len b e k pos_pl at_b in_file short stop h = elim (Bool-cases (k / pl == i)) [
  | inl same ↦
      let q : k / pl ≡ i = (==_iff _ _).0 same in
      let (lo, hi) = bounds_of_quotient k pl pos_pl in
      let product : k / pl * pl ≡ i * pl = ap (λ x. x * pl) q in
      rw (
        same,
        le→leb b k (omega (arith, product)),
        lt→ltb k e (omega (arith, product, next_piece i pl)),
      )
  | inr other ↦ rw other (elim (Bool-cases (leb b k && ltb k e)) [
    | inr out ↦ out
    | inl both ↦
        let q : k / pl ≡ i = quotient_of_bounds k i pl (ground arith) (ground arith) in
        absurd (false≢true (sym other ∙ (==_iff _ _).1 q))
  ])
]

-- Whether there is a result for the piece.
abbrev pub has_number : ℕ → List PieceResult → Bool
has_number i [] = false
has_number i (r ∷ rs) = eqb_ℤ r.index (pos i) || has_number i rs

put_at :
    (t : Torrent) (buf : List ℕ) (r : PieceResult) (b e : ℕ)
    → calculate_bounds_for_piece t r.index ≡ (pos b, pos e)
    → b ≤ e
    → e ≤ length buf
    → put_result t buf r ≡ ok (copy_at buf b (take (e - b) r.buf))
unfolding put_result
put_at t buf r b e h lt room =
    rw h (rw (le→ltb (e + 0) (b + 0) (omega arith), le→ltb (length buf) e room))

module _ (t : Torrent) (pl len : ℕ) (sz : Sized t pl len) (content : List ℕ)
    (whole : length content ≡ len) (fits : len + pl ≤ max_int) where
  -- A result with the right bytes.
  pub record IsPiece (r : PieceResult) : Type 0 where
    pub number : ℕ
    pub indexed : r.index ≡ pos number
    pub inside : number * pl < len
    pub right : r.buf ≡ piece_of pl content number

  -- The bytes of a piece, at their place in the file.
  piece_byte :
      (b e k : ℕ)
      → e ≤ b + pl
      → b ≤ k
      → k < e
      → get_or (take (e - b) (take pl (drop b content))) (k - b) 0 ≡ get_or content k 0
  piece_byte b e k short lo hi =
      get_or-take (e - b) (k - b) (take pl (drop b content)) (omega arith)
      ∙ get_or-take pl (k - b) (drop b content) (omega arith)
      ∙ get_or-drop b (k - b) content
      ∙ ap (λ j. get_or content j 0) (omega arith)

  put_byte :
      (buf : List ℕ) (i b e k : ℕ)
      → length buf ≡ len
      → b ≡ i * pl
      → b < e
      → e ≤ len
      → e ≤ b + pl
      → (e ≡ (i + 1) * pl) ⊎ (e ≡ len)
      → k < len
      → get_or (copy_at buf b (take (e - b) (piece_of pl content i))) k 0
        ≡ (if k / pl == i then get_or content k 0 else get_or buf k 0)
  put_byte buf i b e k n at_b lt in_file short stop h =
      let src = take (e - b) (take pl (drop b content)) in
      let size : length src ≡ e - b = omega (
        arith,
        length-take {0} (e - b) (take pl (drop b content)),
        length-take {0} pl (drop b content),
        length-drop {0} b content,
      ) in
      let end : b + length src ≡ e = omega (arith, size) in
      rw
        (
          ← at_b,
          get_or-copy_at buf b src k (omega (arith, end)),
          end,
          ← in_piece i pl len b e k sz.proper at_b in_file short stop h,
        )
        (elim (Bool-cases (leb b k && ltb k e)) [
          | inl both ↦ rw both (piece_byte b e k short (ground arith) (ground arith))
          | inr out ↦ rw out
        ])

  -- One result leaves every byte right that was, and makes those of its piece right.
  put_piece :
      (buf : List ℕ) (r : PieceResult) (p : IsPiece r)
      → length buf ≡ len
      → (buf' : List ℕ) × (put_result t buf r ≡ ok buf')
        × (length buf' ≡ len)
        × ((k : ℕ)
            → k < len
            → get_or buf' k 0 ≡ (if k / pl == p.number then get_or content k 0 else get_or buf k 0))
  put_piece buf r p n =
      let (b, e, bs, size, at_b, lt, in_file, short, stop) =
        bounds_inside t pl len sz p.number p.inside (omega (arith, p.inside)) in
      let result : put_result t buf r ≡ ok (copy_at buf b (take (e - b) r.buf)) =
        put_at t buf r b e (ap (calculate_bounds_for_piece t) p.indexed ∙ bs) (omega arith)
          (omega (arith, in_file)) in
      (
        copy_at buf b (take (e - b) r.buf),
        result,
        length-copy_at buf b _ ∙ n,
        λ k h. rw p.right (put_byte buf p.number b e k n at_b lt in_file short stop h),
      )

  later :
      (k : ℕ) (r : PieceResult) (rs : List PieceResult) (p : IsPiece r) (new old right : ℕ)
      → new ≡ (if k / pl == p.number then right else old)
      → (if has_number (k / pl) rs then right else new)
        ≡ (if has_number (k / pl) (r ∷ rs) then right else old)
  later k r rs p new old right e =
      rw (e, p.indexed)
        (elim (Bool-cases (has_number (k / pl) rs)) [
          | inl there ↦ rw there (ground arith)
          | inr missing ↦ rw missing (ground arith)
        ])

  collect_pieces :
      (rs : List PieceResult) (buf : List ℕ)
      → All IsPiece rs
      → length buf ≡ len
      → (buf' : List ℕ) × (collect t buf rs ≡ ok buf')
        × (length buf' ≡ len)
        × ((k : ℕ)
            → k < len
            → get_or buf' k 0
              ≡ (if has_number (k / pl) rs then get_or content k 0 else get_or buf k 0))
  unfolding collect
  collect_pieces [] buf h n = (buf, refl, n, λ k lt. refl)
  collect_pieces (r ∷ rs) buf (p, h) n =
      let (buf₁, put, n₁, bytes₁) = put_piece buf r p n in
      let (buf₂, rest, n₂, bytes₂) = collect_pieces rs buf₁ h n₁ in
      (
        buf₂,
        rw put rest,
        n₂,
        λ k lt.
            bytes₂ k lt
            ∙ later k r rs p (get_or buf₁ k 0) (get_or buf k 0) (get_or content k 0) (bytes₁ k lt),
      )

  -- For a torrent with a positive piece length whose lengths are far enough from the largest int:
  -- when each result is the right piece of the file and there is one for each piece, the buffer
  -- that Download returns is the file, in whatever order the results come and however often.
  pub assemble-content :
      (rs : List PieceResult)
      → All IsPiece rs
      → ((i : ℕ) → i * pl < len → has_number i rs ≡ true)
      → assemble t rs ≡ ok content
  unfolding assemble
  assemble-content rs h every =
      let (buf, done, n, bytes) =
        collect_pieces rs (replicate len 0) h (length-replicate {A = ℕ} len 0) in
      let same : buf ≡ content =
        list_ext buf content (n ∙ sym whole)
          (λ k lt. byte buf k (omega (arith, lt, n)) (bytes k (omega (arith, lt, n)))) in
      simp sz.length_pos (done ∙ ap ok same)
    where
      byte :
          (buf : List ℕ) (k : ℕ)
          → k < len
          → get_or buf k 0
            ≡ (if has_number (k / pl) rs then get_or content k 0 else get_or (replicate len 0) k 0)
          → get_or buf k 0 ≡ get_or content k 0
      byte buf k lt e = rw (every (k / pl) (omega (arith, bounds_of_quotient k pl sz.proper))) at e
