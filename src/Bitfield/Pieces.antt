-- ===== src/Bitfield/Pieces.antt =====
-- bitfield/bitfield.go: the bytes as a set of piece numbers.
use bittorrent_over_scion.Common.{
  ℕ, zero, suc, ◌+◌, ◌-◌, ◌*◌, ◌/◌, ◌%◌, ◌^◌, ◌≤◌, ◌<◌, ◌≡◌, refl, ap, [], ◌∷◌, Bool, true, false,
  ◌&&◌, ◌||◌, not, ◌==◌, ==_iff, ltb, ltb→lt, if◌then◌else◌, bit_or, length, get_or, set,
  get_or-set_self, get_or-set_ne, length-set, All-set, All-get_or, ℤ, pos, negsuc, quot, is_neg,
  pos_part, eqb_ℤ, arith, IsByte, IsBytes, Bool-cases, inl, inr, replicate, All-replicate,
  All-replicate,
}
use bittorrent_over_scion.Bitfield.{Bitfield, outside, has_piece, set_piece}

-- Every byte with every bit set, read at every place.
bit_test : ℕ → ℕ → ℕ → Bool
bit_test b k j = bit_or b (2 ^ k % 256) / 2 ^ j % 2 == (if k == j then 1 else b / 2 ^ j % 2)

module _ (test : ℕ → Bool) where
  -- The test, tried at each number below a bound.
  tried : ℕ → Bool
  tried zero = true
  tried (suc top) = test top && tried top

  at_each : (top x : ℕ) → x < top → tried top ≡ true → test x ≡ true
  unfolding tried
  at_each zero x below all_hold = absurd (omega arith)
  at_each (suc top) x below all_hold = ground (arith, at_each top x)

bit_table : tried (λ x. bit_test (x / 64) (x / 8 % 8) (x % 8)) 16384 ≡ true
unfolding tried bit_test
bit_table = refl

bit_or-bit :
    (b k j : ℕ)
    → b < 256
    → k < 8
    → j < 8
    → bit_or b (2 ^ k % 256) / 2 ^ j % 2 ≡ (if k == j then 1 else b / 2 ^ j % 2)
unfolding bit_test
bit_or-bit b k j hb hk hj =
    let x = b * 64 + k * 8 + j in
    let at_x : bit_test (x / 64) (x / 8 % 8) (x % 8) ≡ true =
      at_each _ 16384 x (omega arith) bit_table in
    let eb : x / 64 ≡ b = omega arith in
    let ek : x / 8 % 8 ≡ k = omega arith in
    let ej : x % 8 ≡ j = omega arith in (==_iff _ _).0 (rw (eb, ek, ej) at at_x)

byte_table : tried (λ x. ltb (bit_or (x / 8) (2 ^ (x % 8) % 256)) 256) 2048 ≡ true
unfolding tried
byte_table = refl

bit_or-byte : (b k : ℕ) → b < 256 → k < 8 → bit_or b (2 ^ k % 256) < 256
bit_or-byte b k h hk =
    let x = b * 8 + k in
    let eb : x / 8 ≡ b = omega arith in
    let ek : x % 8 ≡ k = omega arith in
    ltb→lt _ _ (rw (eb, ek) at (at_each _ 2048 x (omega arith) byte_table))

zero_table : tried (λ x. bit_or x 0 == x) 256 ≡ true
unfolding tried
zero_table = refl

bit_or-zero : (b : ℕ) → b < 256 → bit_or b 0 ≡ b
bit_or-zero b h = (==_iff _ _).0 (at_each _ 256 b h zero_table)

-- A negative index names no bit: the shift leaves the byte.
small_shift :
    (n : ℕ)
    → n < 7
    → (2 ^ (7 + suc n % 8) % 256 ≡ 0) × ((b : ℕ) → b < 256 → b / 2 ^ (7 + suc n % 8) ≡ 0)
small_shift zero h = (refl, λ b k. omega arith)
small_shift (suc zero) h = (refl, λ b k. omega arith)
small_shift (suc (suc zero)) h = (refl, λ b k. omega arith)
small_shift (suc (suc (suc zero))) h = (refl, λ b k. omega arith)
small_shift (suc (suc (suc (suc zero)))) h = (refl, λ b k. omega arith)
small_shift (suc (suc (suc (suc (suc zero))))) h = (refl, λ b k. omega arith)
small_shift (suc (suc (suc (suc (suc (suc zero)))))) h = (refl, λ b k. omega arith)
small_shift (suc (suc (suc (suc (suc (suc (suc n))))))) h = absurd (omega arith)

-- The pieces that a bitfield has room for.
abbrev pub in_range : Bitfield → ℤ → Bool
in_range bf i = not (is_neg i) && ltb (pos_part i) (8 * length bf)

has_piece-negsuc : (bf : Bitfield) (n : ℕ) → IsBytes bf → has_piece bf (negsuc n) ≡ false
unfolding has_piece
has_piece-negsuc bf n h = elim (Bool-cases (ltb n 7)) [
  | inl small ↦ ground (
    arith,
    (small_shift n (ltb→lt _ _ small)).1 (get_or bf 0 0) (All-get_or IsByte bf 0 0 h (omega arith)),
  )
  | inr large ↦ ground arith
]

set-get_or : (bf : Bitfield) (i : ℕ) → set bf i (get_or bf i 0) ≡ bf
set-get_or [] i = refl
set-get_or (b ∷ bf) zero = refl
set-get_or (b ∷ bf) (suc i) = ap (λ l. b ∷ l) (set-get_or bf i)

set_piece-negsuc : (bf : Bitfield) (n : ℕ) → IsBytes bf → set_piece bf (negsuc n) ≡ bf
unfolding set_piece
set_piece-negsuc bf n h = elim (Bool-cases (ltb n 7)) [
  | inl small ↦ ground (
    arith,
    (small_shift n (ltb→lt _ _ small)).0,
    set-get_or bf 0,
    bit_or-zero (get_or bf 0 0) (All-get_or IsByte bf 0 0 h (omega arith)),
  )
  | inr large ↦ ground arith
]

has_piece-pos :
    (bf : Bitfield) (i : ℕ)
    → has_piece bf (pos i)
      ≡ (ltb i (8 * length bf) && not (get_or bf (i / 8) 0 / 2 ^ (7 - i % 8) % 2 == 0))
unfolding has_piece
has_piece-pos bf i = ground arith

set_piece-pos :
    (bf : Bitfield) (i : ℕ)
    → i < 8 * length bf
    → set_piece bf (pos i) ≡ set bf (i / 8) (bit_or (get_or bf (i / 8) 0) (2 ^ (7 - i % 8) % 256))
unfolding set_piece
set_piece-pos bf i h = ground arith

set_piece-beyond : (bf : Bitfield) (i : ℕ) → 8 * length bf ≤ i → set_piece bf (pos i) ≡ bf
unfolding set_piece
set_piece-beyond bf i h = ground arith

pub length-set_piece : (bf : Bitfield) (i : ℤ) → length (set_piece bf i) ≡ length bf
unfolding set_piece
length-set_piece bf i = elim (Bool-cases (outside bf (quot i 8))) [
  | inl e ↦ rw e
  | inr e ↦ rw e (length-set bf _ _)
]

pub set_piece-IsBytes : (bf : Bitfield) (i : ℤ) → IsBytes bf → IsBytes (set_piece bf i)
set_piece-IsBytes bf (negsuc n) h = rw (set_piece-negsuc bf n h) h
set_piece-IsBytes bf (pos i) h = elim (Bool-cases (ltb i (8 * length bf))) [
  | inl lt ↦ rw (set_piece-pos bf i (ltb→lt _ _ lt)) (
      All-set IsByte bf (i / 8) _ h
        (bit_or-byte _ _ (All-get_or IsByte bf (i / 8) 0 h (omega arith)) (omega arith)))
  | inr ge ↦ rw (set_piece-beyond bf i (ground arith)) h
]

-- What a byte of the slice is after the write of bit `i`.
set_piece-bit :
    (bf : Bitfield) (i j : ℕ)
    → IsBytes bf
    → i < 8 * length bf
    → get_or (set_piece bf (pos i)) (j / 8) 0 / 2 ^ (7 - j % 8) % 2
      ≡ (if i == j then 1 else get_or bf (j / 8) 0 / 2 ^ (7 - j % 8) % 2)
set_piece-bit bf i j h hi = rw (set_piece-pos bf i hi) (elim (Bool-cases (i / 8 == j / 8)) [
  | inl same ↦
      let e : i / 8 ≡ j / 8 = (==_iff _ _).0 same in
      ground (
        arith,
        e,
        get_or-set_self bf (j / 8) (bit_or (get_or bf (j / 8) 0) (2 ^ (7 - i % 8) % 256)) 0,
        bit_or-bit (get_or bf (j / 8) 0) (7 - i % 8) (7 - j % 8)
            (All-get_or IsByte bf (j / 8) 0 h (omega arith)),
      )
  | inr other ↦ ground (
    arith,
    get_or-set_ne bf (i / 8) (j / 8) (bit_or (get_or bf (i / 8) 0) (2 ^ (7 - i % 8) % 256)) 0,
  )
])

-- For every byte slice and all integers i and j, negative and out of range ones included: after
-- SetPiece(i) the bitfield has piece j exactly when it had it before, or j is i and i lies within
-- the slice.
pub has_piece-set_piece :
    (bf : Bitfield) (i j : ℤ)
    → IsBytes bf
    → has_piece (set_piece bf i) j ≡ ((eqb_ℤ i j && in_range bf i) || has_piece bf j)
has_piece-set_piece bf (negsuc n) j h = rw (set_piece-negsuc bf n h) (ground arith)
has_piece-set_piece bf (pos i) (negsuc n) h =
    rw (has_piece-negsuc _ n (set_piece-IsBytes bf (pos i) h), has_piece-negsuc bf n h)
      (ground arith)
has_piece-set_piece bf (pos i) (pos j) h = elim (Bool-cases (ltb i (8 * length bf))) [
  | inl lt ↦
      rw
        (
          has_piece-pos (set_piece bf (pos i)) j,
          has_piece-pos bf j,
          length-set_piece bf (pos i),
          set_piece-bit bf i j h (ltb→lt _ _ lt),
        )
        (ground arith)
  | inr ge ↦ rw (set_piece-beyond bf i (ground arith)) (ground arith)
]

get_or-zeros : (n i : ℕ) → get_or {A = ℕ} (replicate n 0) i 0 ≡ 0
get_or-zeros zero i = refl
get_or-zeros (suc n) zero = refl
get_or-zeros (suc n) (suc i) = get_or-zeros n i

-- `make(Bitfield, n)` has no piece.
pub has_piece-zeros : (n : ℕ) (j : ℤ) → has_piece (replicate n 0) j ≡ false
has_piece-zeros n (negsuc k) = has_piece-negsuc _ k (All-replicate IsByte n 0 (omega arith))
has_piece-zeros n (pos i) =
    rw (has_piece-pos (replicate n 0) i, get_or-zeros n (i / 8)) (ground arith)
