-- ===== src/Common/Bytes.antt =====
-- Byte slices as lists of numbers, `copy`, and encoding/binary's big-endian integers.
use Prim.Native.Nat.{ℕ, zero, suc, ◌+◌, ◌-◌, ◌*◌, ◌/◌, ◌%◌, ◌^◌, ◌≤◌, ◌<◌}
use Prim.Native.Nat.add
use mathlib.Core.Path.{◌≡◌, refl, sym, ap, ◌∙◌}
use mathlib.Core.List.{List, [], ◌∷◌, ◌++◌, append-nil}
use mathlib.Core.Bool.{Bool, true, false, ◌&&◌}
use native.Mathlib.Omega.{arith}
use bittorrent_over_scion.Common.Tests.{◌==◌, ltb, leb, if◌then◌else◌}
use bittorrent_over_scion.Common.Lists.{length, get_or, All, replicate}

abbrev pub IsByte : ℕ → Type 0
IsByte b = b < 256

abbrev pub IsBytes : List ℕ → Type 0
IsBytes = All IsByte

-- `bytes.Equal`
abbrev pub bytes_equal : List ℕ → List ℕ → Bool
bytes_equal [] [] = true
bytes_equal [] (y ∷ ys) = false
bytes_equal (x ∷ xs) [] = false
bytes_equal (x ∷ xs) (y ∷ ys) = if x == y then bytes_equal xs ys else false

pub bytes_equal→eq : (xs ys : List ℕ) → bytes_equal xs ys ≡ true → xs ≡ ys
bytes_equal→eq [] [] h = refl
bytes_equal→eq [] (y ∷ ys) h = cc
bytes_equal→eq (x ∷ xs) [] h = cc
bytes_equal→eq (x ∷ xs) (y ∷ ys) h = ground (arith, bytes_equal→eq xs ys)

pub bytes_equal_refl : (xs : List ℕ) → bytes_equal xs xs ≡ true
bytes_equal_refl [] = refl
bytes_equal_refl (x ∷ xs) = ground (arith, bytes_equal_refl xs)

-- `copy(buf[off:], src)`: what does not fit into `buf` is left out.
unfoldable pub copy_at : List ℕ → ℕ → List ℕ → List ℕ
copy_at [] off src = []
copy_at (b ∷ bs) zero [] = b ∷ bs
copy_at (b ∷ bs) zero (s ∷ ss) = s ∷ copy_at bs zero ss
copy_at (b ∷ bs) (suc off) src = b ∷ copy_at bs off src

pub length-copy_at :
    (buf : List ℕ) (off : ℕ) (src : List ℕ) → length (copy_at buf off src) ≡ length buf
unfolding copy_at
length-copy_at [] off src = refl
length-copy_at (b ∷ bs) zero [] = refl
length-copy_at (b ∷ bs) zero (s ∷ ss) = ap suc (length-copy_at bs zero ss)
length-copy_at (b ∷ bs) (suc off) src = ap suc (length-copy_at bs off src)

copy_at_front :
    (old post src : List ℕ) → length old ≡ length src → copy_at (old ++ post) zero src ≡ src ++ post
unfolding copy_at
copy_at_front [] [] [] h = refl
copy_at_front [] (p ∷ ps) [] h = refl
copy_at_front [] post (s ∷ ss) h = absurd (omega arith)
copy_at_front (o ∷ os) post [] h = absurd (omega arith)
copy_at_front (o ∷ os) post (s ∷ ss) h = rw (copy_at_front os post ss (omega arith))

-- A copy over a part of the same length replaces that part.
pub copy_at-append :
    (pre old post src : List ℕ)
    → length old ≡ length src
    → copy_at (pre ++ (old ++ post)) (length pre) src ≡ pre ++ (src ++ post)
unfolding copy_at
copy_at-append [] old post src h = copy_at_front old post src h
copy_at-append (p ∷ ps) old post src h = rw (copy_at-append ps old post src h)

pub copy_at_whole : (old src : List ℕ) → length old ≡ length src → copy_at old zero src ≡ src
copy_at_whole old src h =
    ap (λ l. copy_at l zero src) (sym (append-nil old))
    ∙ copy_at_front old [] src h
    ∙ append-nil src

pub IsBytes-copy_at :
    (buf : List ℕ) (off : ℕ) (src : List ℕ)
    → IsBytes buf
    → IsBytes src
    → IsBytes (copy_at buf off src)
unfolding copy_at
IsBytes-copy_at [] off src h k = tt
IsBytes-copy_at (b ∷ bs) zero [] h k = h
IsBytes-copy_at (b ∷ bs) zero (s ∷ ss) (h, hs) (k, ks) = (k, IsBytes-copy_at bs zero ss hs ks)
IsBytes-copy_at (b ∷ bs) (suc off) src (h, hs) k = (h, IsBytes-copy_at bs off src hs k)

sub_zero : (i : ℕ) → i - 0 ≡ i
sub_zero i = omega arith

sub_suc : (i off : ℕ) → suc i - suc off ≡ i - off
sub_suc i off = omega arith

-- Each byte after a copy: from `off` on the source, before it and behind the source the old byte.
pub get_or-copy_at :
    (buf : List ℕ) (off : ℕ) (src : List ℕ) (i : ℕ)
    → off + length src ≤ length buf
    → get_or (copy_at buf off src) i 0
      ≡ (if leb off i && ltb i (off + length src) then get_or src (i - off) 0 else get_or buf i 0)
unfolding copy_at
get_or-copy_at [] off [] i h = ground arith
get_or-copy_at [] off (s ∷ ss) i h = absurd (omega arith)
get_or-copy_at (b ∷ bs) zero [] i h = ground arith
get_or-copy_at (b ∷ bs) zero (s ∷ ss) zero h = ground arith
get_or-copy_at (b ∷ bs) zero (s ∷ ss) (suc i) h =
    ground (arith, get_or-copy_at bs zero ss i, sub_zero i)
get_or-copy_at (b ∷ bs) (suc off) src zero h = ground arith
get_or-copy_at (b ∷ bs) (suc off) src (suc i) h =
    ground (arith, get_or-copy_at bs off src i, sub_suc i off)

-- `make([]byte, a + b)` in two parts.
pub replicate-add {ℓ} :
    {A : Type ℓ} (m n : ℕ) (a : A) → replicate (m + n) a ≡ replicate m a ++ replicate n a
replicate-add zero n a = simp add.zero
replicate-add (suc m) n a = simp (add.suc, replicate-add m n a)

-- BigEndian.PutUint32 writes these bytes, and Uint32 reads them from the front of a slice.
unfoldable pub u32_bytes : ℕ → List ℕ
u32_bytes v = v / 2 ^ 24 % 256 ∷ v / 2 ^ 16 % 256 ∷ v / 2 ^ 8 % 256 ∷ v % 256 ∷ []

unfoldable pub u32_of : List ℕ → ℕ
u32_of (a ∷ b ∷ c ∷ d ∷ rest) = a * 2 ^ 24 + b * 2 ^ 16 + c * 2 ^ 8 + d
u32_of _ = 0

unfoldable pub u16_bytes : ℕ → List ℕ
u16_bytes v = v / 256 % 256 ∷ v % 256 ∷ []

unfoldable pub u16_of : List ℕ → ℕ
u16_of (a ∷ b ∷ rest) = a * 256 + b
u16_of _ = 0

pub length-u32_bytes : (v : ℕ) → length (u32_bytes v) ≡ 4
unfolding u32_bytes
length-u32_bytes v = refl

pub u32_bytes-IsBytes : (v : ℕ) → IsBytes (u32_bytes v)
unfolding u32_bytes
u32_bytes-IsBytes v = omega arith

pub u32_of-u32_bytes : (v : ℕ) (rest : List ℕ) → v < 2 ^ 32 → u32_of (u32_bytes v ++ rest) ≡ v
unfolding u32_of u32_bytes
u32_of-u32_bytes v rest h = omega arith

pub u16_of-u16_bytes : (v : ℕ) (rest : List ℕ) → v < 2 ^ 16 → u16_of (u16_bytes v ++ rest) ≡ v
unfolding u16_of u16_bytes
u16_of-u16_bytes v rest h = omega arith

pub u32_of-lt : (bs : List ℕ) → IsBytes bs → u32_of bs < 2 ^ 32
unfolding u32_of
u32_of-lt [] h = omega arith
u32_of-lt (a ∷ []) h = omega arith
u32_of-lt (a ∷ b ∷ []) h = omega arith
u32_of-lt (a ∷ b ∷ c ∷ []) h = omega arith
u32_of-lt (a ∷ b ∷ c ∷ d ∷ rest) h = omega arith
