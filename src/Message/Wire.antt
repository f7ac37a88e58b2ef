-- ===== src/Message/Wire.antt =====
-- message/message.go: Serialize and Read, the bytes of a message on a connection.
use bittorrent_over_scion.Common.{
  ℕ, suc, ◌+◌, ◌%◌, ◌^◌, ◌<◌, ◌≡◌, refl, sym, ap, ◌∙◌, List, [], ◌∷◌, ◌++◌, Option, none, some,
  length, replicate, copy_at, copy_at_whole, u32_bytes, u32_of, length-u32_bytes, u32_of-u32_bytes,
  length-append, append-nil, append_assoc, length-replicate, IsByte, IsBytes, set, ok, err, arith,
  ltb, if◌then◌else◌, ◌==◌, ne→==_false, pure, eof, Bool-cases, ltb→lt, split_at, append_split, inl,
  inr, le→ltb,
}
use bittorrent_over_scion.Common.Stream.{
  Conn, View, IsStream, Runs, Runs-bind, Runs-bind_err, Runs-pure, Runs-cast,
}
use bittorrent_over_scion.Message.{Message, serialize, read, read_body, of_body}

-- A message that a peer can send: a byte for its number, and a length that 32 bits hold.
pub record IsMessage (m : Message) : Type 0 where
  pub id_byte : IsByte m.id
  pub payload_bytes : IsBytes m.payload
  pub fits : length m.payload + 5 < 2 ^ 32

-- <length prefix><message ID><payload>
abbrev pub frame : Message → List ℕ
frame m = u32_bytes (length m.payload + 1) ++ (m.id ∷ m.payload)

abbrev pub frame? : Option Message → List ℕ
frame? none = 0 ∷ 0 ∷ 0 ∷ 0 ∷ []
frame? (some m) = frame m

abbrev pub IsMessage? : Option Message → Type 0
IsMessage? none = Unit {0}
IsMessage? (some m) = IsMessage m

set_fifth :
    (v : ℕ) (x : ℕ) (rest : List ℕ)
    → set (u32_bytes v ++ (0 ∷ rest)) 4 x ≡ u32_bytes v ++ (x ∷ rest)
unfolding u32_bytes
set_fifth v x rest = refl

copy_fifth :
    (v x : ℕ) (old src : List ℕ)
    → length old ≡ length src
    → copy_at (u32_bytes v ++ (x ∷ old)) 5 src ≡ u32_bytes v ++ (x ∷ src)
unfolding u32_bytes copy_at
copy_fifth v x old src h = rw (copy_at_whole old src h)

empty_frame :
    (n v : ℕ)
    → copy_at (replicate (suc (suc (suc (suc (suc n))))) 0) 0 (u32_bytes v)
      ≡ u32_bytes v ++ (0 ∷ replicate n 0)
unfolding u32_bytes copy_at
empty_frame n v = refl

-- A message that fits is written as its length, its number and its payload.
pub serialize-frame :
    (m : Message) → length m.payload + 5 < 2 ^ 32 → serialize (some m) ≡ ok (frame m)
unfolding serialize
serialize-frame m h =
    let n = length m.payload in
    let length32 : (n + 1) % 2 ^ 32 ≡ n + 1 = omega arith in
    let size : (4 + (n + 1)) % 2 ^ 32 ≡ suc (suc (suc (suc (suc n)))) = omega arith in
    rw (
      length32,
      size,
      le→ltb (suc (suc (suc (suc (suc n))))) 5 (omega arith),
      empty_frame n (n + 1),
      set_fifth,
      copy_fifth (n + 1) m.id (replicate n 0) m.payload (length-replicate n 0),
    )

module _ (c : Conn) (v : View c.State) (stream : IsStream c v) where
  read_body-Runs :
      (body rest : List ℕ) (n : ℕ)
      → n ≡ length body
      → Runs v (read_body c n) (body ++ rest) (ok (some (of_body body))) rest []
  unfolding read_body
  read_body-Runs body rest n e = rw e (Runs-bind _ (stream.reads body rest) (Runs-pure _ rest))

  u32_value : (n : ℕ) → n < 2 ^ 32 → u32_of (u32_bytes n) ≡ n
  u32_value n h = rw (append-nil (u32_bytes n)) at (u32_of-u32_bytes n [] h)

  after_header :
      (m : Message) (rest : List ℕ)
      → length m.payload + 5 < 2 ^ 32
      → let n = u32_of (u32_bytes (length m.payload + 1)) in
        Runs v
          (if n == 0 then pure none else read_body c n)
          (m.id ∷ (m.payload ++ rest))
          (ok (some m))
          rest
          []
  after_header m rest h = rw (u32_value (length m.payload + 1) (omega arith)) (
      rw (ne→==_false (length m.payload + 1) 0 (omega arith))
        (read_body-Runs (m.id ∷ m.payload) rest (length m.payload + 1) (omega arith)))

  header :
      (n : ℕ) (rest : List ℕ)
      → Runs v (c.read_full 4) (u32_bytes n ++ rest) (ok (u32_bytes n)) rest []
  unfolding u32_bytes
  header n rest = stream.reads (u32_bytes n) rest

  -- On a stream that begins with the frame of a message, Read returns that message and leaves
  -- what follows it.
  pub read-frame :
      (m : Message) (rest : List ℕ)
      → length m.payload + 5 < 2 ^ 32
      → Runs v (read c) (frame m ++ rest) (ok (some m)) rest []
  unfolding read
  read-frame m rest h =
      Runs-cast (sym (append_assoc (u32_bytes (length m.payload + 1)) (m.id ∷ m.payload) rest)) refl
        refl
        (Runs-bind _ (header (length m.payload + 1) (m.id ∷ (m.payload ++ rest)))
          (after_header m rest h))

  -- Four zero bytes are a keep-alive.
  pub read-keep_alive : (rest : List ℕ) → Runs v (read c) (0 ∷ 0 ∷ 0 ∷ 0 ∷ rest) (ok none) rest []
  unfolding read u32_of
  read-keep_alive rest = Runs-bind _ (stream.reads (0 ∷ 0 ∷ 0 ∷ 0 ∷ []) rest) (Runs-pure _ rest)

  -- For every message whose number is a byte and whose payload is of bytes and, with the head, less
  -- than 4 GiB, the keep-alive included: Serialize succeeds, and on a working stream that begins
  -- with what it wrote Read returns the same message and leaves the rest.
  pub read-serialize :
      (m : Option Message) (rest : List ℕ)
      → IsMessage? m
      → (bs : List ℕ) × (serialize m ≡ ok bs) × Runs v (read c) (bs ++ rest) (ok m) rest []
  read-serialize none rest h = (frame? none, unfold serialize in refl, read-keep_alive rest)
  read-serialize (some m) rest h = (frame m, serialize-frame m h.fits, read-frame m rest h.fits)

  cut_body :
      (m : Message) (front : List ℕ)
      → length m.payload + 5 < 2 ^ 32
      → length front < length m.payload + 1
      → let n = u32_of (u32_bytes (length m.payload + 1)) in
        Runs v (if n == 0 then pure none else read_body c n) front (err eof) [] []
  unfolding read_body
  cut_body m front h short = rw (u32_value (length m.payload + 1) (omega arith)) (
      rw (ne→==_false (length m.payload + 1) 0 (omega arith))
        (Runs-bind_err _ (stream.ends (length m.payload + 1) front short)))

  -- A working stream that ends inside the frame of a message of less than 4 GiB makes Read fail
  -- with the error of io.ReadFull.
  pub read_truncated :
      (m : Message) (front back : List ℕ) (x : ℕ)
      → length m.payload + 5 < 2 ^ 32
      → frame m ≡ front ++ (x ∷ back)
      → Runs v (read c) front (err eof) [] []
  unfolding read
  read_truncated m front back x h e = elim (Bool-cases (ltb (length front) 4)) [
    | inl short ↦ Runs-bind_err _ (stream.ends 4 front (ltb→lt _ _ short))
    | inr long ↦
        let n = length m.payload + 1 in
        let (a, b, p, la, lb) = split_at 4 front (ground arith) in
        let (same, tail) =
          append_split (u32_bytes n) a (m.id ∷ m.payload) (b ++ (x ∷ back))
            (length-u32_bytes n ∙ sym la)
            (e ∙ ap (λ l. l ++ (x ∷ back)) p ∙ append_assoc a b (x ∷ back)) in
        Runs-cast (sym (p ∙ ap (λ l. l ++ b) (sym same))) refl refl (
          Runs-bind _ (header n b)
            (cut_body m b h (omega (arith, ap length tail, length-append {0} b (x ∷ back)))))
  ]
