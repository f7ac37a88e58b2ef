-- ===== src/Handshake/Wire.antt =====
-- handshake/handshake.go: the bytes of a handshake, and Read after Serialize.
use Prim.Native.Nat.add
use bittorrent_over_scion.Common.{
  ℕ, suc, ◌+◌, ◌-◌, ◌%◌, ◌<◌, ◌≡◌, min, List, [], ◌∷◌, ◌++◌, Bool, not, ◌==◌, ne→==_false,
  if◌then◌else◌, length, replicate, take, drop, get_or, length-append, length-replicate,
  replicate-add, copy_at, copy_at-append, take-append_length, drop-append_length, take_length,
  append-nil, append_assoc, ok, err, pstrlen_zero, arith, fail,
}
use bittorrent_over_scion.Common.Stream.{
  Conn, View, IsStream, Runs, Runs-bind, Runs-pure, Runs-lift,
}
use bittorrent_over_scion.Handshake.{
  Handshake, protocol, new, get_reserved_bytes, put_part, serialize, of_buffer, read, read_rest,
}

-- The arrays have their length, and the length of the protocol's name fits its byte.
pub record IsHandshake (h : Handshake) : Type 0 where
  pub hash_length : length h.info_hash ≡ 20
  pub id_length : length h.peer_id ≡ 20
  pub named : 0 < length h.pstr
  pub short : length h.pstr < 256

pub new-IsHandshake :
    (info_hash peer_id : List ℕ) (dht : Bool)
    → length info_hash ≡ 20
    → length peer_id ≡ 20
    → IsHandshake (new info_hash peer_id dht)
unfolding new protocol
new-IsHandshake info_hash peer_id dht h k = omega arith

-- <length><name><reserved><info hash><peer id>
abbrev pub body : Handshake → List ℕ
body h = h.pstr ++ (get_reserved_bytes h ++ (h.info_hash ++ h.peer_id))

pub length-get_reserved_bytes : (h : Handshake) → length (get_reserved_bytes h) ≡ 8
unfolding get_reserved_bytes
length-get_reserved_bytes h = ground arith

put_part-fits :
    (pre src : List ℕ) (n : ℕ)
    → put_part (pre ++ replicate (length src + n) 0, length pre) src
      ≡ ((pre ++ src) ++ replicate n 0, length (pre ++ src))
unfolding put_part
put_part-fits pre src n = λ i. (buffer i, offset i)
  where
    buffer :
        copy_at (pre ++ replicate (length src + n) 0) (length pre) src
        ≡ (pre ++ src) ++ replicate n 0
    buffer =
        rw (replicate-add {A = ℕ} (length src) n 0, append_assoc)
          (copy_at-append pre (replicate (length src) 0) (replicate n 0) src (length-replicate _ 0))

    offset :
        length pre + min (length (pre ++ replicate (length src + n) 0) - length pre) (length src)
        ≡ length (pre ++ src)
    offset = omega (
      arith,
      length-append {0} pre src,
      length-append {0} pre (replicate (length src + n) 0),
      length-replicate {0} {A = ℕ} (length src + n) 0,
    )

-- Four parts in a buffer that has just the room, behind its first byte.
all_parts :
    (b : ℕ) (p q r s : List ℕ)
    → (put_part
        (put_part
          (put_part
            (put_part
              ((b ∷ []) ++ replicate (length p + (length q + (length r + (length s + 0)))) 0, 1)
              p)
            q)
          r)
        s).0
      ≡ b ∷ (p ++ (q ++ (r ++ s)))
all_parts b p q r s =
    rw
      (
        put_part-fits (b ∷ []) p,
        put_part-fits ((b ∷ []) ++ p) q,
        put_part-fits (((b ∷ []) ++ p) ++ q) r,
        put_part-fits ((((b ∷ []) ++ p) ++ q) ++ r) s,
      )
      (simp (append_assoc, append-nil))

pub serialize-body : (h : Handshake) → IsHandshake h → serialize h ≡ length h.pstr ∷ body h
unfolding serialize put_part get_reserved_bytes
serialize-body h w =
    let q = get_reserved_bytes h in
    let size : length h.pstr + 49
        ≡ suc (length h.pstr + (length q + (length h.info_hash + (length h.peer_id + 0)))) =
      omega (arith, length-get_reserved_bytes h) in
    let low : length h.pstr % 256 ≡ length h.pstr = omega arith in
    rw (size, low) (all_parts (length h.pstr) h.pstr q h.info_hash h.peer_id)

drop-append_add : (xs ys : List ℕ) (n : ℕ) → drop (length xs + n) (xs ++ ys) ≡ drop n ys
drop-append_add [] ys n = rw add.zero
drop-append_add (x ∷ xs) ys n = rw add.suc (drop-append_add xs ys n)

take-append_le : (xs ys : List ℕ) (n : ℕ) → length xs ≡ n → take n (xs ++ ys) ≡ xs
take-append_le xs ys n h = rw (← h) (take-append_length xs ys)

drop-append_eq : (xs ys : List ℕ) (n : ℕ) → length xs ≡ n → drop n (xs ++ ys) ≡ ys
drop-append_eq xs ys n h = rw (← h) (drop-append_length xs ys)

reserved_flag :
    (h : Handshake) (rest : List ℕ)
    → not (get_or (take 8 (get_reserved_bytes h ++ rest)) 7 0 % 2 == 0) ≡ h.dht_support
unfolding get_reserved_bytes
reserved_flag h rest = ground arith

module _ (h : Handshake) (w : IsHandshake h) where
  cut_hash : take 20 (drop (length h.pstr + 8) (body h)) ≡ h.info_hash
  cut_hash =
      let q = get_reserved_bytes h in
      rw
        (
          drop-append_add h.pstr (q ++ (h.info_hash ++ h.peer_id)) 8,
          drop-append_eq q (h.info_hash ++ h.peer_id) 8 (length-get_reserved_bytes h),
        )
        (take-append_le h.info_hash h.peer_id 20 w.hash_length)

  cut_id : take 20 (drop (length h.pstr + 28) (body h)) ≡ h.peer_id
  cut_id =
      let q = get_reserved_bytes h in
      rw
        (
          drop-append_add h.pstr (q ++ (h.info_hash ++ h.peer_id)) 28,
          ← append_assoc q h.info_hash h.peer_id,
          drop-append_eq (q ++ h.info_hash) h.peer_id 28
              (omega (arith, w, length-get_reserved_bytes h, length-append {0} q h.info_hash)),
        )
        (rw (← w.id_length) (take_length h.peer_id))

  cut_flag : not (get_or (take 8 (drop (length h.pstr) (body h))) 7 0 % 2 == 0) ≡ h.dht_support
  cut_flag =
      rw (drop-append_length h.pstr (get_reserved_bytes h ++ (h.info_hash ++ h.peer_id)))
        (reserved_flag h _)

  -- Cutting the body gives back the fields.
  of_buffer-body : of_buffer (length h.pstr) (body h) ≡ h
  unfolding of_buffer
  of_buffer-body = λ i. record {
    pstr = take-append_length h.pstr (get_reserved_bytes h ++ (h.info_hash ++ h.peer_id)) i;
    info_hash = cut_hash i;
    peer_id = cut_id i;
    dht_support = cut_flag i;
  }

  length-body : length (body h) ≡ 48 + length h.pstr
  length-body =
      let q = get_reserved_bytes h in
      omega (
        arith,
        w,
        length-get_reserved_bytes h,
        length-append {0} h.pstr (q ++ (h.info_hash ++ h.peer_id)),
        length-append {0} q (h.info_hash ++ h.peer_id),
        length-append {0} h.info_hash h.peer_id,
      )

module _ (c : Conn) (v : View c.State) (stream : IsStream c v) (h : Handshake)
    (w : IsHandshake h) where
  after_length :
      (rest : List ℕ)
      → Runs v
          (if length h.pstr == 0 then fail pstrlen_zero else read_rest c (length h.pstr))
          (body h ++ rest)
          (ok h)
          rest
          []
  unfolding read_rest
  after_length rest =
      rw (ne→==_false (length h.pstr) 0 (omega arith), ← length-body h w)
        (Runs-bind _ (stream.reads (body h) rest) (rw (of_buffer-body h w) (Runs-pure h rest)))

  -- On a working stream that begins with the bytes of a handshake whose arrays have their length
  -- and whose name has 1 to 255 bytes, Read returns that handshake, the flag for the DHT included,
  -- and leaves what follows.
  pub read-serialize_handshake :
      (rest : List ℕ) → Runs v (read c) (serialize h ++ rest) (ok h) rest []
  unfolding read
  read-serialize_handshake rest =
      rw (serialize-body h w)
        (Runs-bind _ (stream.reads (length h.pstr ∷ []) (body h ++ rest)) (after_length rest))

-- A name of length 0 is refused after the first byte.
pub read_unnamed :
    (c : Conn) (v : View c.State) (stream : IsStream c v) (rest : List ℕ)
    → Runs v (read c) (0 ∷ rest) (err pstrlen_zero) rest []
unfolding read
read_unnamed c v stream rest = Runs-bind _ (stream.reads (0 ∷ []) rest) (Runs-lift _ rest)
