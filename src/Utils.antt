-- ===== src/Utils.antt =====
-- Utils/numbers.go. math/rand and base32 are parameters.
pub mod Addresses
use bittorrent_over_scion.Common.{
  ℕ, List, ◌||◌, if◌then◌else◌, length, take, ltb, ℤ, pos, pos_part, is_neg, ltb_ℤ, add_int,
  sub_int, Option, none, some, Result, ok, halt, panic,
}

-- A random number below `n` is `intn n`, and a panic for an `n` that is not positive.
unfoldable pub ensure_between_random : (ℤ → ℤ) → ℤ → ℤ → ℤ → Result ℤ
ensure_between_random intn val min max =
    if ltb_ℤ max val || ltb_ℤ val min
    then (if ltb_ℤ (pos 0) (sub_int max min)
        then ok (add_int (intn (sub_int max min)) min)
        else halt panic)
    else ok val

-- `random_bytes` are the 32 bytes that rand.Read gives, or its error; the slice panics beyond the text.
unfoldable pub rand_string_bytes : (List ℕ → List ℕ) → Option (List ℕ) → ℤ → Result (List ℕ)
rand_string_bytes encode_to_string none length' = halt panic
rand_string_bytes encode_to_string (some random_bytes) length' =
    let text = encode_to_string random_bytes in
    if is_neg length' || ltb (length text) (pos_part length')
    then halt panic
    else ok (take (pos_part length') text)
