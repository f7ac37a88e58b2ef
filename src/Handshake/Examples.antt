-- ===== src/Handshake/Examples.antt =====
-- Tests of the handshake, and its theorems at concrete inputs.
use bittorrent_over_scion.Common.{◌≡◌, refl, [], ◌∷◌, ◌++◌, true, replicate, length, copy_at, ok}
use bittorrent_over_scion.Common.Stream.{Runs}
use bittorrent_over_scion.Common.Pipe.{pipe, view, pipe-IsStream}
use bittorrent_over_scion.Handshake.{
  Handshake, protocol, new, serialize, put_part, get_reserved_bytes, read,
}
use bittorrent_over_scion.Handshake.Wire.{new-IsHandshake, read-serialize_handshake}

abbrev sample : Handshake
sample = new (replicate 20 0x86) (replicate 20 0x01) true

length-serialize-sample : length (serialize sample) ≡ 68
unfolding serialize new protocol put_part get_reserved_bytes copy_at
length-serialize-sample = refl

read-serialize_handshake_example :
    Runs view (read pipe) (serialize sample ++ (7 ∷ [])) (ok sample) (7 ∷ []) []
read-serialize_handshake_example =
    read-serialize_handshake pipe view pipe-IsStream sample
      (new-IsHandshake (replicate 20 0x86) (replicate 20 0x01) true refl refl) (7 ∷ [])
