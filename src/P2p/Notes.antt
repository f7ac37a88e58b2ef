-- ===== src/P2p/Notes.antt =====
-- p2p/p2p.go: the messages that may come between the blocks of a piece.
use bittorrent_over_scion.Common.{
  ℕ, ◌+◌, ◌<◌, ◌^◌, ◌≡◌, ◌≢◌, ◌⊎◌, refl, List, [], ◌++◌, true, false, not, ◌||◌, ◌==◌, ==_iff,
  Option, none, some, length, pos, ok, err, Error, wrong_id, payload_length, u16_of, Bool-cases,
  inl, inr, arith, u32_of,
}
use bittorrent_over_scion.Common.Stream.{
  Conn, View, IsStream, Runs, Runs-bind, Runs-pure, Runs-lift, Runs-try,
}
use bittorrent_over_scion.Bitfield.{set_piece}
use bittorrent_over_scion.Message.{
  Message, msg_unchoke, msg_choke, msg_have, msg_piece, msg_port, parse_have, parse_port,
}
use bittorrent_over_scion.Message.Wire.{frame?, read-frame, read-keep_alive}
use bittorrent_over_scion.Client.{Client}
use bittorrent_over_scion.P2p.{
  Progress, set_choked, take_have, ping_port, take_message, take_message?, read_message,
}

-- A message that is no block, and no broken HAVE.
pub record IsNote (m : Message) : Type 0 where
  pub no_block : m.id ≢ msg_piece
  pub whole_have : m.id ≡ msg_have → length m.payload ≡ 4
  pub fits : length m.payload + 5 < 2 ^ 32

abbrev pub IsNote? : Option Message → Type 0
IsNote? none = Unit {0}
IsNote? (some m) = IsNote m

-- What such a message leaves alone: all but the client.
pub record Quiet {Addr : Type 0} (p p' : Progress Addr) : Type 0 where
  pub same_index : p'.index ≡ p.index
  pub same_buf : p'.buf ≡ p.buf
  pub same_downloaded : p'.downloaded ≡ p.downloaded
  pub same_requested : p'.requested ≡ p.requested

quiet : {Addr : Type 0} {p : Progress Addr} → Quiet p p
quiet = record { same_index = refl; same_buf = refl; same_downloaded = refl; same_requested = refl }

new_client :
    {Addr : Type 0} (p : Progress Addr) (cl : Client Addr) → Quiet p (record p { client = cl })
new_client p cl = record {
  same_index = refl;
  same_buf = refl;
  same_downloaded = refl;
  same_requested = refl;
}

parse_have_note :
    (m : Message)
    → (m.id == msg_have) ≡ true
    → length m.payload ≡ 4
    → parse_have m ≡ ok (pos (u32_of m.payload))
unfolding parse_have
parse_have_note m e h = ground (arith, h)

parse_port_cases :
    (m : Message) → ((n : ℕ) × (parse_port m ≡ ok n)) ⊎ ((e : Error) × (parse_port m ≡ err e))
unfolding parse_port
parse_port_cases m = elim (Bool-cases (m.id == msg_port)) [
  | inr other ↦ inr (wrong_id msg_port m.id, simp other)
  | inl port ↦ elim (Bool-cases (length m.payload == 2)) [
    | inr long ↦ inr (payload_length 2 (length m.payload), simp (port, long))
    | inl two ↦ inl (u16_of m.payload, simp (port, two))
  ]
]

module _ {Addr : Type 0} (c : Conn) (v : View c.State) (stream : IsStream c v) where
  -- What the call does with a note, on any bytes.
  record Notes (p : Progress Addr) (m : Message) (inp : List ℕ) : Type 0 where
    after : Progress Addr
    runs : Runs v (take_message c p m) inp (ok after) inp []
    still : Quiet p after

  take_note : (p : Progress Addr) (m : Message) (inp : List ℕ) → IsNote m → Notes p m inp
  unfolding take_message set_choked take_have ping_port
  take_note p m inp w = elim (Bool-cases (m.id == msg_unchoke)) [
    | inl a ↦ record {
      after = record p { client = record p.client { choked = false } };
      runs = simp a (Runs-pure _ inp);
      still = new_client p _;
    }
    | inr a ↦ elim (Bool-cases (m.id == msg_choke)) [
      | inl b ↦ record {
        after = record p { client = record p.client { choked = true } };
        runs = simp (a, b) (Runs-pure _ inp);
        still = new_client p _;
      }
      | inr b ↦ elim (Bool-cases (m.id == msg_have)) [
        | inl d ↦ record {
          after = record p {
            client = record p.client {
              bitfield = set_piece p.client.bitfield (pos (u32_of m.payload));
            };
          };
          runs =
              simp (a, b, d, parse_have_note m d (w.whole_have ((==_iff _ _).0 d)))
                (Runs-lift _ inp);
          still = new_client p _;
        }
        | inr d ↦ elim (Bool-cases (m.id == msg_piece)) [
          | inl f ↦ absurd (w.no_block ((==_iff _ _).0 f))
          | inr f ↦ elim (Bool-cases (m.id == msg_port)) [
            | inr g ↦ record {
              after = p;
              runs = simp (a, b, d, f, g) (Runs-pure p inp);
              still = quiet;
            }
            | inl g ↦
                elim (Bool-cases
                  (not p.client.discovery_config.enable_dht || not p.client.has_dht_node)) [
                    | inl off ↦ record {
                      after = p;
                      runs = simp (a, b, d, f, g, off) (Runs-pure p inp);
                      still = quiet;
                    }
                    | inr on ↦ elim (parse_port_cases m) [
                      | inl (n, e) ↦ record {
                        after = p;
                        runs =
                            simp (a, b, d, f, g, on, e)
                              (Runs-bind _ (Runs-try (stream.pings n inp)) (Runs-pure p inp));
                        still = quiet;
                      }
                      | inr (x, e) ↦ record {
                        after = p;
                        runs = simp (a, b, d, f, g, on, e) (Runs-pure p inp);
                        still = quiet;
                      }
                    ]
                  ]
          ]
        ]
      ]
    ]
  ]

  pub read_note :
      (p : Progress Addr) (m : Option Message) (rest : List ℕ)
      → IsNote? m
      → (p' : Progress Addr) × Runs v (read_message c p) (frame? m ++ rest) (ok p') rest []
        × Quiet p p'
  unfolding read_message take_message?
  read_note p none rest w =
      (p, Runs-bind _ (read-keep_alive c v stream rest) (Runs-pure p rest), quiet)
  read_note p (some m) rest w =
      let n = take_note p m rest w in
      (n.after, Runs-bind _ (read-frame c v stream m rest w.fits) n.runs, n.still)
