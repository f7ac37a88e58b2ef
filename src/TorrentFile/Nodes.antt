-- ===== src/TorrentFile/Nodes.antt =====
-- torrentfile/torrentfile.go: the DHT nodes, and the whole conversion.
use mathlib.Core.Path.{subst}
use bittorrent_over_scion.Common.{
  ℕ, ◌≡◌, ◌↔◌, refl, sym, ap, List, [], ◌∷◌, map, Option, none, some, ℤ, Result, ok, err, halt,
  and_then, All,
}
use bittorrent_over_scion.TorrentFile.{
  TorrentFile, BencodeInfo, BencodeTorrent, Value, text, int64, other, parsed, node_addr,
  parse_dht_nodes, hash, assembled, to_torrent_file, split_piece_hashes,
}
use bittorrent_over_scion.TorrentFile.Hashes.{joined, IsHash, split_piece_hashes-ok}

module _ {Addr : Type 0} (parse_addr : List ℕ → ℤ → Option Addr) where
  parsed-ok :
      (o : Option Addr) (r : Result (List Addr)) (as' : List Addr)
      → parsed parse_addr o r ≡ ok as'
      → (a : Addr) × (more : List Addr) × (o ≡ some a) × (r ≡ ok more) × (as' ≡ a ∷ more)
  unfolding parsed
  parsed-ok none r as' e = cc
  parsed-ok (some a) (ok more) as' e = (a, more, refl, refl, cc e)
  parsed-ok (some a) (err x) as' e = cc
  parsed-ok (some a) (halt x) as' e = cc

  nodes_parsed :
      (nodes : List (List Value)) (as' : List Addr)
      → parse_dht_nodes parse_addr nodes ≡ ok as'
      → map (node_addr parse_addr) nodes ≡ map some as'
  unfolding parse_dht_nodes
  nodes_parsed [] [] e = refl
  nodes_parsed [] (a ∷ as') e = cc
  nodes_parsed (n ∷ rest) as' e =
      let (a, more, p, q, same) =
        parsed-ok (node_addr parse_addr n) (parse_dht_nodes parse_addr rest) as' e in
      rw (same, p) (ap (λ l. some a ∷ l) (nodes_parsed rest more q))

  parsed_nodes :
      (nodes : List (List Value)) (as' : List Addr)
      → map (node_addr parse_addr) nodes ≡ map some as'
      → parse_dht_nodes parse_addr nodes ≡ ok as'
  unfolding parse_dht_nodes parsed
  parsed_nodes [] [] e = refl
  parsed_nodes [] (a ∷ as') e = cc
  parsed_nodes (n ∷ rest) [] e = cc
  parsed_nodes (n ∷ rest) (a ∷ as') e =
      let this : node_addr parse_addr n ≡ some a = cc e in
      let others : map (node_addr parse_addr) rest ≡ map some as' = cc e in
      rw (this, parsed_nodes rest as' others)

  -- parseDhtNodes succeeds exactly when every node is a text and a number that parse as an address,
  -- and returns these addresses in their order.
  pub parse_dht_nodes_iff :
      (nodes : List (List Value)) (as' : List Addr)
      → (parse_dht_nodes parse_addr nodes ≡ ok as')
        ↔ (map (node_addr parse_addr) nodes ≡ map some as')
  parse_dht_nodes_iff nodes as' = (nodes_parsed nodes as', parsed_nodes nodes as')

  -- Each node is a host and a port that parse as the address at its place.
  abbrev pub Parse : List (List Value) → List Addr → Type 0
  Parse [] [] = Unit {0}
  Parse [] (a ∷ as') = ⊥
  Parse (node ∷ nodes) [] = ⊥
  Parse (node ∷ nodes) (a ∷ as') =
      ((host : List ℕ) × (port : ℤ) × (node ≡ text host ∷ int64 port ∷ [])
        × (parse_addr host port ≡ some a))
      × Parse nodes as'

  node_addr-some :
      (node : List Value) (a : Addr)
      → node_addr parse_addr node ≡ some a
      → (host : List ℕ) × (port : ℤ) × (node ≡ text host ∷ int64 port ∷ [])
        × (parse_addr host port ≡ some a)
  unfolding node_addr
  node_addr-some (text host ∷ int64 port ∷ []) a e = (host, port, refl, e)
  node_addr-some [] a e = cc
  node_addr-some (int64 k ∷ vs) a e = cc
  node_addr-some (other ∷ vs) a e = cc
  node_addr-some (text host ∷ []) a e = cc
  node_addr-some (text host ∷ text k ∷ vs) a e = cc
  node_addr-some (text host ∷ other ∷ vs) a e = cc
  node_addr-some (text host ∷ int64 port ∷ v ∷ vs) a e = cc

  parsed-Parse :
      (nodes : List (List Value)) (as' : List Addr)
      → map (node_addr parse_addr) nodes ≡ map some as'
      → Parse nodes as'
  parsed-Parse [] [] e = tt
  parsed-Parse [] (a ∷ as') e = cc
  parsed-Parse (n ∷ nodes) [] e = cc
  parsed-Parse (n ∷ nodes) (a ∷ as') e = (node_addr-some n a (cc e), parsed-Parse nodes as' (cc e))

  hash-ok :
      (marshal : BencodeInfo → Result (List ℕ)) (sha1 : List ℕ → List ℕ) (i : BencodeInfo)
      (ih : List ℕ)
      → hash parse_addr marshal sha1 i ≡ ok ih
      → (buf : List ℕ) × (marshal i ≡ ok buf) × (ih ≡ sha1 buf)
  unfolding hash
  hash-ok marshal sha1 i ih e = hashed_of (marshal i) refl e
    where
      hashed_of :
          (r : Result (List ℕ))
          → marshal i ≡ r
          → and_then r (λ buf. ok (sha1 buf)) ≡ ok ih
          → (buf : List ℕ) × (marshal i ≡ ok buf) × (ih ≡ sha1 buf)
      hashed_of (ok buf) p e = (buf, p, sym (cc e))
      hashed_of (err x) p e = cc
      hashed_of (halt x) p e = cc

  module _ (marshal : BencodeInfo → Result (List ℕ)) (sha1 : List ℕ → List ℕ) where
    -- What a torrent file that was accepted holds.
    pub record Describes (bto : BencodeTorrent) (t : TorrentFile Addr) : Type 0 where
      pub hashed : (buf : List ℕ) × (marshal bto.info ≡ ok buf) × (t.info_hash ≡ sha1 buf)
      pub pieces_joined : joined t.piece_hashes ≡ bto.info.pieces
      pub hashes_whole : All IsHash t.piece_hashes
      pub nodes_parse : Parse bto.nodes t.nodes
      pub same_name : t.name ≡ bto.info.name
      pub same_announce : t.announce ≡ bto.announce
      pub same_piece_length : t.piece_length ≡ bto.info.piece_length
      pub same_length : t.length ≡ bto.info.length

    and_then-ok {ℓ κ} :
        {A : Type ℓ} {B : Type κ} (r : Result A) (f : A → Result B) {b : B}
        → and_then r f ≡ ok b
        → (a : A) × (r ≡ ok a) × (f a ≡ ok b)
    and_then-ok (ok a) f e = (a, refl, e)
    and_then-ok (err x) f e = cc
    and_then-ok (halt x) f e = cc

    assembled-Describes :
        (bto : BencodeTorrent) (ih : List ℕ) (hs : List (List ℕ)) (ns : List Addr)
        → hash parse_addr marshal sha1 bto.info ≡ ok ih
        → split_piece_hashes bto.info ≡ ok hs
        → parse_dht_nodes parse_addr bto.nodes ≡ ok ns
        → Describes bto (assembled parse_addr bto ih hs ns)
    unfolding assembled
    assembled-Describes bto ih hs ns p q r = record {
      hashed = hash-ok marshal sha1 bto.info ih p;
      pieces_joined = (split_piece_hashes-ok bto.info hs q).0;
      hashes_whole = (split_piece_hashes-ok bto.info hs q).1;
      nodes_parse = parsed-Parse bto.nodes ns (nodes_parsed bto.nodes ns r);
      same_name = refl;
      same_announce = refl;
      same_piece_length = refl;
      same_length = refl;
    }

    -- When the conversion succeeds, the info hash is that of the encoded info, the piece hashes are
    -- the text of the pieces cut into 20 bytes each, every node was parsed, and the lengths are
    -- those of the info.
    pub to_torrent_file-Describes :
        (bto : BencodeTorrent) (t : TorrentFile Addr)
        → to_torrent_file parse_addr marshal sha1 bto ≡ ok t
        → Describes bto t
    unfolding to_torrent_file
    to_torrent_file-Describes bto t e =
        let (ih, p, e₁) = and_then-ok (hash parse_addr marshal sha1 bto.info) _ e in
        let (hs, q, e₂) = and_then-ok (split_piece_hashes bto.info) _ e₁ in
        let (ns, r, e₃) = and_then-ok (parse_dht_nodes parse_addr bto.nodes) _ e₂ in
        let same : assembled parse_addr bto ih hs ns ≡ t = cc e₃ in
        subst (Describes bto) same (assembled-Describes bto ih hs ns p q r)
