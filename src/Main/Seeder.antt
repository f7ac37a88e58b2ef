-- ===== src/Main/Seeder.antt =====
-- main.go: the seeder that the flags make.
use bittorrent_over_scion.Common.{
  ℕ, ◌≡◌, sym, ap, ◌∙◌, inl, inr, List, [], ◌∷◌, Result, false, Option, some, ok, get_or, arith,
}
use mathlib.Core.Bool.{false≢true}
use bittorrent_over_scion.TorrentFile.{TorrentFile, Slice}
use bittorrent_over_scion.Server.Creation.{Created, AddrCalls, parsed_addr, find_local_addr}
use bittorrent_over_scion.Server.Creation.Cases.{
  IsReady, IsRefused, by_choice, by_address, by_nil, by_node, by_halt, HasNoAddress,
  new_server_cases,
}
use bittorrent_over_scion.Main.{Flags, or_fatal, discovery_config_of, seeder_config, make_seeder}

module _ {Addr UdpAddr : Type 0} (parse_node : List ℕ → Option Addr)
    (calls : AddrCalls Addr UdpAddr) (flags : Flags) where
  has_address :
      (tf : TorrentFile Addr) (content : Slice) (text : List ℕ) (a : Option UdpAddr)
      → find_local_addr calls text ≡ ok a
      → HasNoAddress calls (seeder_config parse_node flags tf content) text
      → ⊥
  unfolding find_local_addr parsed_addr
  has_address tf content [] a found none_there = none_there
  has_address tf content (b ∷ bs) a found none_there = cc (rw none_there at found)

  -- With no DHT and an address that parses, nothing refuses the seeder.
  accepted :
      (tf : TorrentFile Addr) (content : Slice) (a : Option UdpAddr) {X : Type 0} (r : Result X)
      → flags.enable_dht ≡ false
      → find_local_addr calls flags.local ≡ ok a
      → IsRefused calls (seeder_config parse_node flags tf content) r
      → ⊥
  unfolding seeder_config discovery_config_of
  accepted tf content a r off found (by_choice e _) = omega (arith, ap (λ l. get_or l 0 0) e)
  accepted tf content a r off found (by_address e _) = has_address tf content flags.local a found e
  accepted tf content a r off found (by_nil on e _) = false≢true (sym off ∙ on)
  accepted tf content a r off found (by_node on b e x call _) = false≢true (sym off ∙ on)
  accepted tf content a r off found (by_halt on b e h call _) = false≢true (sym off ∙ on)

  -- With a torrent that opens, a file that can be read, no DHT and a local address that parses or
  -- is the default one, the branch of main for a seeder comes to a server: it has the content of
  -- the file, the piece hashes of the torrent and exactly the pieces of these, and no DHT node,
  -- leecher, connection or peer.
  pub make_seeder-IsReady :
      (Route C : Type 0) (tf : TorrentFile Addr) (content : Slice) (a : Option UdpAddr)
      → flags.enable_dht ≡ false
      → find_local_addr calls flags.local ≡ ok a
      → (s : Created Addr UdpAddr Route C) × (make_seeder parse_node calls flags
            (ok tf)
            (some content)
          ≡ ok s)
        × IsReady calls (seeder_config parse_node flags tf content) s
        × (s.server.torrent_file.content ≡ content)
        × (s.server.torrent_file.piece_hashes ≡ tf.piece_hashes)
  unfolding make_seeder seeder_config
  make_seeder-IsReady Route C tf content a off found =
      elim (new_server_cases calls (seeder_config parse_node flags tf content) Route C) [
        | inr refused ↦ absurd (accepted tf content a _ off found refused)
        | inl (s, made, ready) ↦ (
          s,
          ap or_fatal made,
          ready,
          ap (λ t. t.content) ready.same_file,
          ap (λ t. t.piece_hashes) ready.same_file,
        )
      ]
