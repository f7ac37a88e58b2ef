-- ===== src/TorrentFile/Tracker.antt =====
-- torrentfile/tracker.go: the request to an HTTP tracker. net/url, net/http and bencode are
-- parameters.
use mathlib.Core.Path.{subst}
use bittorrent_over_scion.Common.{
  ℕ, zero, suc, and_then, ◌≡◌, refl, List, [], ◌∷◌, ℤ, pos, All, replicate, Bool-cases, inl, inr,
  not, ◌==◌, length, ◌%◌, ◌/◌, Result, ok, M, ◌>>=◌, lift, defer, resume-ok,
}
use bittorrent_over_scion.Peers.{Peer, zero_peer, unmarshal}
use bittorrent_over_scion.TorrentFile.{TorrentFile}

pub record HttpCalls : Type 1 where
  pub System : Type 0
  pub Url : Type 0
  pub Response : Type 0
  pub parse_url : List ℕ → Result Url
  -- strconv.Itoa
  pub itoa : ℤ → List ℕ
  -- RawQuery of the encoded values, by their keys, and the text of the URL
  pub with_query : Url → List (List ℕ × List ℕ) → List ℕ
  pub get : List ℕ → M System Response
  pub close_body : Response → M System (Unit {0})
  -- the field `peers` of the body
  pub unmarshal_peers : Response → M System (List ℕ)

-- Port, and the keys and constants of the query.
abbrev pub port : ℕ
port = 6881

abbrev pub info_hash_key : List ℕ
info_hash_key = 105 ∷ 110 ∷ 102 ∷ 111 ∷ 95 ∷ 104 ∷ 97 ∷ 115 ∷ 104 ∷ []

abbrev pub peer_id_key : List ℕ
peer_id_key = 112 ∷ 101 ∷ 101 ∷ 114 ∷ 95 ∷ 105 ∷ 100 ∷ []

abbrev pub port_key : List ℕ
port_key = 112 ∷ 111 ∷ 114 ∷ 116 ∷ []

abbrev pub uploaded_key : List ℕ
uploaded_key = 117 ∷ 112 ∷ 108 ∷ 111 ∷ 97 ∷ 100 ∷ 101 ∷ 100 ∷ []

abbrev pub downloaded_key : List ℕ
downloaded_key = 100 ∷ 111 ∷ 119 ∷ 110 ∷ 108 ∷ 111 ∷ 97 ∷ 100 ∷ 101 ∷ 100 ∷ []

abbrev pub compact_key : List ℕ
compact_key = 99 ∷ 111 ∷ 109 ∷ 112 ∷ 97 ∷ 99 ∷ 116 ∷ []

abbrev pub left_key : List ℕ
left_key = 108 ∷ 101 ∷ 102 ∷ 116 ∷ []

-- "0" and "1"
abbrev zero_text : List ℕ
zero_text = 48 ∷ []

abbrev one_text : List ℕ
one_text = 49 ∷ []

module _ {Addr : Type 0} (calls : HttpCalls) (t : TorrentFile Addr) where
  unfoldable pub query : List ℕ → List (List ℕ × List ℕ)
  query peer_id =
      (info_hash_key, t.info_hash)
      ∷ (peer_id_key, peer_id)
      ∷ (port_key, calls.itoa (pos port))
      ∷ (uploaded_key, zero_text)
      ∷ (downloaded_key, zero_text)
      ∷ (compact_key, one_text)
      ∷ (left_key, calls.itoa t.length)
      ∷ []

  -- The port that is given is not used.
  unfoldable pub build_tracker_url : List ℕ → ℕ → Result (List ℕ)
  build_tracker_url peer_id given_port =
      and_then (calls.parse_url t.announce) (λ base. ok (calls.with_query base (query peer_id)))

  answered : calls.Response → M calls.System (List Peer)
  answered resp =
      defer (calls.unmarshal_peers resp >>= (λ bin. lift (unmarshal bin))) (calls.close_body resp)

  unfoldable pub request_peers : List ℕ → ℕ → M calls.System (List Peer)
  unfolding answered
  request_peers peer_id given_port = do
    url ← lift (build_tracker_url peer_id given_port)
    resp ← calls.get url
    answered resp

  abbrev IsBlank : Peer → Type 0
  IsBlank p = p ≡ zero_peer

  replicate-IsBlank : (n : ℕ) → All IsBlank (replicate n zero_peer)
  replicate-IsBlank zero = tt
  replicate-IsBlank (suc n) = (refl, replicate-IsBlank n)

  unmarshal-IsBlank : (bin : List ℕ) (ps : List Peer) → unmarshal bin ≡ ok ps → All IsBlank ps
  unfolding unmarshal
  unmarshal-IsBlank bin ps e = elim (Bool-cases (not (length bin % 6 == 0))) [
    | inl odd ↦ cc (rw odd at e)
    | inr even ↦
        let same : replicate (length bin / 6) zero_peer ≡ ps = cc (rw even at e) in
        subst (All IsBlank) same (replicate-IsBlank (length bin / 6))
  ]

  -- Whatever the tracker answers, the peers have no address.
  pub request_peers-IsBlank :
      (peer_id : List ℕ) (given_port : ℕ) (s : calls.System) (ps : List Peer)
      → (request_peers peer_id given_port s).0 ≡ ok ps
      → All IsBlank ps
  unfolding request_peers answered
  request_peers-IsBlank peer_id given_port s ps e =
      let (url, made, e₁) = resume-ok (build_tracker_url peer_id given_port) s _ e in
      let (resp, got, e₂) =
        resume-ok (calls.get url s).0 (calls.get url s).1
          (λ resp.
            defer (calls.unmarshal_peers resp >>= (λ bin. lift (unmarshal bin)))
              (calls.close_body resp))
          e₁ in
      let (bin, read, e₃) =
        resume-ok (calls.unmarshal_peers resp (calls.get url s).1).0 _ (λ bin. lift (unmarshal bin))
          e₂ in
      unmarshal-IsBlank bin ps e₃
