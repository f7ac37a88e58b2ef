-- ===== src/P2p/Exchange/Sending.antt =====
-- p2p/p2p.go: the inner loop of attemptDownloadPiece asks for the next blocks of the plan.
use mathlib.Core.Path.{subst}
use bittorrent_over_scion.Common.{
  ℕ, zero, suc, ◌+◌, ◌-◌, ◌<◌, ◌≤◌, ◌≡◌, refl, sym, ap, ◌∙◌, List, [], ◌∷◌, ◌++◌, append_assoc,
  false, length, ℤ, pos, ok, ◌>>◌, Bool-cases, inl, inr, arith,
}
use bittorrent_over_scion.Common.Stream.{Conn, View, IsStream, Runs, Runs-then, Runs-pure, Runs-ext}
use bittorrent_over_scion.Message.{format_request}
use bittorrent_over_scion.Message.Wire.{frame}
use bittorrent_over_scion.Client.{send_request}
use bittorrent_over_scion.P2p.{Progress, requested_more, send_requests}
use bittorrent_over_scion.P2p.Pipeline.{
  sum, asks, has_room, add_ℕ, send_request-Runs, stop_lem, go_on_lem, block_size-IsSize,
}
use bittorrent_over_scion.P2p.Exchange.{IsPlan}

pub asks-append :
    (index : ℤ) (begin : ℕ) (ms ns : List ℕ)
    → asks index begin (ms ++ ns) ≡ asks index begin ms ++ asks index (begin + sum ms) ns
asks-append index begin [] ns = ap (λ b. asks index b ns) (omega arith)
asks-append index begin (m ∷ ms) ns =
    ap (frame (format_request index (pos begin) (pos m)) ++◌) (asks-append index (begin + m) ms ns)
    ∙ sym (
        append_assoc (frame (format_request index (pos begin) (pos m))) (asks index (begin + m) ms)
          _)
    ∙ ap (λ b. asks index begin (m ∷ ms) ++ asks index b ns) (omega arith)

module _ {Addr : Type 0} where
  -- The progress after these were asked for.
  abbrev pub after_asking : Progress Addr → List ℕ → Progress Addr
  after_asking p now = record p {
    requested = p.requested + sum now;
    backlog = add_ℕ p.backlog (length now);
  }

  counting :
      (p : Progress Addr) {r r' : ℕ} {b b' : ℤ}
      → r ≡ r'
      → b ≡ b'
      → record p { requested = r; backlog = b } ≡ record p { requested = r'; backlog = b' }
  counting p e e' = λ i. record p { requested = e i; backlog = e' i }

  asked_nothing : (p : Progress Addr) → p ≡ after_asking p []
  asked_nothing p = counting p (omega arith) (ground arith)

  module _ (c : Conn) (v : View c.State) (stream : IsStream c v) where
    asked_more :
        (p : Progress Addr) (n : ℕ) (now : List ℕ)
        → after_asking (requested_more c n p) now ≡ after_asking p (n ∷ now)
    unfolding requested_more
    asked_more p n now = counting p (omega arith) (ground arith)

    -- A round of requests: the next blocks of the plan are asked for, until there is no more room.
    pub record Asked (fuel len : ℕ) (p : Progress Addr) (ns : List ℕ) (inp : List ℕ) : Type 0 where
      pub now : List ℕ
      pub later : List ℕ
      pub split : ns ≡ now ++ later
      pub onward : IsPlan len (p.requested + sum now) later
      pub full : has_room len (after_asking p now) ≡ false
      pub runs :
          Runs v
            (send_requests c fuel len p)
            inp
            (ok (after_asking p now))
            inp
            (asks p.index p.requested now)

    no_request :
        (fuel len : ℕ) (p : Progress Addr) (ns inp : List ℕ)
        → IsPlan len p.requested ns
        → has_room len p ≡ false
        → Asked (suc fuel) len p ns inp
    no_request fuel len p ns inp plan stop = record {
      now = [];
      later = ns;
      split = refl;
      onward = subst (λ r. IsPlan len r ns) (omega arith) plan;
      full = ap (has_room len) (sym (asked_nothing p)) ∙ stop;
      runs =
          subst (λ q. Runs v (send_requests c (suc fuel) len p) inp (ok q) inp []) (asked_nothing p)
            (Runs-ext (stop_lem c fuel len p stop) (Runs-pure p inp));
    }

    pub send_requests-Asked :
        (fuel len : ℕ) (p : Progress Addr) (ns inp : List ℕ)
        → IsPlan len p.requested ns
        → p.requested ≤ len
        → len - p.requested < fuel
        → Asked fuel len p ns inp
    unfolding requested_more
    send_requests-Asked zero len p ns inp plan h k = absurd (omega arith)
    send_requests-Asked (suc fuel) len p [] inp plan h k =
        no_request fuel len p [] inp plan (ground arith)
    send_requests-Asked (suc fuel) len p (n ∷ ns) inp (lt, same, plan) h k =
        elim (Bool-cases (has_room len p)) [
          | inr stop ↦ no_request fuel len p (n ∷ ns) inp (lt, same, plan) stop
          | inl more ↦
              let rest =
                send_requests-Asked fuel len (requested_more c n p) ns inp plan
                  (omega (arith, same, block_size-IsSize len p.requested lt))
                  (omega (arith, same, block_size-IsSize len p.requested lt)) in
              record {
                now = n ∷ rest.now;
                later = rest.later;
                split = ap (n ∷◌) rest.split;
                onward = subst (λ r. IsPlan len r rest.later) (omega arith) rest.onward;
                full = ap (has_room len) (sym (asked_more p n rest.now)) ∙ rest.full;
                runs =
                    subst
                      (λ q.
                        Runs v (send_requests c (suc fuel) len p) inp (ok q) inp
                          (asks p.index p.requested (n ∷ rest.now)))
                      (asked_more p n rest.now)
                      (Runs-ext
                        (λ s.
                          go_on_lem c fuel len p more s
                          ∙ ap
                              (λ m.
                                (send_request c p.index (pos p.requested) (pos m)
                                    >> send_requests c fuel len (requested_more c m p))
                                  s)
                              (sym same))
                        (Runs-then
                          (send_request-Runs c v stream p.index (pos p.requested) (pos n) inp)
                          rest.runs));
              }
        ]
