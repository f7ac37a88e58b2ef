-- ===== src/Common/Stream.antt =====
-- A connection to a peer. `packets.UDPConn` belongs to scion-path-discovery, so it is a parameter:
-- a state, io.ReadFull and Write on it, the deadline and the close. `IsStream` is what a working
-- connection documents: bytes arrive in order and unchanged, and a write is sent whole.
-- `Runs` says what a call does on such a connection: from the bytes it finds waiting to its
-- outcome, the bytes it leaves and the bytes it has sent.
use Prim.Native.Nat.{ℕ, ◌<◌}
use mathlib.Core.Path.{◌≡◌, refl, sym, ap, ◌∙◌}
use mathlib.Core.Bool.{Bool}
use mathlib.Core.List.{List, [], ◌++◌, append-nil, append_assoc}
use bittorrent_over_scion.Common.Lists.{length}
use bittorrent_over_scion.Common.Results.{
  Error, eof, Result, ok, err, M, ◌>>=◌, ◌>>◌, resume, pure, lift, try, settle, defer,
}

pub record Conn : Type 1 where
  pub State : Type 0
  pub read_full : ℕ → M State (List ℕ)
  pub write : List ℕ → M State (Unit {0})
  -- seconds from now; 0 takes the deadline away
  pub set_deadline : ℕ → M State (Unit {0})
  pub close : M State (Unit {0})
  -- whether GetRemote gives an address, and a ping of the DHT node at that address and this port
  pub has_remote : State → Bool
  pub ping : ℕ → M State (Unit {0})

-- The bytes that wait to be read, and all that were sent.
pub record View (S : Type 0) : Type 0 where
  pub incoming : S → List ℕ
  pub sent : S → List ℕ

-- On every state with these bytes waiting, the call has this outcome, leaves `rest` and sends `out`.
pub record Runs {S A : Type 0} (v : View S) (m : M S A) (inp : List ℕ) (r : Result A)
    (rest out : List ℕ) : Type 0 where
  pub run :
      (s : S)
      → v.incoming s ≡ inp
      → (s' : S) × (m s ≡ (r, s')) × (v.incoming s' ≡ rest) × (v.sent s' ≡ v.sent s ++ out)

pub record IsStream (c : Conn) (v : View c.State) : Type 0 where
  pub reads : (bs rest : List ℕ) → Runs v (c.read_full (length bs)) (bs ++ rest) (ok bs) rest []
  pub ends : (n : ℕ) (bs : List ℕ) → length bs < n → Runs v (c.read_full n) bs (err eof) [] []
  pub writes : (bs inp : List ℕ) → Runs v (c.write bs) inp (ok tt) inp bs
  pub pings : (n : ℕ) (inp : List ℕ) → Runs v (c.ping n) inp (ok tt) inp []
  pub deadlines : (n : ℕ) (inp : List ℕ) → Runs v (c.set_deadline n) inp (ok tt) inp []

module _ {S A : Type 0} {v : View S} where
  pub Runs-pure : (a : A) (inp : List ℕ) → Runs v (pure a) inp (ok a) inp []
  Runs-pure a inp = record { run = λ s e. (s, refl, e, sym (append-nil (v.sent s))) }

  pub Runs-lift : (r : Result A) (inp : List ℕ) → Runs v (lift r) inp r inp []
  Runs-lift r inp = record { run = λ s e. (s, refl, e, sym (append-nil (v.sent s))) }

  pub Runs-try :
      {m : M S A} {inp rest out : List ℕ} {a : A}
      → Runs v m inp (ok a) rest out
      → Runs v (try m) inp (ok (ok a)) rest out
  Runs-try {m} h = record {
    run = λ s e. let (s', p, q, o) = h.run s e in (s', ap (λ w. settle w.0 w.1) p, q, o);
  }

  pub Runs-cast :
      {m : M S A} {r : Result A} {inp rest out inp' rest' out' : List ℕ}
      → inp ≡ inp'
      → rest ≡ rest'
      → out ≡ out'
      → Runs v m inp r rest out
      → Runs v m inp' r rest' out'
  Runs-cast p q o h = record {
    run = λ s e.
        let (s', p', q', o') = h.run s (e ∙ sym p) in
        (s', p', q' ∙ q, o' ∙ ap (λ l. v.sent s ++ l) o);
  }

  -- Calls that agree on every state.
  pub Runs-ext :
      {m m' : M S A} {r : Result A} {inp rest out : List ℕ}
      → ((s : S) → m s ≡ m' s)
      → Runs v m' inp r rest out
      → Runs v m inp r rest out
  Runs-ext same h = record { run = λ s e. let (s', p, q, o) = h.run s e in (s', same s ∙ p, q, o) }

module _ {S A B : Type 0} {v : View S} where
  -- A call that succeeds, then the rest on its value.
  pub Runs-bind :
      {m : M S A} (f : A → M S B) {inp mid rest out more : List ℕ} {a : A} {r : Result B}
      → Runs v m inp (ok a) mid out
      → Runs v (f a) mid r rest more
      → Runs v (m >>= f) inp r rest (out ++ more)
  Runs-bind f {out} {more} h k = record {
    run = λ s e.
        let (s', p, q, o) = h.run s e in
        let (t, p', q', o') = k.run s' q in
        (
          t,
          ap (λ w. resume w.0 w.1 f) p ∙ p',
          q',
          o' ∙ ap (λ l. l ++ more) o ∙ append_assoc (v.sent s) out more,
        );
  }

  pub Runs-then :
      {m : M S A} {k : M S B} {inp mid rest out more : List ℕ} {a : A} {r : Result B}
      → Runs v m inp (ok a) mid out
      → Runs v k mid r rest more
      → Runs v (m >> k) inp r rest (out ++ more)
  Runs-then h k = Runs-bind _ h k

  -- A call that fails ends the block.
  pub Runs-bind_err :
      {m : M S A} (f : A → M S B) {inp rest out : List ℕ} {e : Error}
      → Runs v m inp (err e) rest out
      → Runs v (m >>= f) inp (err e) rest out
  Runs-bind_err f h = record {
    run = λ s e. let (s', p, q, o) = h.run s e in (s', ap (λ w. resume w.0 w.1 f) p, q, o);
  }

  -- A deferred call works on what the call leaves.
  pub Runs-defer :
      {m : M S A} {d : M S B} {inp mid rest out more : List ℕ} {r : Result A} {b : Result B}
      → Runs v m inp r mid out
      → Runs v d mid b rest more
      → Runs v (defer m d) inp r rest (out ++ more)
  Runs-defer {m} {d} {out} {more} {r} {b} h k = record {
    run = λ s e.
        let (s', p, q, o) = h.run s e in
        let (t, p', q', o') = k.run s' q in
        (
          t,
          λ i. ((p i).0, (deferred s s' t p p' i)),
          q',
          o' ∙ ap (λ l. l ++ more) o ∙ append_assoc (v.sent s) out more,
        );
  }
    where
      deferred : (s s' t : S) → m s ≡ (r, s') → d s' ≡ (b, t) → (d (m s).1).1 ≡ t
      deferred s s' t p p' = ap (λ w. (d w.1).1) p ∙ ap (λ w. w.1) p'
