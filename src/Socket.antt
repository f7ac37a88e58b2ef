-- ===== src/Socket.antt =====
-- socket/interface.go: the interface of a socket, and a sequence of calls on one. The calls on the
-- network are parameters of the two kinds of socket, in Socket.Tcp and Socket.Scion.
pub mod Tcp
pub mod Scion
pub mod Streams
pub mod Networks
pub mod Certificates
mod Examples
use bittorrent_over_scion.Common.{
  ℕ, ◌≡◌, refl, ◌∙◌, sym, ap, List, [], ◌∷◌, Option, none, some, ℤ, Result, ok, err, halt, panic, M,
  resume, ◌>>=◌,
}

-- A socket with its connection and listener and the network behind it is the state.
pub record Socket : Type 1 where
  pub State : Type 0
  pub Listener : Type 0
  pub Conn : Type 0
  pub listen : List ℕ → M State Listener
  pub dial : List ℕ → ℤ → M State Conn
  pub read : ℕ → M State (List ℕ)
  pub write : List ℕ → M State ℕ
  pub accept : M State Conn

pub data Call : Type 0 where
  listens : List ℕ → Call
  dials : List ℕ → ℤ → Call
  reads : ℕ → Call
  writes : List ℕ → Call
  accepts : Call

module _ (socket : Socket) where
  pub data Outcome : Type 0 where
    listened : Result socket.Listener → Outcome
    dialled : Result socket.Conn → Outcome
    got : Result (List ℕ) → Outcome
    put : Result ℕ → Outcome
    accepted : Result socket.Conn → Outcome

  unfoldable pub call : Call → socket.State → Outcome × socket.State
  call (listens addr) s = (listened (socket.listen addr s).0, (socket.listen addr s).1)
  call (dials addr index) s = (dialled (socket.dial addr index s).0, (socket.dial addr index s).1)
  call (reads n) s = (got (socket.read n s).0, (socket.read n s).1)
  call (writes bs) s = (put (socket.write bs s).0, (socket.write bs s).1)
  call accepts s = (accepted (socket.accept s).0, (socket.accept s).1)

  -- Calls one after the other, with their outcomes.
  unfoldable pub calls : List Call → socket.State → List Outcome × socket.State
  calls [] s = ([], s)
  calls (x ∷ xs) s =
      let (outcome, s₁) = call x s in let (outcomes, s₂) = calls xs s₁ in (outcome ∷ outcomes, s₂)

  -- The connection of the last Dial that gave one; `before` is the one there was.
  abbrev pub newest : Option socket.Conn → Outcome → Option socket.Conn
  newest before (listened r) = before
  newest before (dialled (ok conn)) = some conn
  newest before (dialled (err e)) = before
  newest before (dialled (halt h)) = before
  newest before (got r) = before
  newest before (put r) = before
  newest before (accepted r) = before

  abbrev pub last_dialled : Option socket.Conn → List Outcome → Option socket.Conn
  last_dialled before [] = before
  last_dialled before (x ∷ xs) = last_dialled (newest before x) xs

  -- What a kind of socket owes: only Dial changes the connection, and only when it gives a new one;
  -- Read and Write are those of the connection.
  pub record IsSocket : Type 0 where
    pub conn_of : socket.State → Option socket.Conn
    pub read_on : Option socket.Conn → ℕ → M socket.State (List ℕ)
    pub write_on : Option socket.Conn → List ℕ → M socket.State ℕ
    pub keeps :
        (x : Call) (s : socket.State) → conn_of (call x s).1 ≡ newest (conn_of s) (call x s).0
    pub reads_conn : (n : ℕ) (s : socket.State) → socket.read n s ≡ read_on (conn_of s) n s
    pub writes_conn :
        (bs : List ℕ) (s : socket.State) → socket.write bs s ≡ write_on (conn_of s) bs s

  pub calls-conn :
      (laws : IsSocket) (xs : List Call) (s : socket.State)
      → laws.conn_of (calls xs s).1 ≡ last_dialled (laws.conn_of s) (calls xs s).0
  unfolding calls
  calls-conn laws [] s = refl
  calls-conn laws (x ∷ xs) s =
      calls-conn laws xs (call x s).1
      ∙ ap (λ c. last_dialled c (calls xs (call x s).1).0) (laws.keeps x s)

  -- Calls that leave the connection as it is, and those that may put a new one in its place.
  module _ (conn_of : socket.State → Option socket.Conn) where
    pub record Keeps {A : Type 0} (m : M socket.State A) : Type 0 where
      pub same : (s : socket.State) → conn_of (m s).1 ≡ conn_of s

    pub record Dials (m : M socket.State socket.Conn) : Type 0 where
      pub newer : (s : socket.State) → conn_of (m s).1 ≡ newest (conn_of s) (dialled (m s).0)

    resume-Keeps :
        {A B : Type 0} (r : Result A) (s : socket.State) (f : A → M socket.State B)
        → ((a : A) → Keeps (f a))
        → conn_of (resume r s f).1 ≡ conn_of s
    resume-Keeps (ok a) s f k = (k a).same s
    resume-Keeps (err e) s f k = refl
    resume-Keeps (halt h) s f k = refl

    pub Keeps-bind :
        {A B : Type 0} {m : M socket.State A} (f : A → M socket.State B)
        → Keeps m
        → ((a : A) → Keeps (f a))
        → Keeps (m >>= f)
    Keeps-bind {m} f h k = record { same = λ s. resume-Keeps (m s).0 (m s).1 f k ∙ h.same s }

    resume-Dials :
        {A : Type 0} (r : Result A) (s : socket.State) (f : A → M socket.State socket.Conn)
        → ((a : A) → Dials (f a))
        → conn_of (resume r s f).1 ≡ newest (conn_of s) (dialled (resume r s f).0)
    resume-Dials (ok a) s f k = (k a).newer s
    resume-Dials (err e) s f k = refl
    resume-Dials (halt h) s f k = refl

    pub Dials-bind :
        {A : Type 0} {m : M socket.State A} (f : A → M socket.State socket.Conn)
        → Keeps m
        → ((a : A) → Dials (f a))
        → Dials (m >>= f)
    Dials-bind {m} f h k = record {
      newer = λ s.
          resume-Dials (m s).0 (m s).1 f k
          ∙ ap (λ c. newest c (dialled (resume (m s).0 (m s).1 f).0)) (h.same s);
    }
