-- ===== src/Common/Results.antt =====
-- What a Go call returns. An error value, a run-time panic or a fatal exit ends the call; `stuck`
-- is no Go outcome: a loop of the model ran out of fuel.
-- A call that also changes state (a connection, a peer's record) takes the state and returns it.
use mathlib.Core.Path.{◌≡◌, refl}
use Prim.Native.Nat.{ℕ}

-- One constructor for each error of the modelled packages, with the values that its text reports.
pub data Error : Type 0 where
  eof : Error
  write_failed : Error
  wrong_id : ℕ → ℕ → Error
  payload_short : ℕ → Error
  payload_length : ℕ → ℕ → Error
  wrong_index : ℕ → Error
  begin_too_high : ℕ → ℕ → Error
  data_too_long : ℕ → ℕ → ℕ → Error
  pstrlen_zero : Error
  wrong_info_hash : Error
  no_bitfield : Error
  integrity : Error
  malformed_peers : Error
  malformed_pieces : ℕ → Error
  invalid_node : Error
  unparsable : Error
  unsupported : Error

pub data Halt : Type 0 where
  panic fatal stuck : Halt

pub data Result {ℓ} (A : Type ℓ) : Type ℓ where
  ok : A → Result A
  err : Error → Result A
  halt : Halt → Result A

-- Plain calls: the rest runs on the value.
abbrev pub and_then {ℓ κ} : {A : Type ℓ} {B : Type κ} → Result A → (A → Result B) → Result B
and_then (ok a) f = f a
and_then (err e) f = err e
and_then (halt h) f = halt h

-- Calls with a state.
abbrev pub M {ℓ κ} : Type ℓ → Type κ → Type (ℓ ⊔ κ)
M S A = S → Result A × S

abbrev pub resume {ℓ κ μ} :
    {S : Type ℓ} {A : Type κ} {B : Type μ} → Result A → S → (A → M S B) → Result B × S
resume (ok a) s f = f a s
resume (err e) s f = (err e, s)
resume (halt h) s f = (halt h, s)

infixl 5 ◌>>=◌ ◌>>◌
abbrev pub ◌>>=◌ {ℓ κ μ} : {S : Type ℓ} {A : Type κ} {B : Type μ} → M S A → (A → M S B) → M S B
◌>>=◌ m f s = resume (m s).0 (m s).1 f

abbrev pub ◌>>◌ {ℓ κ μ} : {S : Type ℓ} {A : Type κ} {B : Type μ} → M S A → M S B → M S B
◌>>◌ m k s = resume (m s).0 (m s).1 (λ _. k)

abbrev pub pure {ℓ κ} : {S : Type ℓ} {A : Type κ} → A → M S A
pure a s = (ok a, s)

abbrev pub fail {ℓ κ} : {S : Type ℓ} {A : Type κ} → Error → M S A
fail e s = (err e, s)

abbrev pub lift {ℓ κ} : {S : Type ℓ} {A : Type κ} → Result A → M S A
lift r s = (r, s)

-- The caller looks at the outcome itself: an error does not end it, a halt does.
abbrev pub settle {ℓ κ} : {S : Type ℓ} {A : Type κ} → Result A → S → Result (Result A) × S
settle (ok a) s = (ok (ok a), s)
settle (err e) s = (ok (err e), s)
settle (halt h) s = (halt h, s)

abbrev pub try {ℓ κ} : {S : Type ℓ} {A : Type κ} → M S A → M S (Result A)
try m s = settle (m s).0 (m s).1

-- `defer d()`: `d` runs on the state that the call leaves, whatever its outcome.
abbrev pub defer {ℓ κ μ} : {S : Type ℓ} {A : Type κ} {B : Type μ} → M S A → M S B → M S A
defer m d s = ((m s).0, (d (m s).1).1)

-- A block that succeeds: each of its calls did.
pub resume-ok {ℓ κ μ} :
    {S : Type ℓ} {A : Type κ} {B : Type μ} (r : Result A) (s : S) (f : A → M S B) {b : B}
    → (resume r s f).0 ≡ ok b
    → (a : A) × (r ≡ ok a) × ((f a s).0 ≡ ok b)
resume-ok (ok a) s f h = (a, refl, h)
resume-ok (err e) s f h = cc
resume-ok (halt x) s f h = cc
