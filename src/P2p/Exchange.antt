-- ===== src/P2p/Exchange.antt =====
-- p2p/p2p.go: attemptDownloadPiece with a peer that answers each request in turn: the blocks that
-- the code asks for, as a plan that does not depend on when the answers come.
pub mod Sending
pub mod Turns
pub mod Receiving
pub mod Whole
pub mod Piece
pub mod Corrupt
mod Examples
use bittorrent_over_scion.Common.{
  ℕ, zero, suc, ◌+◌, ◌-◌, ◌<◌, ◌≤◌, ◌≡◌, refl, sym, ◌∙◌, List, [], ◌∷◌, ◌++◌, Bool, true, false,
  ltb, if◌then◌else◌, length, All, Bool-cases, inl, inr, arith,
}
use bittorrent_over_scion.P2p.{block_size}
use bittorrent_over_scion.P2p.Pipeline.{sum, IsSize, block_size-IsSize}

-- The sizes of the blocks of a piece of `len` bytes, from byte `from` on, up to its end.
abbrev pub IsPlan : ℕ → ℕ → List ℕ → Type 0
IsPlan len from [] = len ≡ from
IsPlan len from (n ∷ ns) = (from < len) × (n ≡ block_size len from) × IsPlan len (from + n) ns

-- The plan, for at most `fuel` blocks.
abbrev pub plan : ℕ → ℕ → ℕ → List ℕ
plan zero len from = []
plan (suc fuel) len from =
    let rest = plan fuel len (from + block_size len from) in
    if ltb from len then block_size len from ∷ rest else []

pub plan-IsPlan :
    (fuel len from : ℕ) → from ≤ len → len ≤ from + fuel → IsPlan len from (plan fuel len from)
plan-IsPlan zero len from lo hi = omega arith
plan-IsPlan (suc fuel) len from lo hi = elim (Bool-cases (ltb from len)) [
  | inr done ↦ rw done (ground arith)
  | inl more ↦
      let lt : from < len = ground arith in
      let fits = block_size-IsSize len from lt in
      rw more (
        lt,
        refl,
        plan-IsPlan fuel len (from + block_size len from) (omega (arith, fits))
            (omega (arith, fits)),
      )
]

pub IsPlan-sum : (len from : ℕ) (ns : List ℕ) → IsPlan len from ns → from + sum ns ≡ len
IsPlan-sum len from [] h = omega arith
IsPlan-sum len from (n ∷ ns) (lt, e, h) = omega (arith, IsPlan-sum len (from + n) ns h)

-- Each size is one that may be asked for.
pub IsPlan-sizes : (len from : ℕ) (ns : List ℕ) → IsPlan len from ns → All IsSize ns
IsPlan-sizes len from [] h = tt
IsPlan-sizes len from (n ∷ ns) (lt, e, h) =
    (rw e (block_size-IsSize len from lt).0, IsPlan-sizes len (from + n) ns h)
