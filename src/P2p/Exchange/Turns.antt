-- ===== src/P2p/Exchange/Turns.antt =====
-- p2p/p2p.go: the blocks of a piece in turn, and which of them are asked for and still to come.
use mathlib.Core.Bool.{false≢true}
use bittorrent_over_scion.Common.{
  lt→ltb, ℕ, suc, ◌+◌, ◌<◌, ◌≤◌, ◌≡◌, refl, sym, ap, ◌∙◌, List, [], ◌∷◌, ◌++◌, append_assoc, false,
  length, length-append, ℤ, pos, arith,
}
use bittorrent_over_scion.Message.Wire.{frame}
use bittorrent_over_scion.Message.Blocks.{piece_message}
use bittorrent_over_scion.P2p.{Progress, dec}
use bittorrent_over_scion.P2p.Pipeline.{sum, has_room, add_ℕ}
use bittorrent_over_scion.P2p.Exchange.Sending.{after_asking}

-- The frames of the blocks, one behind the other from `begin` on.
abbrev pub block_frames : ℕ → ℕ → List (List ℕ) → List ℕ
block_frames index begin [] = []
block_frames index begin (b ∷ bs) =
    frame (piece_message index begin b) ++ block_frames index (begin + length b) bs

abbrev pub joined : List (List ℕ) → List ℕ
joined [] = []
joined (b ∷ bs) = b ++ joined bs

pub sum-append : (ms ns : List ℕ) → sum (ms ++ ns) ≡ sum ms + sum ns
sum-append [] ns = omega arith
sum-append (m ∷ ms) ns = omega (arith, sum-append ms ns)

uncons : (ns : List ℕ) → 1 ≤ length ns → (n : ℕ) × (rest : List ℕ) × (ns ≡ n ∷ rest)
uncons [] h = absurd (omega arith)
uncons (n ∷ ns) h = (n, ns, refl)

-- A round ends with a request that is open, if anything was still to come.
pub some_open :
    {Addr : Type 0} (len : ℕ) (p : Progress Addr) (asked now : List ℕ)
    → p.backlog ≡ pos (length asked)
    → p.requested < len + sum asked
    → has_room len (after_asking p now) ≡ false
    → 1 ≤ length asked + length now
some_open len p (a ∷ asked) now e lt full = omega arith
some_open len p [] (n ∷ now) e lt full = omega arith
some_open len p [] [] e lt full =
    absurd (false≢true (sym full ∙ rw (e, lt→ltb (p.requested + 0) len (omega arith)) refl))

pub close_one : (z : ℤ) (a m k : ℕ) → z ≡ pos a → a + m ≡ suc k → dec (add_ℕ z m) ≡ pos k
close_one z a m k e count = ground (arith, e, count)

-- The block that comes is the first of those that were asked for.
pub first_asked :
    (asked now onward later more : List ℕ) (k : ℕ)
    → asked ++ later ≡ k ∷ more
    → later ≡ now ++ onward
    → 1 ≤ length asked + length now
    → (open_still : List ℕ) × (asked ++ now ≡ k ∷ open_still)
first_asked asked now onward later more k e split some =
    let (n, open_still, front) =
      uncons (asked ++ now) (omega (arith, some, length-append asked now)) in
    (open_still, front ∙ ap (λ m. m ∷ open_still) (same n open_still front))
  where
    same : (n : ℕ) (open_still : List ℕ) → asked ++ now ≡ n ∷ open_still → n ≡ k
    same n open_still front =
        let joint : n ∷ (open_still ++ onward) ≡ k ∷ more =
          ap (λ l. l ++ onward) (sym front)
          ∙ append_assoc asked now onward
          ∙ ap (λ l. asked ++ l) (sym split)
          ∙ e in
        cc joint

pub rest_asked :
    (asked now onward later more open_still : List ℕ) (k : ℕ)
    → asked ++ later ≡ k ∷ more
    → later ≡ now ++ onward
    → asked ++ now ≡ k ∷ open_still
    → open_still ++ onward ≡ more
rest_asked asked now onward later more open_still k e split answered =
    let joint : k ∷ (open_still ++ onward) ≡ k ∷ more =
      ap (λ l. l ++ onward) (sym answered)
      ∙ append_assoc asked now onward
      ∙ ap (λ l. asked ++ l) (sym split)
      ∙ e in
    cc joint
