-- ===== src/Common/Ensures.antt =====
-- What a call that succeeds has brought about, for a block of calls on any state.
use bittorrent_over_scion.Common.Results.{Result, ok, err, halt, M, resume, ◌>>=◌}
use mathlib.Core.Path.{◌≡◌, refl, ap}

pub record Ensures {S A : Type 0} (P : S → Type 0) (m : M S A) (Q : A → S → Type 0) : Type 0 where
  pub after : (s : S) → P s → (a : A) → (m s).0 ≡ ok a → Q a (m s).1

resume-Ensures :
    {S A B : Type 0} {R : A → S → Type 0} {Q : B → S → Type 0} (r : Result A) (s : S)
    (f : A → M S B)
    → ((a : A) → r ≡ ok a → R a s)
    → ((a : A) → Ensures (R a) (f a) Q)
    → (b : B) → (resume r s f).0 ≡ ok b
    → Q b (resume r s f).1
resume-Ensures (ok a) s f h k b e = (k a).after s (h a refl) b e
resume-Ensures (err x) s f h k b e = cc
resume-Ensures (halt x) s f h k b e = cc

pub Ensures-bind :
    {S A B : Type 0} {P : S → Type 0} {R : A → S → Type 0} {Q : B → S → Type 0} {m : M S A}
    (f : A → M S B)
    → Ensures P m R
    → ((a : A) → Ensures (R a) (f a) Q)
    → Ensures P (m >>= f) Q
Ensures-bind {m} f h k = record { after = λ s p. resume-Ensures (m s).0 (m s).1 f (h.after s p) k }

-- A fact that no state is part of.
pub Ensures-given :
    {S A : Type 0} {F : Type 0} {m : M S A} {Q : A → S → Type 0}
    → (F → Ensures (λ s. Unit {0}) m Q)
    → Ensures (λ s. F) m Q
Ensures-given h = record { after = λ s fact. (h fact).after s tt }

pub anything : {S A : Type 0} (m : M S A) → Ensures (λ s. Unit {0}) m (λ a s. Unit {0})
anything m = record { after = λ s p a e. tt }

-- A call that ends with a result, and what follows it.
pub resume_done :
    {S A B : Type 0} (r : Result A) (s : S) (f : A → M S B) (b : B) (t : S)
    → resume r s f ≡ (ok b, t)
    → (a : A) × (r ≡ ok a) × (f a s ≡ (ok b, t))
resume_done (ok a) s f b t e = (a, refl, e)
resume_done (err x) s f b t e = let wrong : err x ≡ ok b = ap (λ w. w.0) e in cc
resume_done (halt x) s f b t e = let wrong : halt x ≡ ok b = ap (λ w. w.0) e in cc
