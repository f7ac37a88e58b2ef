-- ===== src/Common/Ids.antt =====
-- Things that are told apart by an id, a text: which ids a list has, and that it has none twice.
use Prim.Native.Nat.{ℕ}
use mathlib.Core.Path.{◌≡◌, refl, sym, ap, ◌∙◌}
use mathlib.Core.Logic.{inl, inr}
use mathlib.Core.Bool.{Bool, true, false, ◌||◌, false≢true}
use mathlib.Core.List.{List, [], ◌∷◌, ◌++◌}
use bittorrent_over_scion.Common.Tests.{if◌then◌else◌, Bool-cases}
use bittorrent_over_scion.Common.Bytes.{bytes_equal, bytes_equal→eq, bytes_equal_refl}

-- The items that pass a test.
abbrev pub keep_if {ℓ} : {A : Type ℓ} → (A → Bool) → List A → List A
keep_if p [] = []
keep_if p (a ∷ xs) = let rest = keep_if p xs in if p a then a ∷ rest else rest

module _ {A : Type 0} (id : A → List ℕ) where
  unfoldable pub has_id : List A → List ℕ → Bool
  has_id [] x = false
  has_id (a ∷ xs) x = if bytes_equal (id a) x then true else has_id xs x

  abbrev pub IsDistinct : List A → Type 0
  IsDistinct [] = Unit {0}
  IsDistinct (a ∷ xs) = (has_id xs (id a) ≡ false) × IsDistinct xs

  pub has_id-append :
      (xs ys : List A) (x : List ℕ) → has_id (xs ++ ys) x ≡ (has_id xs x || has_id ys x)
  unfolding has_id
  has_id-append [] ys x = refl
  has_id-append (a ∷ xs) ys x = elim (Bool-cases (bytes_equal (id a) x)) [
    | inl e ↦ rw e refl
    | inr e ↦ rw e (has_id-append xs ys x)
  ]

  pub IsDistinct-snoc :
      (xs : List A) (a : A) → has_id xs (id a) ≡ false → IsDistinct xs → IsDistinct (xs ++ (a ∷ []))
  unfolding has_id
  IsDistinct-snoc [] a new h = (refl, tt)
  IsDistinct-snoc (x ∷ xs) a new (now, h) = elim (Bool-cases (bytes_equal (id x) (id a))) [
    | inl e ↦ absurd (false≢true (sym new ∙ rw e refl))
    | inr e ↦ (
      has_id-append xs (a ∷ []) (id x) ∙ rw (now, other x e) refl,
      IsDistinct-snoc xs a (sym (rw e refl) ∙ new) h,
    )
  ]
    where
      other : (x : A) → bytes_equal (id x) (id a) ≡ false → bytes_equal (id a) (id x) ≡ false
      other x e = elim (Bool-cases (bytes_equal (id a) (id x))) [
        | inl same ↦ absurd (
            false≢true (
              sym e
              ∙ ap (λ l. bytes_equal l (id a)) (sym (bytes_equal→eq (id a) (id x) same))
              ∙ bytes_equal_refl (id a)))
        | inr e' ↦ e'
      ]

  keep_if-has_id :
      (p : A → Bool) (xs : List A) (x : List ℕ)
      → has_id xs x ≡ false
      → has_id (keep_if p xs) x ≡ false
  unfolding has_id
  keep_if-has_id p [] x h = refl
  keep_if-has_id p (a ∷ xs) x h = elim (Bool-cases (bytes_equal (id a) x)) [
    | inl e ↦ absurd (false≢true (sym h ∙ rw e refl))
    | inr e ↦ elim (Bool-cases (p a)) [
      | inl kept ↦ rw (kept, e) (keep_if-has_id p xs x (sym (rw e refl) ∙ h))
      | inr gone ↦ rw gone (keep_if-has_id p xs x (sym (rw e refl) ∙ h))
    ]
  ]

  pub keep_if-IsDistinct : (p : A → Bool) (xs : List A) → IsDistinct xs → IsDistinct (keep_if p xs)
  keep_if-IsDistinct p [] h = tt
  keep_if-IsDistinct p (a ∷ xs) (now, h) = elim (Bool-cases (p a)) [
    | inl kept ↦ rw kept (keep_if-has_id p xs (id a) now, keep_if-IsDistinct p xs h)
    | inr gone ↦ rw gone (keep_if-IsDistinct p xs h)
  ]
