-- ===== src/Server/Leechers/Selection.antt =====
-- server/server.go and Utils/numbers.go: the port of a connection back, and the choice of its paths.
use mathlib.Core.Path.{ap₂}
use bittorrent_over_scion.Common.{
  ℕ, suc, ◌+◌, ◌<◌, ◌≤◌, ◌≡◌, ◌≢◌, ◌⊎◌, inl, inr, refl, ap, ◌∙◌, List, [], ◌∷◌, map, false, ◌||◌,
  some, get_elem?, ℤ, pos, negsuc, ltb_ℤ, add_int, sub_int, wrap, ok, halt, panic, arith,
  Bool-cases, add_int-pos,
}
use bittorrent_over_scion.Utils.{ensure_between_random}
use bittorrent_over_scion.Server.Leechers.{
  next_start_port, custom_path_select_alg, quality_at, or_panic,
}

-- What rand.Intn documents: a number from 0 up to below its argument.
abbrev pub IsRandom : (ℤ → ℤ) → Type 0
IsRandom intn = (n : ℕ) → 0 < n → (r : ℕ) × (intn (pos n) ≡ pos r) × (r < n)

-- A port that takes no privileges.
abbrev pub IsPort : ℤ → Type 0
IsPort p = (n : ℕ) × (p ≡ pos n) × (1025 ≤ n) × (n ≤ 65000)

-- Whatever the port before, and whatever number below its bound rand.Intn draws: the next port of a
-- connection back is from 1025 to 65000.
pub next_start_port-IsPort :
    (intn : ℤ → ℤ)
    → IsRandom intn
    → (start_port : ℤ) → (p : ℤ) × (next_start_port intn start_port ≡ ok p) × IsPort p
unfolding next_start_port ensure_between_random sub_int wrap
next_start_port-IsPort intn random start_port = inside (add_int start_port (pos 101))
  where
    span : sub_int (pos 65000) (pos 1025) ≡ pos 63975
    span = refl

    kept : (z : ℤ) → (ltb_ℤ (pos 65000) z || ltb_ℤ z (pos 1025)) ≡ false → IsPort z
    kept (pos k) e = (k, refl, ground arith, ground arith)
    kept (negsuc k) e = absurd (ground arith)

    inside :
        (z : ℤ) → (p : ℤ) × (ensure_between_random intn z (pos 1025) (pos 65000) ≡ ok p) × IsPort p
    inside z = elim (Bool-cases (ltb_ℤ (pos 65000) z || ltb_ℤ z (pos 1025))) [
      | inr good ↦ (z, simp good, kept z good)
      | inl bad ↦
          let (r, e, lt) = random 63975 (omega arith) in
          let drawn =
            ap (λ x. add_int x (pos 1025)) (ap intn span ∙ e) ∙ add_int-pos r 1025 (omega arith) in
          (pos (r + 1025), simp bad (ap ok drawn), (r + 1025, refl, omega arith, omega arith))
    ]

module _ {Route Quality : Type 0} (find : List Quality → Route → ℤ)
    (route_of : Quality → Route) where
  -- What FindIndexByPathString documents: the index of a quality of the path, or -1 if there is none.
  pub record Finds : Type 0 where
    pub found :
        (qs : List Quality) (v : Route) (i : ℕ)
        → find qs v ≡ pos i
        → (q : Quality) × (get_elem? qs i ≡ some q) × (route_of q ≡ v)
    pub missing :
        (qs : List Quality) (v : Route) (n : ℕ)
        → find qs v ≡ negsuc n
        → (i : ℕ) (q : Quality) → get_elem? qs i ≡ some q
        → route_of q ≢ v

  -- A path that none of the qualities is of.
  pub record IsMissing (qs : List Quality) (used : List Route) : Type 0 where
    pub place : ℕ
    pub path : Route
    pub used_at : get_elem? used place ≡ some path
    pub nowhere : (i : ℕ) (q : Quality) → get_elem? qs i ≡ some q → route_of q ≢ path

  there :
      (qs : List Quality) (i : ℕ) (q : Quality)
      → get_elem? qs i ≡ some q
      → quality_at find qs (pos i) ≡ ok q
  unfolding quality_at or_panic
  there qs i q e = ap (or_panic find) e

  -- For any search that finds the place of a path's quality, or says that it has none: with no
  -- limit of paths, CustomPathSelectAlg returns the qualities of exactly the used paths, in their
  -- order, or it panics, and then one of the used paths has no quality.
  pub custom_path_select_alg_cases :
      Finds
      → (qs : List Quality) (used : List Route)
      → ((chosen : List Quality) × (custom_path_select_alg find qs used ≡ ok chosen)
          × (map route_of chosen ≡ used))
        ⊎ ((custom_path_select_alg find qs used ≡ halt panic) × IsMissing qs used)
  unfolding custom_path_select_alg
  custom_path_select_alg_cases f qs [] = inl ([], refl, refl)
  custom_path_select_alg_cases f qs (v ∷ used) =
      step (find qs v) refl (custom_path_select_alg_cases f qs used)
    where
      step :
          (z : ℤ)
          → find qs v ≡ z
          → ((chosen : List Quality) × (custom_path_select_alg find qs used ≡ ok chosen)
              × (map route_of chosen ≡ used))
            ⊎ ((custom_path_select_alg find qs used ≡ halt panic) × IsMissing qs used)
          → ((chosen : List Quality) × (custom_path_select_alg find qs (v ∷ used) ≡ ok chosen)
              × (map route_of chosen ≡ v ∷ used))
            ⊎ ((custom_path_select_alg find qs (v ∷ used) ≡ halt panic) × IsMissing qs (v ∷ used))
      step (negsuc n) e rest = inr (
        simp e,
        record {
          place = 0;
          path = v;
          used_at = refl;
          nowhere = λ i q at same. f.missing qs v n e i q at same;
        },
      )
      step (pos i) e (inl (chosen, ends, same)) =
          let (q, at_i, of_v) = f.found qs v i e in
          inl (q ∷ chosen, simp (e, there qs i q at_i, ends), ap₂ ◌∷◌ of_v same)
      step (pos i) e (inr (dies, m)) =
          let (q, at_i, of_v) = f.found qs v i e in
          inr (
            simp (e, there qs i q at_i, dies),
            record { place = suc m.place; path = m.path; used_at = m.used_at; nowhere = m.nowhere },
          )
