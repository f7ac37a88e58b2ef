-- ===== src/PathSelection/Conflicts.antt =====
-- pathselection/pathselectionstore.go: pathsConflict.
use bittorrent_over_scion.Common.{
  ℕ, zero, suc, ◌+◌, ◌≡◌, ◌↔◌, refl, sym, ap, ◌∙◌, List, [], ◌∷◌, true, false, ◌&&◌, not, some,
  length, get_elem?, Bool-cases, inl, inr, arith,
}
use bittorrent_over_scion.PathSelection.{
  Interface, same_interface, passed_over, row_conflicts, rows_conflict, paths_conflict,
}

row_meets :
    (len₁ len₂ i j : ℕ) (x : Interface) (ys : List Interface)
    → row_conflicts len₁ len₂ i x j ys ≡ true
    → (k : ℕ) × (y : Interface) × (get_elem? ys k ≡ some y)
      × (passed_over len₁ len₂ i (j + k) ≡ false)
      × (same_interface x y ≡ true)
unfolding row_conflicts
row_meets len₁ len₂ i j x [] e = cc
row_meets len₁ len₂ i j x (y ∷ ys) e =
    elim (Bool-cases (not (passed_over len₁ len₂ i j) && same_interface x y)) [
      | inl here ↦ (0, y, refl, ground arith, ground arith)
      | inr later ↦
          let (k, z, at_k, compared, same) = row_meets len₁ len₂ i (j + 1) x ys (ground arith) in
          (suc k, z, at_k, ground (arith, compared), same)
    ]

meets_row :
    (len₁ len₂ i j : ℕ) (x : Interface) (ys : List Interface) (k : ℕ) (y : Interface)
    → get_elem? ys k ≡ some y
    → passed_over len₁ len₂ i (j + k) ≡ false
    → same_interface x y ≡ true
    → row_conflicts len₁ len₂ i x j ys ≡ true
unfolding row_conflicts
meets_row len₁ len₂ i j x [] k y at_k compared same = cc
meets_row len₁ len₂ i j x (z ∷ ys) zero y at_k compared same =
    let same_here : same_interface x z ≡ true = ap (same_interface x) (cc) ∙ same in
    let compared_here : passed_over len₁ len₂ i j ≡ false = ground (arith, compared) in ground arith
meets_row len₁ len₂ i j x (z ∷ ys) (suc k) y at_k compared same =
    let ih = meets_row len₁ len₂ i (j + 1) x ys k y at_k (ground (arith, compared)) same in
    ground arith

rows_meet :
    (len₁ len₂ i : ℕ) (xs ys : List Interface)
    → rows_conflict len₁ len₂ i xs ys ≡ true
    → (m k : ℕ) × (x y : Interface) × (get_elem? xs m ≡ some x)
      × (get_elem? ys k ≡ some y)
      × (passed_over len₁ len₂ (i + m) k ≡ false)
      × (same_interface x y ≡ true)
unfolding rows_conflict
rows_meet len₁ len₂ i [] ys e = cc
rows_meet len₁ len₂ i (x ∷ xs) ys e = elim (Bool-cases (row_conflicts len₁ len₂ i x 0 ys)) [
  | inl here ↦
      let (k, y, at_k, compared, same) = row_meets len₁ len₂ i 0 x ys here in
      (0, k, x, y, refl, at_k, ground (arith, compared), same)
  | inr later ↦
      let (m, k, z, y, at_m, at_k, compared, same) =
        rows_meet len₁ len₂ (i + 1) xs ys (ground arith) in
      (suc m, k, z, y, at_m, at_k, ground (arith, compared), same)
]

meets_rows :
    (len₁ len₂ i : ℕ) (xs ys : List Interface) (m k : ℕ) (x y : Interface)
    → get_elem? xs m ≡ some x
    → get_elem? ys k ≡ some y
    → passed_over len₁ len₂ (i + m) k ≡ false
    → same_interface x y ≡ true
    → rows_conflict len₁ len₂ i xs ys ≡ true
unfolding rows_conflict
meets_rows len₁ len₂ i [] ys m k x y at_m at_k compared same = cc
meets_rows len₁ len₂ i (z ∷ xs) ys zero k x y at_m at_k compared same =
    let here = meets_row len₁ len₂ i 0 x ys k y at_k (ground (arith, compared)) same in
    let same_row : z ≡ x = cc in
    let row : row_conflicts len₁ len₂ i z 0 ys ≡ true =
      ap (λ w. row_conflicts len₁ len₂ i w 0 ys) same_row ∙ here in
    ground arith
meets_rows len₁ len₂ i (z ∷ xs) ys (suc m) k x y at_m at_k compared same =
    let ih = meets_rows len₁ len₂ (i + 1) xs ys m k x y at_m at_k (ground (arith, compared)) same in
    ground arith

-- An interface that two lists share, at places that are compared.
pub record Shared (xs ys : List Interface) : Type 0 where
  pub first_place : ℕ
  pub second_place : ℕ
  pub first : Interface
  pub second : Interface
  pub first_at : get_elem? xs first_place ≡ some first
  pub second_at : get_elem? ys second_place ≡ some second
  pub compared : passed_over (length xs) (length ys) first_place second_place ≡ false
  pub same : same_interface first second ≡ true

flip : {xs ys : List Interface} → Shared xs ys → Shared ys xs
flip m = record {
  first_place = m.second_place;
  second_place = m.first_place;
  first = m.second;
  second = m.first;
  first_at = m.second_at;
  second_at = m.first_at;
  compared = ground (arith, m.compared);
  same = ground (arith, m.same);
}

module _ {Route : Type 0} (interfaces : Route → List Interface) where
  -- Two paths conflict exactly when they share an interface at places that are neither both first
  -- nor both last.
  pub paths_conflict_iff :
      (p q : Route) → (paths_conflict interfaces p q ≡ true) ↔ Shared (interfaces p) (interfaces q)
  unfolding paths_conflict
  paths_conflict_iff p q = (
    λ e.
        let (m, k, x, y, at_m, at_k, compared, same) =
          rows_meet _ _ 0 (interfaces p) (interfaces q) e in
        record {
          first_place = m;
          second_place = k;
          first = x;
          second = y;
          first_at = at_m;
          second_at = at_k;
          same = same;
          compared = ground (arith, compared);
        },
    λ w.
        meets_rows _ _ 0 (interfaces p) (interfaces q) w.first_place w.second_place w.first w.second
          w.first_at w.second_at (ground (arith, w.compared)) w.same,
  )

  -- Conflict is symmetric.
  pub paths_conflict_comm :
      (p q : Route) → paths_conflict interfaces p q ≡ paths_conflict interfaces q p
  paths_conflict_comm p q = elim (Bool-cases (paths_conflict interfaces p q)) [
    | inl e ↦ e ∙ sym (turned p q e)
    | inr e ↦ elim (Bool-cases (paths_conflict interfaces q p)) [
      | inl e' ↦ turned q p e' ∙ sym e'
      | inr e' ↦ e ∙ sym e'
    ]
  ]
    where
      turned :
          (a b : Route)
          → paths_conflict interfaces a b ≡ true
          → paths_conflict interfaces b a ≡ true
      turned a b e = (paths_conflict_iff b a).1 (flip ((paths_conflict_iff a b).0 e))
