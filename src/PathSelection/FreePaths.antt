-- ===== src/PathSelection/FreePaths.antt =====
-- pathselection/pathselectionstore.go: getConflictFreePaths.
use mathlib.Core.Path.{subst}
use bittorrent_over_scion.Common.{
  ℕ, zero, suc, ◌≡◌, refl, sym, ap, ◌∙◌, List, [], ◌∷◌, ◌++◌, Bool, true, false, if◌then◌else◌,
  some, length, get_elem?, All, All-append, Bool-cases, ◌⊎◌, inl, inr, arith,
}
use bittorrent_over_scion.PathSelection.{
  Interface, PeerPathEntry, paths_conflict, conflicts_any, keep_free, get_conflict_free_paths,
}
use bittorrent_over_scion.PathSelection.Conflicts.{paths_conflict_comm}

module _ {Route : Type 0} (interfaces : Route → List Interface) where
  -- No two of the paths conflict.
  abbrev pub IsFree : List Route → Type 0
  IsFree [] = Unit {0}
  IsFree (p ∷ ps) = All (λ q. paths_conflict interfaces p q ≡ false) ps × IsFree ps

  -- A path that is there, or conflicts with one that is.
  abbrev pub Covers : List Route → Route → Type 0
  Covers kept p = (conflicts_any interfaces p kept ≡ true) ⊎ ((k : ℕ) × (get_elem? kept k ≡ some p))

  IsFree-snoc :
      (ps : List Route) (p : Route)
      → IsFree ps
      → conflicts_any interfaces p ps ≡ false
      → IsFree (ps ++ (p ∷ []))
  unfolding conflicts_any
  IsFree-snoc [] p h e = (tt, tt)
  IsFree-snoc (q ∷ ps) p (now, h) e = (
    All-append _ ps (p ∷ []) now (paths_conflict_comm interfaces q p ∙ ground arith, tt),
    IsFree-snoc ps p h (ground arith),
  )

  pub keep_free-IsFree :
      (used kept : List Route) → IsFree kept → IsFree (keep_free interfaces kept used)
  unfolding keep_free
  keep_free-IsFree [] kept h = h
  keep_free-IsFree (p ∷ used) kept h = elim (Bool-cases (conflicts_any interfaces p kept)) [
    | inl e ↦ simp e (keep_free-IsFree used kept h)
    | inr e ↦ simp e (keep_free-IsFree used (kept ++ (p ∷ [])) (IsFree-snoc kept p h e))
  ]

  pub keep_free-All :
      (P : Route → Type 0) (used kept : List Route)
      → All P used
      → All P kept
      → All P (keep_free interfaces kept used)
  unfolding keep_free
  keep_free-All P [] kept h k = k
  keep_free-All P (p ∷ used) kept (now, h) k = elim (Bool-cases (conflicts_any interfaces p kept)) [
    | inl e ↦ simp e (keep_free-All P used kept h k)
    | inr e ↦
        simp e (keep_free-All P used (kept ++ (p ∷ [])) h (All-append P kept (p ∷ []) k (now, tt)))
  ]

  get_elem?-append_left :
      (xs ys : List Route) (k : ℕ) (p : Route)
      → get_elem? xs k ≡ some p
      → get_elem? (xs ++ ys) k ≡ some p
  get_elem?-append_left [] ys k p e = cc
  get_elem?-append_left (x ∷ xs) ys zero p e = e
  get_elem?-append_left (x ∷ xs) ys (suc k) p e = get_elem?-append_left xs ys k p e

  get_elem?-snoc : (xs : List Route) (p : Route) → get_elem? (xs ++ (p ∷ [])) (length xs) ≡ some p
  get_elem?-snoc [] p = refl
  get_elem?-snoc (x ∷ xs) p = get_elem?-snoc xs p

  conflicts_any-append_left :
      (p : Route) (xs ys : List Route)
      → conflicts_any interfaces p xs ≡ true
      → conflicts_any interfaces p (xs ++ ys) ≡ true
  unfolding conflicts_any
  conflicts_any-append_left p [] ys e = cc
  conflicts_any-append_left p (x ∷ xs) ys e = elim (Bool-cases (paths_conflict interfaces p x)) [
    | inl now ↦ rw now
    | inr later ↦ rw later (conflicts_any-append_left p xs ys (rw later at e))
  ]

  Covers-snoc : (kept : List Route) (q p : Route) → Covers kept p → Covers (kept ++ (q ∷ [])) p
  Covers-snoc kept q p (inl e) = inl (conflicts_any-append_left p kept (q ∷ []) e)
  Covers-snoc kept q p (inr (k, e)) = inr (k, get_elem?-append_left kept (q ∷ []) k p e)

  still-Covers :
      (used kept : List Route) (p : Route)
      → Covers kept p
      → Covers (keep_free interfaces kept used) p
  unfolding keep_free
  still-Covers [] kept p h = h
  still-Covers (q ∷ used) kept p h = elim (Bool-cases (conflicts_any interfaces q kept)) [
    | inl e ↦ simp e (still-Covers used kept p h)
    | inr e ↦ simp e (still-Covers used (kept ++ (q ∷ [])) p (Covers-snoc kept q p h))
  ]

  keep_free-Covers : (used kept : List Route) → All (Covers (keep_free interfaces kept used)) used
  unfolding keep_free
  keep_free-Covers [] kept = tt
  keep_free-Covers (q ∷ used) kept = elim (Bool-cases (conflicts_any interfaces q kept)) [
    | inl e ↦
        subst (λ r. All (Covers r) (q ∷ used)) (sym (next_kept e))
          (still-Covers used kept q (inl e), keep_free-Covers used kept)
    | inr e ↦
        let q_kept = inr (length kept, get_elem?-snoc kept q) in
        subst (λ r. All (Covers r) (q ∷ used)) (sym (next_kept e))
          (still-Covers used (kept ++ (q ∷ [])) q q_kept, keep_free-Covers used (kept ++ (q ∷ [])))
  ]
    where
      next_kept :
          {b : Bool}
          → conflicts_any interfaces q kept ≡ b
          → keep_free interfaces kept (q ∷ used)
            ≡ keep_free interfaces (if b then kept else kept ++ (q ∷ [])) used
      next_kept e = ap (λ b. keep_free interfaces (if b then kept else kept ++ (q ∷ [])) used) e

  -- No two of the paths that getConflictFreePaths returns conflict, whatever holds of all used
  -- paths holds of them, and every used path is among them or conflicts with one of them.
  pub get_conflict_free_paths-IsFree :
      (peer : PeerPathEntry Route)
      → let free = get_conflict_free_paths interfaces peer in
        IsFree free
        × ((P : Route → Type 0) → All P peer.used_paths → All P free)
        × All (Covers free) peer.used_paths
  unfolding get_conflict_free_paths
  get_conflict_free_paths-IsFree peer = (
    keep_free-IsFree peer.used_paths [] tt,
    λ P h. keep_free-All P peer.used_paths [] h tt,
    keep_free-Covers peer.used_paths [],
  )
