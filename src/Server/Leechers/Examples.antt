-- ===== src/Server/Leechers/Examples.antt =====
-- The theorems on leechers at concrete inputs. A route is the list of its interfaces, and the
-- quality of a route is the route itself.
use mathlib.Core.Bool.{false≢true}
use mathlib.Core.Path.{subst}
use bittorrent_over_scion.Common.{
  ℕ, zero, suc, ◌≡◌, ◌≢◌, ◌⊎◌, refl, sym, ◌∙◌, List, [], ◌∷◌, map, false, All, some, get_elem?, ℤ,
  pos, negsuc, ok, halt, panic, arith, ◌==◌, if◌then◌else◌, ==_iff, Bool-cases, inl, inr,
}
use bittorrent_over_scion.PathSelection.{Interface, Sort, get}
use bittorrent_over_scion.PathSelection.FreePaths.{IsFree}
use bittorrent_over_scion.Server.Leechers.{
  no_leechers, Event, connects, leaves, handle_events, custom_path_select_alg,
}
use bittorrent_over_scion.Server.Leechers.Agreement.{leechers-IsFree}
use bittorrent_over_scion.Server.Leechers.Selection.{Finds, IsMissing, custom_path_select_alg_cases}

abbrev Hops : Type 0
Hops = List Interface

abbrev interfaces_of : Hops → List Interface
interfaces_of v = v

abbrev in_order : Sort interfaces_of
in_order less es = es

abbrev hop : ℕ → Interface
hop n = record { ia = n; id = n }

abbrev over : ℕ → Hops
over n = hop 1 ∷ hop n ∷ hop 9 ∷ []

-- Two leechers connect, with one route in common, and the first one leaves.
abbrev visits : List (Event Hops)
visits =
    connects (1 ∷ []) (pos 0) (over 5 ∷ over 7 ∷ [])
    ∷ connects (2 ∷ []) (pos 0) (over 7 ∷ over 8 ∷ [])
    ∷ leaves (1 ∷ [])
    ∷ []

leechers-IsFree_example :
    All
      (λ v.
        (v.selection.used_paths
          ≡ (get
              (handle_events interfaces_of in_order no_leechers visits).path_store
              v.id).used_paths)
        × IsFree interfaces_of v.selection.used_paths)
      (handle_events interfaces_of in_order no_leechers visits).ext_peers
leechers-IsFree_example = leechers-IsFree interfaces_of in_order (λ less P es h. h) visits

-- A search from the front, where routes are numbers.
abbrev next_place : ℤ → ℤ
next_place (pos i) = pos (suc i)
next_place (negsuc n) = negsuc n

search : List ℕ → ℕ → ℤ
search [] v = negsuc 0
search (q ∷ qs) v = let rest = search qs v in if q == v then pos 0 else next_place rest

abbrev IsPlace : List ℕ → ℕ → ℤ → Type 0
IsPlace qs v (pos i) = (q : ℕ) × (get_elem? qs i ≡ some q) × (q ≡ v)
IsPlace qs v (negsuc n) = (i : ℕ) (q : ℕ) → get_elem? qs i ≡ some q → q ≢ v

search-IsPlace : (qs : List ℕ) (v : ℕ) → IsPlace qs v (search qs v)
unfolding search
search-IsPlace [] v = λ i q none_at same. absurd (ground arith)
search-IsPlace (q ∷ qs) v = elim (Bool-cases (q == v)) [
  | inl here ↦ simp here (q, refl, (==_iff q v).0 here)
  | inr on ↦ simp on (behind on (search qs v) (search-IsPlace qs v))
]
  where
    nowhere :
        (q == v) ≡ false
        → ((i p : ℕ) → get_elem? qs i ≡ some p → p ≢ v)
        → (i p : ℕ) → get_elem? (q ∷ qs) i ≡ some p
        → p ≢ v
    nowhere on h zero p at same =
        let q_is_p : q ≡ p = cc in absurd (false≢true (sym on ∙ (==_iff q v).1 (q_is_p ∙ same)))
    nowhere on h (suc i) p at same = h i p at same

    behind : (q == v) ≡ false → (z : ℤ) → IsPlace qs v z → IsPlace (q ∷ qs) v (next_place z)
    behind on (pos i) h = h
    behind on (negsuc n) h = nowhere on h

search-Finds : Finds search (λ q. q)
search-Finds = record {
  found = λ qs v i e. subst (IsPlace qs v) e (search-IsPlace qs v);
  missing = λ qs v n e. subst (IsPlace qs v) e (search-IsPlace qs v);
}

custom_path_select_alg_cases_example :
    ((chosen : List ℕ) × (custom_path_select_alg search (4 ∷ 6 ∷ []) (6 ∷ 4 ∷ []) ≡ ok chosen)
      × (map (λ q. q) chosen ≡ 6 ∷ 4 ∷ []))
    ⊎ ((custom_path_select_alg search (4 ∷ 6 ∷ []) (6 ∷ 4 ∷ []) ≡ halt panic)
        × IsMissing search (λ q. q) (4 ∷ 6 ∷ []) (6 ∷ 4 ∷ []))
custom_path_select_alg_cases_example =
    custom_path_select_alg_cases search (λ q. q) search-Finds (4 ∷ 6 ∷ []) (6 ∷ 4 ∷ [])
