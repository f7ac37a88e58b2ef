-- ===== src/DhtNode/StartingNodes.antt =====
-- dht_node/dht_node.go: uniqueStartingNodes.
use mathlib.Core.Bool.{false≢true}
use bittorrent_over_scion.Common.{
  ℕ, ◌+◌, ◌≡◌, refl, sym, ap, ◌∙◌, List, [], ◌∷◌, map, Bool, true, false, ◌||◌, if◌then◌else◌,
  bytes_equal, or_false, bytes_equal→eq, bytes_equal_refl, All, Bool-cases, inl, inr, arith,
}
use bittorrent_over_scion.DhtNode.{NodesMap, put_node, put_nodes, unique_starting_nodes}

-- How many items pass a test.
abbrev pub count {ℓ} : {A : Type ℓ} → (A → Bool) → List A → ℕ
count p [] = 0
count p (x ∷ xs) = let rest = count p xs in if p x then rest + 1 else rest

abbrev pub bit : Bool → ℕ
bit b = if b then 1 else 0

module _ {Addr : Type 0} (text : Addr → List ℕ) where
  -- Whether a node has the text.
  abbrev pub is_listed : List Addr → List ℕ → Bool
  is_listed [] x = false
  is_listed (n ∷ nodes) x = bytes_equal (text n) x || is_listed nodes x

  abbrev has_key : NodesMap text → List ℕ → Bool
  has_key [] x = false
  has_key (e ∷ es) x = bytes_equal e.0 x || has_key es x

  abbrev with_key : List ℕ → NodesMap text → ℕ
  with_key x = count (λ e. bytes_equal e.0 x)

  same_key : (x y z : List ℕ) → bytes_equal x y ≡ true → bytes_equal x z ≡ bytes_equal y z
  same_key x y z e = ap (λ w. bytes_equal w z) (bytes_equal→eq x y e)

  has_key-put_node :
      (es : NodesMap text) (n : Addr) (x : List ℕ)
      → has_key (put_node text es n) x ≡ (bytes_equal (text n) x || has_key es x)
  unfolding put_node
  has_key-put_node [] n x = refl
  has_key-put_node (e ∷ es) n x = elim (Bool-cases (bytes_equal e.0 (text n))) [
    | inl here ↦ rw here (
        twice (bytes_equal e.0 x) (bytes_equal (text n) x) (has_key es x)
          (same_key e.0 (text n) x here))
    | inr on ↦ rw on (
        rw (has_key-put_node es n x)
          (turned (bytes_equal e.0 x) (bytes_equal (text n) x) (has_key es x)))
  ]
    where
      twice : (a b c : Bool) → a ≡ b → (a || c) ≡ (b || (a || c))
      twice true true c e = refl
      twice false false c e = refl
      twice true false c e = absurd (false≢true (sym e))
      twice false true c e = absurd (false≢true e)

      turned : (a b c : Bool) → (a || (b || c)) ≡ (b || (a || c))
      turned true true c = refl
      turned true false c = refl
      turned false true c = refl
      turned false false c = refl

  with_key-put_node :
      (es : NodesMap text) (n : Addr) (x : List ℕ)
      → with_key x (put_node text es n)
        ≡ with_key x es + (if has_key es (text n) then 0 else bit (bytes_equal (text n) x))
  unfolding put_node
  with_key-put_node [] n x = ground arith
  with_key-put_node (e ∷ es) n x = elim (Bool-cases (bytes_equal e.0 (text n))) [
    | inl here ↦ rw here (omega arith)
    | inr on ↦ rw on (
        rw (with_key-put_node es n x) (elim (Bool-cases (bytes_equal e.0 x)) [
          | inl same ↦ rw same (omega arith)
          | inr other ↦ rw other refl
        ]))
  ]

  -- Each key has one entry.
  abbrev IsMap : NodesMap text → Type 0
  IsMap es = (x : List ℕ) → with_key x es ≡ bit (has_key es x)

  put_node-IsMap : (es : NodesMap text) (n : Addr) → IsMap es → IsMap (put_node text es n)
  put_node-IsMap es n h x =
      with_key-put_node es n x
      ∙ ap (◌+ (if has_key es (text n) then 0 else bit (bytes_equal (text n) x))) (h x)
      ∙ elim (Bool-cases (bytes_equal (text n) x)) [
        | inl same ↦
            rw (has_key-put_node es n x, bytes_equal→eq (text n) x same, bytes_equal_refl x)
              (elim (Bool-cases (has_key es x)) [
                | inl e ↦ rw e (omega arith)
                | inr e ↦ rw e (omega arith)
              ])
        | inr other ↦
            rw (has_key-put_node es n x, other)
              (elim (Bool-cases (has_key es (text n))) [
                | inl e ↦ rw e (omega arith)
                | inr e ↦ rw e (omega arith)
              ])
      ]

  put_nodes-IsMap :
      (es : NodesMap text) (nodes : List Addr)
      → IsMap es
      → IsMap (put_nodes text es nodes)
        × ((x : List ℕ) → has_key (put_nodes text es nodes) x ≡ (has_key es x || is_listed nodes x))
  unfolding put_nodes
  put_nodes-IsMap es [] h = (h, λ x. or_false (has_key es x))
  put_nodes-IsMap es (n ∷ nodes) h =
      let (map_now, keys) = put_nodes-IsMap (put_node text es n) nodes (put_node-IsMap es n h) in
      (
        map_now,
        λ x.
            keys x
            ∙ ap (◌|| is_listed nodes x) (has_key-put_node es n x)
            ∙ turned (bytes_equal (text n) x) (has_key es x) (is_listed nodes x),
      )
    where
      turned : (a b c : Bool) → ((a || b) || c) ≡ (b || (a || c))
      turned true true c = refl
      turned true false c = refl
      turned false true c = refl
      turned false false c = refl

  -- An entry stands under the text of its node.
  abbrev IsUnder : List ℕ × Addr → Type 0
  IsUnder e = e.0 ≡ text e.1

  put_node-IsUnder :
      (es : NodesMap text) (n : Addr) → All IsUnder es → All IsUnder (put_node text es n)
  unfolding put_node
  put_node-IsUnder [] n h = (refl, tt)
  put_node-IsUnder (e ∷ es) n (now, h) = elim (Bool-cases (bytes_equal e.0 (text n))) [
    | inl here ↦ rw here (bytes_equal→eq e.0 (text n) here, h)
    | inr on ↦ rw on (now, put_node-IsUnder es n h)
  ]

  put_nodes-IsUnder :
      (es : NodesMap text) (nodes : List Addr)
      → All IsUnder es
      → All IsUnder (put_nodes text es nodes)
  unfolding put_nodes
  put_nodes-IsUnder es [] h = h
  put_nodes-IsUnder es (n ∷ nodes) h =
      put_nodes-IsUnder (put_node text es n) nodes (put_node-IsUnder es n h)

  with_text :
      (es : NodesMap text) (x : List ℕ)
      → All IsUnder es
      → count (λ e. bytes_equal (text e.1) x) es ≡ with_key x es
  with_text [] x h = refl
  with_text (e ∷ es) x (now, h) = rw (← now, with_text es x h)

  count-map :
      (es : NodesMap text) (p : Addr → Bool) → count p (map (λ e. e.1) es) ≡ count (λ e. p e.1) es
  count-map [] p = refl
  count-map (e ∷ es) p = rw (count-map es p)

  -- In whatever order Go goes through a map: among the nodes that uniqueStartingNodes returns, each
  -- text of a given node stands once, and no other text does.
  pub unique_starting_nodes_once :
      (range : NodesMap text → NodesMap text)
      → ((p : List ℕ × Addr → Bool) (es : NodesMap text) → count p (range es) ≡ count p es)
      → (nodes : List Addr) (x : List ℕ)
      → count (λ n. bytes_equal (text n) x) (unique_starting_nodes text range nodes)
        ≡ (if is_listed nodes x then 1 else 0)
  unfolding unique_starting_nodes
  unique_starting_nodes_once range permutes nodes x =
      let es = put_nodes text [] nodes in
      let (map_now, keys) = put_nodes-IsMap [] nodes (λ y. refl) in
      count-map (range es) _
      ∙ permutes _ es
      ∙ with_text es x (put_nodes-IsUnder [] nodes tt)
      ∙ map_now x
      ∙ ap bit (keys x)
