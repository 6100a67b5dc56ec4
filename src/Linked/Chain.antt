-- ===== src/Linked/Chain.antt =====
-- src/linked.rs: the chain of nodes as one sequence of cells, and what each walk and each store does to it.
use ws_deque.Base.{
  ℕ, zero, suc, ◌+◌, ◌-◌, ◌*◌, ◌≤◌, ◌<◌, ◌≡◌, refl, sym, ◌∙◌, ap, true, Bool-cases, inl, inr,
  Option, none, some, List, [], ◌∷◌, ◌++◌, append-nil, append_assoc, leb, get_or, get_elem?, set,
  length, length-append, length-set, arith, length-replicate,
}
use ws_deque.Linked.{Node, LinkedStealer, node_size, new_node, store_cell, load_slot, walk}

module _ {ℓ} {A : Type ℓ} where
  get_or-append_left :
      (xs ys : List A) (i : ℕ) (d : A) → i < length xs → get_or (xs ++ ys) i d ≡ get_or xs i d
  get_or-append_left [] ys i d h = absurd (omega arith)
  get_or-append_left (x ∷ xs) ys zero d h = refl
  get_or-append_left (x ∷ xs) ys (suc i) d h = get_or-append_left xs ys i d (omega arith)

  get_or-append_right :
      (xs ys : List A) (i : ℕ) (d : A) → get_or (xs ++ ys) (length xs + i) d ≡ get_or ys i d
  get_or-append_right [] ys i d = let e : 0 + i ≡ i = omega arith in ap (λ k. get_or ys k d) e
  get_or-append_right (x ∷ xs) ys i d =
      let e : suc (length xs) + i ≡ suc (length xs + i) = omega arith in
      rw e (get_or-append_right xs ys i d)

  set-append_left :
      (xs ys : List A) (i : ℕ) (v : A) → i < length xs → set (xs ++ ys) i v ≡ set xs i v ++ ys
  set-append_left [] ys i v h = absurd (omega arith)
  set-append_left (x ∷ xs) ys zero v h = refl
  set-append_left (x ∷ xs) ys (suc i) v h =
      ap (λ l. x ∷ l) (set-append_left xs ys i v (omega arith))

  set-append_right :
      (xs ys : List A) (i : ℕ) (v : A) → set (xs ++ ys) (length xs + i) v ≡ xs ++ set ys i v
  set-append_right [] ys i v = let e : 0 + i ≡ i = omega arith in ap (λ k. set ys k v) e
  set-append_right (x ∷ xs) ys i v =
      let e : suc (length xs) + i ≡ suc (length xs + i) = omega arith in
      rw e (ap (λ l. x ∷ l) (set-append_right xs ys i v))

module _ {ℓ} {A : Type ℓ} where
  -- All cells, in the order of their indices.
  unfoldable pub flat : List (Node A) → List (Option A)
  flat [] = []
  flat (node ∷ rest) = node.cells ++ flat rest

  -- Full-size nodes, whose bases follow one another from `b` on.
  unfoldable pub IsChain : ℕ → List (Node A) → Type 0
  IsChain b [] = Unit
  IsChain b (node ∷ rest) =
      (node.base ≡ b) × (length node.cells ≡ node_size) × IsChain (b + node_size) rest

  pub length-flat :
      (b : ℕ) (nodes : List (Node A)) → IsChain b nodes → length (flat nodes) ≡ 64 * length nodes
  unfolding flat IsChain
  length-flat b [] c = refl
  length-flat b (node ∷ rest) (e, n, c) =
      omega (arith, length-append node.cells (flat rest), length-flat (b + node_size) rest c)

  -- The owner's walk finds the cell of the index.
  pub load_slot-flat :
      (b : ℕ) (nodes : List (Node A)) (idx : ℕ)
      → IsChain b nodes
      → b ≤ idx
      → load_slot nodes idx ≡ get_or (flat nodes) (idx - b) none
  unfolding load_slot flat IsChain
  load_slot-flat b [] idx c h = refl
  load_slot-flat b (node ∷ rest) idx (e, n, c) h = elim (Bool-cases (leb (node.base + 64) idx)) [
    | inl far ↦
        let le : b + 64 ≤ idx = ground arith in
        let k : idx - b ≡ length node.cells + (idx - (b + 64)) = omega arith in
        rw (far, k)
          (load_slot-flat (b + 64) rest idx c le
            ∙ sym (get_or-append_right node.cells (flat rest) (idx - (b + 64)) none))
    | inr near ↦
        let lt : idx - b < length node.cells = ground arith in
        rw (near, e) (sym (get_or-append_left node.cells (flat rest) (idx - b) none lt))
  ]

  -- A cell of the `k`-th node.
  pub node-flat :
      (b : ℕ) (nodes : List (Node A)) (k : ℕ) (node : Node A) (i : ℕ)
      → IsChain b nodes
      → get_elem? nodes k ≡ some node
      → i < 64
      → (node.base ≡ b + 64 * k)
        × (get_or node.cells i none ≡ get_or (flat nodes) (64 * k + i) none)
  unfolding flat IsChain
  node-flat b [] k node i c q h = absurd (cc)
  node-flat b (m ∷ rest) zero node i (e, n, c) q h =
      let same : m ≡ node = cc in
      let z : 64 * 0 + i ≡ i = omega arith in
      (
        omega (arith, ap (λ (x : Node A). x.base) same),
        rw z (
            ap (λ (x : Node A). get_or x.cells i none) (sym same)
            ∙ sym (get_or-append_left m.cells (flat rest) i none (omega arith))),
      )
  node-flat b (m ∷ rest) (suc k) node i (e, n, c) q h =
      let s = node-flat (b + 64) rest k node i c q h in
      let z : 64 * suc k + i ≡ length m.cells + (64 * k + i) = omega arith in
      (
        omega (arith, s.0),
        rw z (s.1 ∙ sym (get_or-append_right m.cells (flat rest) (64 * k + i) none)),
      )

  -- A store into a cell of the `k`-th node.
  pub flat-store_cell :
      (b : ℕ) (nodes : List (Node A)) (k : ℕ) (node : Node A) (i : ℕ) (v : A)
      → IsChain b nodes
      → get_elem? nodes k ≡ some node
      → i < 64
      → IsChain b (set nodes k (store_cell node i v))
        × (flat (set nodes k (store_cell node i v)) ≡ set (flat nodes) (64 * k + i) (some v))
  unfolding flat IsChain store_cell
  flat-store_cell b [] k node i v c q h = absurd (cc)
  flat-store_cell b (m ∷ rest) zero node i v (e, n, c) q h =
      let same : m ≡ node = cc in
      let z : 64 * 0 + i ≡ i = omega arith in
      let base : node.base ≡ b = ap (λ (x : Node A). x.base) (sym same) ∙ e in
      let size : length node.cells ≡ 64 = ap (λ (x : Node A). length x.cells) (sym same) ∙ n in
      (
        (base, length-set node.cells i (some v) ∙ size, c),
        rw z (
            sym (set-append_left node.cells (flat rest) i (some v) (omega arith))
            ∙ ap (λ (x : Node A). set (x.cells ++ flat rest) i (some v)) (sym same)),
      )
  flat-store_cell b (m ∷ rest) (suc k) node i v (e, n, c) q h =
      let s = flat-store_cell (b + 64) rest k node i v c q h in
      let z : 64 * suc k + i ≡ length m.cells + (64 * k + i) = omega arith in
      (
        (e, n, s.0),
        rw z (
            ap (λ l. m.cells ++ l) s.1
            ∙ sym (set-append_right m.cells (flat rest) (64 * k + i) (some v))),
      )

  -- Linking a fresh node keeps every cell.
  pub flat-new_node :
      (b : ℕ) (nodes : List (Node A)) (t : ℕ)
      → IsChain b nodes
      → t ≡ b + 64 * length nodes
      → IsChain b (nodes ++ new_node t ∷ [])
        × (flat (nodes ++ new_node t ∷ []) ≡ flat nodes ++ (new_node t).cells)
  unfolding flat IsChain
  flat-new_node b [] t c h = (
    (
      unfold new_node in omega arith,
      unfold new_node in length-replicate {A = Option A} 64 none,
      tt,
    ),
    append-nil (new_node t).cells,
  )
  flat-new_node b (m ∷ rest) t (e, n, c) h =
      let s = flat-new_node (b + 64) rest t c (omega arith) in
      (
        (e, n, s.0),
        ap (λ l. m.cells ++ l) s.1 ∙ sym (append_assoc m.cells (flat rest) (new_node t).cells),
      )

  -- The thief's walk stops at the node that holds the index, if there is one.
  pub walk-finds :
      (rest : List (Node A)) (head : ℕ) (s : LinkedStealer)
      → s.cur_base ≤ head
      → head < s.cur_base + 64 * (length rest + 1)
      → let (found, s') = walk rest head s in
        (found ≡ true)
        × (s'.cur_base ≤ head)
        × (head < s'.cur_base + 64)
        × (s'.cur_base + 64 * s.cur_node ≡ s.cur_base + 64 * s'.cur_node)
        × (s'.cur_node ≤ s.cur_node + length rest)
  unfolding walk
  walk-finds [] head s le lt = ground arith
  walk-finds (node ∷ rest) head s le lt = elim (Bool-cases (leb (s.cur_base + 64) head)) [
    | inl far ↦
        let next =
          walk-finds rest head (record { cur_node = s.cur_node + 1; cur_base = s.cur_base + 64 })
            (ground arith) (omega arith) in
        rw far (next.0, next.1, next.2, omega (arith, next.3), omega (arith, next.4))
    | inr near ↦ rw near (refl, le, ground arith, refl, omega arith)
  ]
