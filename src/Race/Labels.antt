-- ===== src/Race/Labels.antt =====
-- The labels of the strands: the English rank of a strand is its position, and the Hebrew rank
-- disagrees with it on exactly the pairs whose lowest common ancestor is a parallel node.
use ws_deque.Base.{ℕ, ◌+◌, ◌-◌, ◌<◌, ◌≡◌, Bool, true, false, not, arith, if◌then◌else◌, ltb}
use native.Mathlib.Decide.{dec_lt}
use ws_deque.Race.{Node, strand, series, parallel, Nodes, nil, cons, count_strands, count_all}

-- Whether the lowest common ancestor of strands `i < j`, counted from the left, is a parallel node.
-- `among`: of a list of children, where `here` says so of two strands in different children.
unfoldable mutual
  pub lca_parallel : Node → ℕ → ℕ → Bool
  lca_parallel (strand _) i j = false
  lca_parallel (series children) i j = among children false i j
  lca_parallel (parallel children) i j = among children true i j

  pub among : Nodes → Bool → ℕ → ℕ → Bool
  among nil here i j = false
  among (cons c cs) here i j =
      let n = count_strands c in
      if ltb i n
      then (if ltb j n then lca_parallel c i j else here)
      else among cs here (i - n) (j - n)

-- The Hebrew rank of strand `i` within a subtree.
unfoldable mutual
  pub rank : Node → ℕ → ℕ
  rank (strand _) i = 0
  rank (series children) i = rank_series children i
  rank (parallel children) i = rank_parallel children i

  pub rank_series : Nodes → ℕ → ℕ
  rank_series nil i = 0
  rank_series (cons c cs) i =
      let n = count_strands c in if ltb i n then rank c i else n + rank_series cs (i - n)

  pub rank_parallel : Nodes → ℕ → ℕ
  rank_parallel nil i = 0
  rank_parallel (cons c cs) i =
      let n = count_strands c in
      if ltb i n then count_all cs + rank c i else rank_parallel cs (i - n)

-- A rank is below the number of strands.
mutual
  unfolding rank count_strands

  pub rank-lt : (t : Node) (i : ℕ) → i < count_strands t → rank t i < count_strands t
  rank-lt (strand _) i h = omega arith
  rank-lt (series cs) i h = rank_series-lt cs i h
  rank-lt (parallel cs) i h = rank_parallel-lt cs i h

  rank_series-lt : (cs : Nodes) (i : ℕ) → i < count_all cs → rank_series cs i < count_all cs
  rank_series-lt nil i h = absurd (omega arith)
  rank_series-lt (cons c cs) i h = elim (dec_lt i (count_strands c)) [
    | yes p ↦ ground (arith, rank-lt c i p)
    | no p ↦ ground (arith, rank_series-lt cs (i - count_strands c))
  ]

  rank_parallel-lt : (cs : Nodes) (i : ℕ) → i < count_all cs → rank_parallel cs i < count_all cs
  rank_parallel-lt nil i h = absurd (omega arith)
  rank_parallel-lt (cons c cs) i h = elim (dec_lt i (count_strands c)) [
    | yes p ↦ ground (arith, rank-lt c i p)
    | no p ↦ ground (arith, rank_parallel-lt cs (i - count_strands c))
  ]

-- The Hebrew order of two strands is the English one, unless their lowest common ancestor is parallel.
mutual
  unfolding rank count_strands lca_parallel

  pub rank-order :
      (t : Node) (i j : ℕ)
      → i < j
      → j < count_strands t
      → ltb (rank t i) (rank t j) ≡ not (lca_parallel t i j)
  rank-order (strand _) i j h k = absurd (omega arith)
  rank-order (series cs) i j h k = series-order cs i j h k
  rank-order (parallel cs) i j h k = parallel-order cs i j h k

  pub series-order :
      (cs : Nodes) (i j : ℕ)
      → i < j
      → j < count_all cs
      → ltb (rank_series cs i) (rank_series cs j) ≡ not (among cs false i j)
  series-order nil i j h k = absurd (omega arith)
  series-order (cons c cs) i j h k = elim (dec_lt i (count_strands c)) [
    | yes p ↦ elim (dec_lt j (count_strands c)) [
      | yes q ↦ ground (arith, rank-order c i j h q)
      | no q ↦ ground (arith, rank-lt c i p)
    ]
    | no p ↦ ground (arith, series-order cs (i - count_strands c) (j - count_strands c))
  ]

  parallel-order :
      (cs : Nodes) (i j : ℕ)
      → i < j
      → j < count_all cs
      → ltb (rank_parallel cs i) (rank_parallel cs j) ≡ not (among cs true i j)
  parallel-order nil i j h k = absurd (omega arith)
  parallel-order (cons c cs) i j h k = elim (dec_lt i (count_strands c)) [
    | yes p ↦ elim (dec_lt j (count_strands c)) [
      | yes q ↦ ground (arith, rank-order c i j h q)
      | no q ↦ ground (arith, rank_parallel-lt cs (j - count_strands c))
    ]
    | no p ↦ ground (arith, parallel-order cs (i - count_strands c) (j - count_strands c))
  ]
