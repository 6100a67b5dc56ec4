-- ===== src/Race/Walk.antt =====
-- The two passes of `detect_races` compute the labels: what `assign_english` and `hebrew_walk` leave in
-- each record.
use ws_deque.Base.{
  ℕ, zero, suc, ◌+◌, ◌-◌, ◌<◌, ◌≡◌, refl, sym, ◌∙◌, ap, false, ◌&&◌, Option-cases, Option, none,
  some, List, [], ◌∷◌, ◌++◌, append-nil, append_assoc, get_elem?-append, get_elem?_of_ge, arith,
  length, length-append, get_elem?, if◌then◌else◌, ltb, leb, ◌==◌,
}
use mathlib.Core.Path.{ap₂}
use mathlib.Core.Logic.{inl, inr}
use native.Mathlib.Decide.{dec_lt}
use ws_deque.Race.{
  Node, strand, series, parallel, Nodes, nil, cons, StrandInfo, unranked, assign_english,
  assign_all, count_strands, count_all, set_hebrew, hebrew_walk, walk_series, walk_parallel,
  hebrew_root, labels, in_parallel,
}
use ws_deque.Race.Labels.{rank, rank_series, rank_parallel, series-order, among}

-- A record with its Hebrew rank given.
abbrev pub relabel : Option StrandInfo → ℕ → Option StrandInfo
relabel none h = none
relabel (some s) h = some (record s { hebrew = h })

set_hebrew-at :
    (out : List StrandInfo) (i h k : ℕ)
    → get_elem? (set_hebrew out i h) k
      ≡ (if i == k then relabel (get_elem? out k) h else get_elem? out k)
unfolding set_hebrew
set_hebrew-at [] i h k = ground arith
set_hebrew-at (s ∷ out) zero h zero = refl
set_hebrew-at (s ∷ out) zero h (suc k) = ground arith
set_hebrew-at (s ∷ out) (suc i) h zero = ground arith
set_hebrew-at (s ∷ out) (suc i) h (suc k) = ground (arith, set_hebrew-at out i h k)

mutual
  unfolding hebrew_walk count_strands

  walk-counters :
      (t : Node) (h : ℕ) (out : List StrandInfo) (base : ℕ)
      → ((hebrew_walk t h out base).0 ≡ h + count_strands t)
        × ((hebrew_walk t h out base).2 ≡ base + count_strands t)
  walk-counters (strand _) h out base = (refl, refl)
  walk-counters (series cs) h out base = series-counters cs h out base
  walk-counters (parallel cs) h out base = (parallel-counter cs h out base, refl)

  series-counters :
      (cs : Nodes) (h : ℕ) (out : List StrandInfo) (base : ℕ)
      → ((walk_series cs h out base).0 ≡ h + count_all cs)
        × ((walk_series cs h out base).2 ≡ base + count_all cs)
  series-counters nil h out base = omega arith
  series-counters (cons c cs) h out base =
      let (h', out', base') = hebrew_walk c h out base in
      omega (arith, walk-counters c h out base, series-counters cs h' out' base')

  parallel-counter :
      (cs : Nodes) (h : ℕ) (out : List StrandInfo) (base : ℕ)
      → (walk_parallel cs h out base).0 ≡ h + count_all cs
  parallel-counter nil h out base = omega arith
  parallel-counter (cons c cs) h out base =
      let (h', out') = walk_parallel cs h out (base + count_strands c) in
      omega
        (arith, parallel-counter cs h out (base + count_strands c), walk-counters c h' out' base)

-- The records of the `n` strands from `base` on have the ranks `h + r 0`, `h + r 1`, …; the others are
-- as they were.
abbrev Labelled : ℕ → ℕ → ℕ → (ℕ → ℕ) → List StrandInfo → List StrandInfo → ℕ → Type 0
Labelled n base h r out out' k = get_elem? out' k ≡ (
    if leb base k && ltb k (base + n)
    then relabel (get_elem? out k) (h + r (k - base))
    else get_elem? out k)

-- A subtree of `n` strands and then one of `m`: the labels of both, in either order of the visits.
module _ (n m base h : ℕ) (r s : ℕ → ℕ) (out out' out'' : List StrandInfo) (k : ℕ) where
  Labelled-series :
      Labelled n base h r out out' k
      → Labelled m (base + n) (h + n) s out' out'' k
      → Labelled (n + m) base h (λ i. if ltb i n then r i else n + s (i - n)) out out'' k
  Labelled-series a b = elim (dec_lt k base) [
    | yes p ↦ ground arith
    | no p ↦ elim (dec_lt k (base + n)) [
      | yes q ↦ ground arith
      | no q ↦
          let e : k - (base + n) ≡ k - base - n = omega arith in
          let f : s (k - (base + n)) ≡ s (k - base - n) = ap s e in ground arith
    ]
  ]

  Labelled-parallel :
      Labelled m (base + n) h s out out' k
      → Labelled n base (h + m) r out' out'' k
      → Labelled (n + m) base h (λ i. if ltb i n then m + r i else s (i - n)) out out'' k
  Labelled-parallel a b = elim (dec_lt k base) [
    | yes p ↦ ground arith
    | no p ↦ elim (dec_lt k (base + n)) [
      | yes q ↦ ground arith
      | no q ↦
          let e : k - (base + n) ≡ k - base - n = omega arith in
          let f : s (k - (base + n)) ≡ s (k - base - n) = ap s e in ground arith
    ]
  ]

mutual
  unfolding hebrew_walk count_strands rank

  walk-Labelled :
      (t : Node) (h : ℕ) (out : List StrandInfo) (base k : ℕ)
      → Labelled (count_strands t) base h (rank t) out (hebrew_walk t h out base).1 k
  walk-Labelled (strand _) h out base k = ground (arith, set_hebrew-at out base h k)
  walk-Labelled (series cs) h out base k = series-Labelled cs h out base k
  walk-Labelled (parallel cs) h out base k = parallel-Labelled cs h out base k

  series-Labelled :
      (cs : Nodes) (h : ℕ) (out : List StrandInfo) (base k : ℕ)
      → Labelled (count_all cs) base h (rank_series cs) out (walk_series cs h out base).1 k
  series-Labelled nil h out base k = ground arith
  series-Labelled (cons c cs) h out base k =
      let n = count_strands c in
      let e = walk-counters c h out base in
      let out' = (hebrew_walk c h out base).1 in
      rw (e.0, e.1)
        (Labelled-series n (count_all cs) base h (rank c) (rank_series cs) out out'
          (walk_series cs (h + n) out' (base + n)).1 k (walk-Labelled c h out base k)
          (series-Labelled cs (h + n) out' (base + n) k))

  parallel-Labelled :
      (cs : Nodes) (h : ℕ) (out : List StrandInfo) (base k : ℕ)
      → Labelled (count_all cs) base h (rank_parallel cs) out (walk_parallel cs h out base).1 k
  parallel-Labelled nil h out base k = ground arith
  parallel-Labelled (cons c cs) h out base k =
      let n = count_strands c in
      let e = parallel-counter cs h out (base + n) in
      let out' = (walk_parallel cs h out (base + n)).1 in
      rw e (
        Labelled-parallel n (count_all cs) base h (rank c) (rank_parallel cs) out out'
          (hebrew_walk c (h + count_all cs) out' base).1 k (parallel-Labelled cs h out (base + n) k)
          (walk-Labelled c (h + count_all cs) out' base k))

-- The pass over the children of the root is the visit of a series node.
root-Labelled :
    (dag : Nodes) (h : ℕ) (out : List StrandInfo) (base k : ℕ)
    → Labelled (count_all dag) base h (rank_series dag) out (hebrew_root dag h out base).1 k
unfolding hebrew_root rank count_strands
root-Labelled nil h out base k = ground arith
root-Labelled (cons c cs) h out base k =
    let n = count_strands c in
    let e = walk-counters c h out base in
    let out' = (hebrew_walk c h out base).1 in
    rw (e.0, hebrew_root)
      (Labelled-series n (count_all cs) base h (rank c) (rank_series cs) out out'
        (hebrew_root cs (h + n) out' (base + n)).1 k (walk-Labelled c h out base k)
        (root-Labelled cs (h + n) out' (base + n) k))

-- The records that the English pass adds: the strands from left to right, with their positions.
unfoldable mutual
  pub english : Node → ℕ → List StrandInfo
  english (strand accesses) i = record { english = i; hebrew = unranked; accesses = accesses } ∷ []
  english (series children) i = english_all children i
  english (parallel children) i = english_all children i

  pub english_all : Nodes → ℕ → List StrandInfo
  english_all nil i = []
  english_all (cons c cs) i = english c i ++ english_all cs (i + count_strands c)

mutual
  unfolding assign_english english count_strands

  assign-english :
      (t : Node) (i : ℕ) (out : List StrandInfo)
      → assign_english t i out ≡ (i + count_strands t, out ++ english t i)
  assign-english (strand a) i out = refl
  assign-english (series cs) i out = assign_all-english cs i out
  assign-english (parallel cs) i out = assign_all-english cs i out

  assign_all-english :
      (cs : Nodes) (i : ℕ) (out : List StrandInfo)
      → assign_all cs i out ≡ (i + count_all cs, out ++ english_all cs i)
  assign_all-english nil i out = ap₂ (λ a b. (a, b)) (omega arith) (sym (append-nil out))
  assign_all-english (cons c cs) i out =
      rw (assign-english c i out, assign_all-english cs (i + count_strands c) (out ++ english c i))
        (ap₂ (λ a b. (a, b)) (omega arith)
          (append_assoc out (english c i) (english_all cs (i + count_strands c))))

mutual
  unfolding english count_strands

  length-english : (t : Node) (i : ℕ) → length (english t i) ≡ count_strands t
  length-english (strand _) i = refl
  length-english (series cs) i = length-english_all cs i
  length-english (parallel cs) i = length-english_all cs i

  pub length-english_all : (cs : Nodes) (i : ℕ) → length (english_all cs i) ≡ count_all cs
  length-english_all nil i = refl
  length-english_all (cons c cs) i = omega (
    arith,
    length-append (english c i) (english_all cs (i + count_strands c)),
    length-english c i,
    length-english_all cs (i + count_strands c),
  )

-- The English rank of the strand at position `k` is `i + k`.
mutual
  unfolding english count_strands

  english-at :
      (t : Node) (i k : ℕ) (s : StrandInfo) → get_elem? (english t i) k ≡ some s → s.english ≡ i + k
  english-at (strand _) i zero s e = ground arith
  english-at (strand _) i (suc k) s e = absurd (cc)
  english-at (series cs) i k s e = english_all-at cs i k s e
  english-at (parallel cs) i k s e = english_all-at cs i k s e

  english_all-at :
      (cs : Nodes) (i k : ℕ) (s : StrandInfo)
      → get_elem? (english_all cs i) k ≡ some s
      → s.english ≡ i + k
  english_all-at nil i k s e = absurd (cc)
  english_all-at (cons c cs) i k s e = ground (
    arith,
    get_elem?-append (english c i) (english_all cs (i + count_strands c)) k,
    length-english c i,
    english-at c i k s,
    english_all-at cs (i + count_strands c) (k - count_strands c) s,
  )

-- The record of strand `k` after both passes; past the last strand there is none.
pub labels-at :
    (dag : Nodes) (k : ℕ)
    → get_elem? (labels dag) k ≡ relabel (get_elem? (english_all dag 0) k) (rank_series dag k)
unfolding labels
labels-at dag k =
    let e = assign_all-english dag 0 [] in
    let z : k - 0 ≡ k = omega arith in
    ap (λ (p : ℕ × List StrandInfo). get_elem? (hebrew_root dag 0 p.1 0).1 k) e ∙ pass z
  where
    pass :
        k - 0 ≡ k
        → get_elem? (hebrew_root dag 0 (english_all dag 0) 0).1 k
          ≡ relabel (get_elem? (english_all dag 0) k) (rank_series dag k)
    pass z = ground (
      arith,
      root-Labelled dag 0 (english_all dag 0) 0 k,
      ap (rank_series dag) z,
      length-english_all dag 0,
      get_elem?_of_ge (english_all dag 0) k,
    )

-- Only the strands of the tree have a record.
pub labels-bound :
    (dag : Nodes) (k : ℕ) (s : StrandInfo) → get_elem? (labels dag) k ≡ some s → k < count_all dag
labels-bound dag k s e =
    ground (arith, labels-at dag k, length-english_all dag 0, get_elem?_of_ge (english_all dag 0) k)

-- What a record of `labels` says of its strand.
pub label-ranks :
    (dag : Nodes) (k : ℕ) (s : StrandInfo)
    → get_elem? (labels dag) k ≡ some s
    → (s.english ≡ k) × (s.hebrew ≡ rank_series dag k)
label-ranks dag k s e = elim (Option-cases (get_elem? (english_all dag 0) k)) [
  | inl n ↦ ground (arith, labels-at dag k)
  | inr (t, f) ↦ ground (arith, labels-at dag k, english_all-at dag 0 k t)
]

-- The comparison of the two labels decides whether two strands run logically in parallel: for the
-- strands at positions `i < j`, `in_parallel` holds exactly when their lowest common ancestor is a
-- parallel node.
pub in_parallel-lca :
    (dag : Nodes) (i j : ℕ) (a b : StrandInfo)
    → i < j
    → j < count_all dag
    → get_elem? (labels dag) i ≡ some a
    → get_elem? (labels dag) j ≡ some b
    → in_parallel a b ≡ among dag false i j
unfolding in_parallel
in_parallel-lca dag i j a b h k ea eb =
    ground (arith, label-ranks dag i a, label-ranks dag j b, series-order dag i j h k)
