-- ===== src/Race/Tests.antt =====
-- The race detector's theorem at a small tree.
use ws_deque.Base.{ℕ, ◌≡◌, ltb, ◌&&◌, ◌||◌, refl, false, true, [], ◌∷◌, arith}
use ws_deque.Race.{
  Nodes, nil, cons, Node, strand, parallel, StrandInfo, labels, in_parallel, count_strands,
  push_access, set_hebrew, detect_races,
}
use ws_deque.Race.Labels.{among}
use ws_deque.Race.Group.{any, accesses_at}
use ws_deque.Race.Report.{is_report, detect_races-exact}
use ws_deque.Race.Walk.{in_parallel-lca, english_all}

abbrev writes : ℕ → Node
writes l = strand (record { location = l; is_write = true } ∷ [])

-- Strand 0, then strands 1 and 2 in parallel.
abbrev tree : Nodes
tree = cons (writes 7) (cons (parallel (cons (writes 7) (cons (writes 7) nil))) nil)

abbrev info : ℕ → ℕ → StrandInfo
info e h = record {
  english = e;
  hebrew = h;
  accesses = record { location = 7; is_write = true } ∷ [];
}

labels-tree : labels tree ≡ info 0 0 ∷ info 1 2 ∷ info 2 1 ∷ []
unfolding labels set_hebrew
labels-tree = refl

in_parallel-lca_example : in_parallel (info 1 2) (info 2 1) ≡ among tree false 1 2
in_parallel-lca_example =
    in_parallel-lca tree 1 2 (info 1 2) (info 2 1) (omega arith)
      (unfold count_strands in omega arith) (unfold labels set_hebrew in refl)
      (unfold labels set_hebrew in refl)

detect_races-tree :
    detect_races (λ t. t) tree
    ≡ record { location = 7; strand_a = 1; strand_b = 2; write_a = true; write_b = true } ∷ []
unfolding detect_races set_hebrew push_access
detect_races-tree = refl

detect_races-exact_example : any (is_report 7 1 2 true true) (detect_races (λ t. t) tree) ≡ (
    ltb 1 2
    && (true || true)
    && accesses_at (english_all tree 0) 1 7 true
    && accesses_at (english_all tree 0) 2 7 true
    && among tree false 1 2)
detect_races-exact_example = detect_races-exact (λ t. t) (λ p t. refl) tree 7 1 2 true true
