-- ===== src/Distributed/Done.antt =====
-- src/distributed.rs from its start: `run` seeds the nodes, and whatever the order of the nodes' steps, a
-- node returns only when every task has been run.
use ws_deque.Base.{
  ℕ, zero, suc, ◌+◌, ◌<◌, ◌%◌, ◌≡◌, refl, ap, ◌∙◌, false, some, List, [], ◌∷◌, ◌++◌, max, arith,
  ◌==◌, length, get_elem?, get_or, set, replicate, length-set, length-replicate, word,
}
use native.Mathlib.Nat.{mod-lt}
use ws_deque.Distributed.{
  Node, System, draining, is_alive, advance, seed, start_nodes, run, seed_rng,
}
use ws_deque.Distributed.Weight.{
  total, total-append, total-set, total-member, held, strangers, busy, gone, one, held-none,
  busy_pc, stranger,
}
use ws_deque.Distributed.Conserve.{gone_pc, Conserved, alive_tasks}
use ws_deque.Distributed.Messages.{advance-Conserved}

module _ {ℓ} {A : Type ℓ} where
  get_elem?-get_or :
      (xs : List A) (i : ℕ) (d : A) → i < length xs → get_elem? xs i ≡ some (get_or xs i d)
  get_elem?-get_or [] i d h = absurd (omega arith)
  get_elem?-get_or (x ∷ xs) zero d h = refl
  get_elem?-get_or (x ∷ xs) (suc i) d h = get_elem?-get_or xs i d (omega arith)

module _ {ℓ} {A : Type ℓ} where
  pub total-seed :
      (f : A → ℕ) (nodes i : ℕ) (initial : List A) (seeds : List (List A))
      → 0 < nodes
      → length seeds ≡ nodes
      → total (total f) (seed nodes i initial seeds) ≡ total (total f) seeds + total f initial
  unfolding seed
  total-seed f nodes i [] seeds h n = omega arith
  total-seed f nodes i (task ∷ initial) seeds h n =
      let k = i % nodes in
      let here = get_or seeds k [] in
      let k_small : k < length seeds = omega (arith, n, mod-lt i h) in
      let at = get_elem?-get_or seeds k [] k_small in
      let fed = here ++ task ∷ [] in
      omega (
        arith,
        total-seed f nodes (i + 1) initial (set seeds k fed) h (length-set seeds k fed ∙ n),
        total-set (total f) seeds k here fed at,
        total-append f here (task ∷ []),
      )

  total-start_nodes :
      (f : A → ℕ) (id : ℕ) (seeds : List (List A))
      → total (held f) (start_nodes id seeds) ≡ total (total f) seeds
  unfolding start_nodes
  total-start_nodes f id [] = refl
  total-start_nodes f id (tasks ∷ seeds) = omega (arith, total-start_nodes f (id + 1) seeds)

  -- A node starts with no message and no task in hand.
  none-start_nodes :
      (g : Node A → ℕ)
      → ((node : Node A) → node.rx ≡ [] → node.pc ≡ draining → g node ≡ 0)
      → (id : ℕ) (seeds : List (List A)) → total g (start_nodes id seeds) ≡ 0
  unfolding start_nodes
  none-start_nodes g zero_at id [] = refl
  none-start_nodes g zero_at id (tasks ∷ seeds) = omega (
    arith,
    none-start_nodes g zero_at (id + 1) seeds,
    zero_at
        (record {
          rx = [];
          local = tasks;
          rng = seed_rng id;
          pending_request = false;
          pc = draining;
        })
        refl refl,
  )

  total-one : (xs : List A) → total one xs ≡ length xs
  total-one [] = refl
  total-one (x ∷ xs) = omega (arith, total-one xs)

  total-no_seeds : (f : A → ℕ) (n : ℕ) → total (total f) (replicate n []) ≡ 0
  total-no_seeds f zero = refl
  total-no_seeds f (suc n) = omega (arith, total-no_seeds f n)

  -- Where nothing was seeded no node starts.
  pub run-Conserved : (n : ℕ) (initial : List A) → Conserved (run n initial)
  unfolding run
  run-Conserved n [] = record {
    conserved = λ f. refl;
    counted = refl;
    known = refl;
    quiet = λ h. refl;
  }
  run-Conserved n (task ∷ initial) =
      let nodes = max n 1 in
      let tasks = task ∷ initial in
      let seeds = seed nodes 0 tasks (replicate nodes []) in
      let all = start_nodes 0 seeds in
      let q : (length tasks == 0) ≡ false = ground arith in
      let h = λ (f : A → ℕ).
        total-start_nodes f 0 seeds
        ∙ total-seed f nodes 0 tasks (replicate nodes []) (omega arith)
            (length-replicate {A = List A} nodes []) in
      let b = none-start_nodes busy (λ node r p. ap busy_pc p) 0 seeds in
      let g = none-start_nodes gone (λ node r p. ap gone_pc p) 0 seeds in
      rw q (record {
        conserved = λ f. omega (arith, h f, total-no_seeds f nodes);
        counted =
            ap (λ t. t % word) (omega (arith, h one, b, total-no_seeds one nodes, total-one tasks));
        known =
            none-start_nodes (strangers (length all))
              (λ node r p. ap (total (stranger (length all))) r) 0 seeds;
        quiet = λ x. omega (arith, g, x);
      })

  held_all-none :
      (f : A → ℕ) (nodes : List (Node A)) → total (held one) nodes ≡ 0 → total (held f) nodes ≡ 0
  held_all-none f [] e = refl
  held_all-none f (node ∷ nodes) e =
      omega (arith, held-none f node (omega (arith, e)), held_all-none f nodes (omega (arith, e)))

  -- What the nodes may have done since the start, as long as no `2 ^ 64` tasks were there at once.
  pub data Reach (children : A → List A) (n : ℕ) (initial : List A) : System A → Type ℓ where
    start : {s : System A} → s ≡ run n initial → Reach children n initial s
    later :
        {s t : System A} (id : ℕ)
        → Reach children n initial s
        → alive_tasks s < word
        → t ≡ advance children s id
        → Reach children n initial t

  Reach-Conserved :
      {children : A → List A} {n : ℕ} {initial : List A} {s : System A}
      → Reach children n initial s
      → Conserved s
  Reach-Conserved {n = n} {initial = initial} (start e) = rw e (run-Conserved n initial)
  Reach-Conserved {children = children} (later id r small e) =
      rw e (advance-Conserved children id (Reach-Conserved r) small)

  -- In every state that the nodes reach, in whatever order they step, each task that was seeded or
  -- spawned was either handed to the closure or waits in one node's pool or mailbox, and never both or
  -- twice: any weight of the tasks, such as how often one occurs, sums up. The counter of outstanding
  -- tasks is the number of those that wait or are being run.
  pub run_conserves :
      {children : A → List A} {n : ℕ} {initial : List A} {s : System A} (f : A → ℕ)
      → Reach children n initial s
      → (total f s.emitted ≡ total f s.executed + total (held f) s.nodes)
        × (s.global.outstanding ≡ alive_tasks s % word)
  run_conserves f r = let c = Reach-Conserved r in (c.conserved f, c.counted)

  -- When a node has returned, every task has been run: each task that was seeded or spawned was handed to
  -- the closure, as often as it was emitted, and no node waits for one or runs one.
  pub returned_done :
      {children : A → List A} {n : ℕ} {initial : List A} {s : System A} (f : A → ℕ) (id : ℕ)
      (node : Node A)
      → Reach children n initial s
      → get_elem? s.nodes id ≡ some node
      → is_alive node.pc ≡ false
      → (alive_tasks s ≡ 0) × (total f s.emitted ≡ total f s.executed)
  returned_done {s = s} f id node r at dead =
      let c = Reach-Conserved r in
      let g : gone node ≡ 1 = ground arith in
      let some_gone : 0 < total gone s.nodes =
        omega (arith, total-member gone s.nodes id node at, g) in
      let none_alive = c.quiet some_gone in
      let none_held : total (held f) s.nodes ≡ 0 =
        held_all-none f s.nodes (omega (arith, none_alive)) in
      (none_alive, omega (arith, c.conserved f, none_held))
