-- ===== src/Linked/Stored.antt =====
-- src/linked.rs: what the queue holds, and what each operation leaves.
use ws_deque.Base.{
  ℕ, zero, suc, ◌+◌, ◌-◌, ◌*◌, ◌/◌, ◌≤◌, ◌<◌, ◌≡◌, ◌≢◌, refl, sym, ◌∙◌, ap, true, false, Bool-cases,
  inl, inr, Option, none, some, List, [], ◌∷◌, ◌++◌, ◌==◌, get_or, get_elem?, get_elem?-append_end,
  get_or-set_self, get_or-set_ne, set, length, length-append, length-set, arith, replicate,
  Option-cases, get_elem?-none,
}
use native.Mathlib.Decide.{ℕ_discrete}
use ws_deque.Linked.{
  Node, Inner, LinkedWorker, create, put, append_task, new_node, store_cell, node_count,
}
use ws_deque.Linked.Chain.{flat, IsChain, length-flat, node-flat, flat-store_cell, flat-new_node}

module _ {ℓ} {A : Type ℓ} where
  -- The shared state holds the tasks `puts`, those already taken among them, each in the cell of its
  -- index; every other cell is null.
  pub record Holds (inner : Inner A) (puts : List A) : Type ℓ where
    pub chain : IsChain 0 inner.nodes
    pub tail_puts : inner.tail ≡ length puts
    pub room : inner.tail < 64 * length inner.nodes
    pub held : (j : ℕ) → get_or (flat inner.nodes) j none ≡ get_elem? puts j

  -- The owner's cursor is at the last node, which has a free cell.
  pub record Stored (w : LinkedWorker A) (puts : List A) : Type ℓ where
    pub holds : Holds w.inner puts
    pub same_tail : w.inner.tail ≡ w.tail
    pub node_low : 64 * w.tail_node ≤ w.tail
    pub last_node : length w.inner.nodes ≡ w.tail_node + 1

  replicate-none : (n j : ℕ) → get_or (replicate {A = Option A} n none) j none ≡ none
  replicate-none zero j = refl
  replicate-none (suc n) zero = refl
  replicate-none (suc n) (suc j) = replicate-none n j

  append-none :
      (cells : List (Option A)) (n j : ℕ)
      → get_or (cells ++ replicate n none) j none ≡ get_or cells j none
  append-none [] n j = replicate-none n j
  append-none (c ∷ cells) n zero = refl
  append-none (c ∷ cells) n (suc j) = append-none cells n j

  after_new :
      (base : ℕ) (cells : List (Option A)) (j : ℕ)
      → get_or (cells ++ (new_node base).cells) j none ≡ get_or cells j none
  unfolding new_node
  after_new base cells j = append-none cells 64 j

  pub create-Stored : Stored (create {A = A}) []
  unfolding create new_node
  create-Stored = record {
    holds = record {
      chain = unfold IsChain in (refl, refl, tt);
      tail_puts = refl;
      room = omega arith;
      held = λ j. unfold flat in append-none (replicate 64 none) 0 j ∙ replicate-none 64 j;
    };
    same_tail = refl;
    node_low = omega arith;
    last_node = refl;
  }

  get_elem?-append_after :
      (puts : List A) (v : A) (j : ℕ)
      → j ≢ length puts
      → get_elem? (puts ++ v ∷ []) j ≡ get_elem? puts j
  get_elem?-append_after [] v zero h = absurd (h refl)
  get_elem?-append_after [] v (suc j) h = refl
  get_elem?-append_after (x ∷ puts) v zero h = refl
  get_elem?-append_after (x ∷ puts) v (suc j) h =
      get_elem?-append_after puts v j (λ e. h (ap suc e))

  -- The cells after a store at the index that comes next.
  held-store :
      (cells : List (Option A)) (puts : List A) (v : A)
      → length puts < length cells
      → ((j : ℕ) → get_or cells j none ≡ get_elem? puts j)
      → (j : ℕ) → get_or (set cells (length puts) (some v)) j none ≡ get_elem? (puts ++ v ∷ []) j
  held-store cells puts v room h j = elim (ℕ_discrete j (length puts)) [
    | yes e ↦
        rw e (
          get_or-set_self cells (length puts) (some v) none room
          ∙ sym (get_elem?-append_end puts v))
    | no n ↦
        get_or-set_ne cells (length puts) j (some v) none (λ e. n (sym e))
        ∙ h j
        ∙ sym (get_elem?-append_after puts v j n)
  ]

  pub get_elem?-exists :
      (nodes : List (Node A)) (i : ℕ)
      → i < length nodes
      → (node : Node A) × (get_elem? nodes i ≡ some node)
  get_elem?-exists nodes i h = elim (Option-cases (get_elem? nodes i)) [
    | inl e ↦ absurd (omega (arith, get_elem?-none nodes i e))
    | inr found ↦ found
  ]

  -- The chain after the store of the next task.
  module _ {w : LinkedWorker A} {puts : List A} (node : Node A) (v : A) (s : Stored w puts)
      (q : get_elem? w.inner.nodes w.tail_node ≡ some node) where
    base-eq : node.base ≡ 64 * w.tail_node
    base-eq =
        omega
          (arith, (node-flat 0 w.inner.nodes w.tail_node node 0 s.holds.chain q (omega arith)).0)

    offset-bound : w.tail - node.base < 64
    offset-bound = omega (arith, base-eq, s.holds.room, s.last_node, s.same_tail)

    stored_nodes :
        let nodes = set w.inner.nodes w.tail_node (store_cell node (w.tail - node.base) v) in
        IsChain 0 nodes
        × (length nodes ≡ w.tail_node + 1)
        × ((j : ℕ) → get_or (flat nodes) j none ≡ get_elem? (puts ++ v ∷ []) j)
    stored_nodes =
        let t =
          flat-store_cell 0 w.inner.nodes w.tail_node node (w.tail - node.base) v s.holds.chain q
            offset-bound in
        let at_tail : 64 * w.tail_node + (w.tail - node.base) ≡ length puts =
          omega (arith, base-eq, s.node_low, s.holds.tail_puts, s.same_tail) in
        let room : length puts < length (flat w.inner.nodes) =
          omega
            (arith, s.holds.room, s.holds.tail_puts, length-flat 0 w.inner.nodes s.holds.chain) in
        (
          t.0,
          length-set w.inner.nodes w.tail_node _ ∙ s.last_node,
          λ j.
              ap (λ l. get_or l j none) t.1
              ∙ ap (λ i. get_or (set (flat w.inner.nodes) i (some v)) j none) at_tail
              ∙ held-store (flat w.inner.nodes) puts v room s.holds.held j,
        )

    -- With a cell left in the node, the queue stays on it.
    append_task-stays :
        ((w.tail - node.base) + 1 == 64) ≡ false
        → Stored (append_task w (w.tail - node.base) node v) (puts ++ v ∷ [])
    unfolding append_task
    append_task-stays e =
        let (chain, n, held) = stored_nodes in
        let less : w.tail - node.base + 1 < 64 = ground (arith, offset-bound) in
        rw e (record {
          holds = record {
            chain = chain;
            tail_puts = omega (arith, s.holds.tail_puts, s.same_tail, length-append puts (v ∷ []));
            room = omega (arith, n, less, base-eq, s.node_low);
            held = held;
          };
          same_tail = refl;
          node_low = omega (arith, s.node_low);
          last_node = n;
        })

    -- With the node's last cell filled, the queue moves to a fresh node.
    append_task-moves :
        ((w.tail - node.base) + 1 == 64) ≡ true
        → Stored (append_task w (w.tail - node.base) node v) (puts ++ v ∷ [])
    unfolding append_task
    append_task-moves e =
        let (chain, n, held) = stored_nodes in
        let filled : w.tail - node.base + 1 ≡ 64 = ground arith in
        let nodes = set w.inner.nodes w.tail_node (store_cell node (w.tail - node.base) v) in
        let t : w.tail + 1 ≡ 0 + 64 * length nodes =
          omega (arith, n, filled, base-eq, s.node_low) in
        let linked = flat-new_node 0 nodes (w.tail + 1) chain t in
        let count : length (nodes ++ new_node (w.tail + 1) ∷ []) ≡ w.tail_node + 2 =
          omega (arith, n, length-append nodes (new_node (w.tail + 1) ∷ [])) in
        rw e (record {
          holds = record {
            chain = linked.0;
            tail_puts = omega (arith, s.holds.tail_puts, s.same_tail, length-append puts (v ∷ []));
            room = omega (arith, n, t, count);
            held = λ j.
                ap (λ l. get_or l j none) linked.1 ∙ after_new (w.tail + 1) (flat nodes) j ∙ held j;
          };
          same_tail = refl;
          node_low = omega (arith, n, t);
          last_node = omega (arith, count);
        })

  head-append_task :
      (w : LinkedWorker A) (i : ℕ) (node : Node A) (v : A)
      → (append_task w i node v).inner.head ≡ w.inner.head
  unfolding append_task
  head-append_task w i node v = ground arith

  nodes-append_task :
      (w : LinkedWorker A) (i : ℕ) (node : Node A) (v : A)
      → length w.inner.nodes ≤ length (append_task w i node v).inner.nodes
  unfolding append_task
  nodes-append_task w i node v =
      let cells = set w.inner.nodes w.tail_node (store_cell node i v) in
      ground (
        arith,
        length-set w.inner.nodes w.tail_node (store_cell node i v),
        length-append cells (new_node (w.tail + 1) ∷ []),
      )

  put-some :
      (w : LinkedWorker A) (v : A) (node : Node A)
      → get_elem? w.inner.nodes w.tail_node ≡ some node
      → put w v ≡ some (append_task w (w.tail - node.base) node v)
  unfolding put
  put-some w v node q = ground arith

  -- The owner's put never fails: it appends the task.
  pub put-Stored_node :
      {w : LinkedWorker A} {puts : List A} (v : A)
      → Stored w puts
      → (w' : LinkedWorker A) × (put w v ≡ some w')
        × Stored w' (puts ++ v ∷ [])
        × (w'.inner.head ≡ w.inner.head)
        × (length w.inner.nodes ≤ length w'.inner.nodes)
  put-Stored_node {w} {puts} v s =
      let (node, q) = get_elem?-exists w.inner.nodes w.tail_node (omega (arith, s.last_node)) in
      let next = append_task w (w.tail - node.base) node v in
      (
        next,
        put-some w v node q,
        (elim (Bool-cases ((w.tail - node.base) + 1 == 64)) [
          | inl e ↦ append_task-moves node v s q e
          | inr e ↦ append_task-stays node v s q e
        ]),
        head-append_task w (w.tail - node.base) node v,
        nodes-append_task w (w.tail - node.base) node v,
      )

  -- The number of nodes grows by one for every 64 tasks.
  node_count-Stored :
      {w : LinkedWorker A} {puts : List A} → Stored w puts → node_count w ≡ length puts / 64 + 1
  unfolding node_count
  node_count-Stored {w} s =
      omega (arith, s.last_node, s.node_low, s.same_tail, s.holds.tail_puts, s.holds.room)
