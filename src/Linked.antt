-- ===== src/Linked.antt =====
-- src/linked.rs: the queue with multiplicity on a list of nodes of 64 cells. A node is known by its
-- position in the chain that starts at `first`; its `next` is the node at the following position, or null
-- for the last. A cell holds the task that its pointer leads to, or `none` for a null pointer. An index is
-- far below `2 ^ 64` and does not wrap.
pub mod Chain
pub mod Stored
pub mod Look
pub mod Free
pub mod Threads
pub mod Sound
pub mod Deliver
mod Tests
use ws_deque.Base.{
  ℕ, suc, ◌+◌, ◌-◌, max, Bool, true, false, Option, none, some, List, [], ◌∷◌, ◌++◌, if◌then◌else◌,
  ◌==◌, leb, get_or, get_elem?, set, replicate, drop, length,
}
use ws_deque.Idempotent.{Take, empty, got}

abbrev pub node_size : ℕ
node_size = 64

pub record Node {ℓ} (A : Type ℓ) : Type ℓ where
  pub cells : List (Option A)
  pub base : ℕ

pub record Inner {ℓ} (A : Type ℓ) : Type ℓ where
  pub head : ℕ
  pub nodes : List (Node A)
  pub tail : ℕ

pub record LinkedWorker {ℓ} (A : Type ℓ) : Type ℓ where
  pub inner : Inner A
  pub tail_node : ℕ
  pub tail : ℕ

-- A thief's handle, without the shared state.
pub record LinkedStealer : Type 0 where
  pub cur_node : ℕ
  pub cur_base : ℕ

module _ {ℓ} {A : Type ℓ} where
  -- `Node::new`
  unfoldable pub new_node : ℕ → Node A
  new_node base = record { cells = replicate node_size none; base = base }

  -- `LinkedWorker::new`
  unfoldable pub create : LinkedWorker A
  unfolding new_node
  create = record {
    inner = record { head = 0; nodes = new_node 0 ∷ []; tail = 0 };
    tail_node = 0;
    tail = 0;
  }

  unfoldable pub node_count : LinkedWorker A → ℕ
  node_count w = length w.inner.nodes

  -- A store into the cell at `offset` of a node.
  unfoldable pub store_cell : Node A → ℕ → A → Node A
  store_cell node offset task = record node { cells = set node.cells offset (some task) }

  -- The nodes after the store, and a fresh one behind them if it filled the last cell.
  unfoldable pub append_task : LinkedWorker A → ℕ → Node A → A → LinkedWorker A
  append_task w offset node task =
      let nodes = set w.inner.nodes w.tail_node (store_cell node offset task) in
      let tail = w.tail + 1 in
      let inner = record w.inner { tail = tail; nodes = nodes } in
      if offset + 1 == node_size
      then record {
        inner = record inner { nodes = nodes ++ new_node tail ∷ [] };
        tail_node = w.tail_node + 1;
        tail = tail;
      }
      else record { inner = inner; tail_node = w.tail_node; tail = tail }

  -- `none` would be a dangling `tail_node`.
  unfoldable pub put : LinkedWorker A → A → Option (LinkedWorker A)
  put w task = elim (get_elem? w.inner.nodes w.tail_node) [
    | none ↦ none
    | some node ↦ some (append_task w (w.tail - node.base) node task)
  ]

  -- The walk along the chain; past its end it would follow a null pointer.
  unfoldable pub load_slot : List (Node A) → ℕ → Option A
  load_slot [] idx = none
  load_slot (node ∷ rest) idx =
      let later = load_slot rest idx in
      if leb (node.base + node_size) idx then later else get_or node.cells (idx - node.base) none

  -- The owner's look at the head: its index and its task.
  unfoldable pub look : Inner A → Option (ℕ × A)
  look inner = if leb inner.tail inner.head then none else elim (load_slot inner.nodes inner.head) [
    | none ↦ none
    | some task ↦ some (inner.head, task)
  ]

  -- `head.fetch_max(head + 1)`
  unfoldable pub fetch_max : Inner A → ℕ → Inner A
  fetch_max inner head = record inner { head = max inner.head (head + 1) }

  -- `others` is what other threads do between the look and the `fetch_max`.
  unfoldable pub take : (Inner A → Inner A) → Inner A → Take A × Inner A
  take others inner = elim (look inner) [
    | none ↦ (empty, inner)
    | some (head, task) ↦ (got task, fetch_max (others inner) head)
  ]

  -- The thief's loop, with the nodes that follow the cached one; `false` is the early return at a null
  -- `next`.
  unfoldable pub walk : List (Node A) → ℕ → LinkedStealer → Bool × LinkedStealer
  walk [] head s = (if leb (s.cur_base + node_size) head then false else true, s)
  walk (node ∷ rest) head s =
      let later =
        walk rest head (record { cur_node = s.cur_node + 1; cur_base = s.cur_base + node_size }) in
      if leb (s.cur_base + node_size) head then later else (true, s)

  unfoldable pub load_cell : List (Node A) → LinkedStealer → ℕ → Option A
  load_cell nodes s head = elim (get_elem? nodes s.cur_node) [
    | none ↦ none
    | some node ↦ get_or node.cells (head - s.cur_base) none
  ]

  -- The thief's look at the head, which moves its cached node.
  unfoldable pub look_from : Inner A → LinkedStealer → Option (ℕ × A) × LinkedStealer
  look_from inner s =
      if leb inner.tail inner.head
      then (none, s)
      else let (found, s') = walk (drop (suc s.cur_node) inner.nodes) inner.head s in
        if found
        then (
          elim (load_cell inner.nodes s' inner.head) [
            | none ↦ none
            | some task ↦ some (inner.head, task)
          ],
          s',
        )
        else (none, s')

  -- `LinkedStealer::steal`
  unfoldable pub steal :
      (Inner A → Inner A) → Inner A → LinkedStealer → Take A × Inner A × LinkedStealer
  steal others inner s =
      let (seen, s') = look_from inner s in
      elim seen [
        | none ↦ (empty, inner, s')
        | some (head, task) ↦ (got task, fetch_max (others inner) head, s')
      ]

  -- The tasks that are freed with a node, in order.
  unfoldable pub drop_cells : List (Option A) → List A
  drop_cells [] = []
  drop_cells (none ∷ cells) = drop_cells cells
  drop_cells (some task ∷ cells) = task ∷ drop_cells cells

  -- `Drop for Inner`: the tasks that it frees.
  unfoldable pub drop_nodes : List (Node A) → List A
  drop_nodes [] = []
  drop_nodes (node ∷ rest) = drop_cells node.cells ++ drop_nodes rest

-- `LinkedWorker::stealer`, and `clone` of a thief's handle.
unfoldable pub stealer : LinkedStealer
stealer = record { cur_node = 0; cur_base = 0 }
