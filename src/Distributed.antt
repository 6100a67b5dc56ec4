-- ===== src/Distributed.antt =====
-- src/distributed.rs: nodes that share nothing but counters and steal each other's tasks by messages.
-- `advance` is one step of one node's event loop; nodes run in any order. What the tasks' closure emits
-- is a parameter, `children`. A node's receiver stands in its record, and a receiver is dropped with what
-- is queued in it when the node returns.
pub mod Weight
pub mod Conserve
pub mod Messages
pub mod Done
mod Tests
use ws_deque.Base.{
  ℕ, zero, suc, ◌+◌, ◌-◌, ◌*◌, ◌/◌, ◌%◌, ◌^◌, max, Bool, true, false, not, ◌&&◌, Option, none, some,
  List, [], ◌∷◌, ◌++◌, if◌then◌else◌, ltb, ◌==◌, word, wrapping_add, wrapping_sub, wrapping_mul,
  length, get_elem?, get_or, set, take, drop, replicate,
}
use Prim.Native.Nat.{bit_xor}

pub data Message {ℓ} (A : Type ℓ) : Type ℓ where
  steal_request : ℕ → Message A
  work : List A → Message A

-- Where a node's loop stands: in `drain_mailbox`, before `local.pop()`, in the closure with the tasks it
-- has yet to emit, before the test of `outstanding`, before the request, or returned.
pub data Pc {ℓ} (A : Type ℓ) : Type ℓ where
  draining : Pc A
  popping : Pc A
  running : A → List A → Pc A
  checking : Pc A
  starving : Pc A
  returned : Pc A

-- `Node` and the locals of `node_main`.
pub record Node {ℓ} (A : Type ℓ) : Type ℓ where
  pub rx : List (Message A)
  pub local : List A
  pub rng : ℕ
  pub pending_request : Bool
  pub pc : Pc A

pub record Global : Type 0 where
  pub outstanding : ℕ
  pub steal_msgs : ℕ
  pub migrated : ℕ
  pub n_nodes : ℕ

-- `executed` lists the tasks that were handed to the closure, `emitted` all tasks that were ever seeded
-- or spawned; the program keeps neither.
pub record System {ℓ} (A : Type ℓ) : Type ℓ where
  pub nodes : List (Node A)
  pub global : Global
  pub emitted : List A
  pub executed : List A

unfoldable pub xorshift : ℕ → ℕ
xorshift x0 =
    let x1 = bit_xor x0 (x0 * 2 ^ 13 % word) in
    let x2 = bit_xor x1 (x1 / 2 ^ 7) in bit_xor x2 (x2 * 2 ^ 17 % word)

unfoldable pub seed_rng : ℕ → ℕ
seed_rng id = bit_xor 0x9E3779B97F4A7C15 (wrapping_add (wrapping_mul id 0xD1B54A32D192ED03) 1)

module _ {ℓ} {A : Type ℓ} where
  -- `Vec::pop`
  unfoldable pub vec_pop : List A → Option (A × List A)
  vec_pop [] = none
  vec_pop (x ∷ xs) = elim (vec_pop xs) [ none ↦ some (x, []) | some (y, ys) ↦ some (y, x ∷ ys) ]

  -- Whether a node's receiver is still there.
  abbrev pub is_alive : Pc A → Bool
  is_alive returned = false
  is_alive _ = true

  -- `peers[to].send(m)`, which fails if the receiver was dropped; then `m` is lost.
  unfoldable pub send : List (Node A) → ℕ → Message A → Bool × List (Node A)
  send nodes to m = elim (get_elem? nodes to) [
    | none ↦ (false, nodes)
    | some peer ↦
        if is_alive peer.pc
        then (true, set nodes to (record peer { rx = peer.rx ++ m ∷ [] }))
        else (false, nodes)
  ]

  -- How many tasks a victim gives away.
  unfoldable pub give_count : List A → ℕ
  give_count local = (length local - 1) / 2

  -- The answer of node `id` to a steal request.
  unfoldable pub answer : System A → ℕ → Node A → ℕ → System A
  unfolding give_count send
  answer s id node from =
      let keep = length node.local - give_count node.local in
      let batch = drop keep node.local in
      let (sent, nodes) =
        send (set s.nodes id (record node { local = take keep node.local })) from (work batch) in
      record s {
        nodes = nodes;
        global = record s.global {
          migrated =
              if sent then wrapping_add s.global.migrated (length batch) else s.global.migrated;
        };
      }

  -- One round of `drain_mailbox`.
  unfoldable pub drain_mailbox : System A → ℕ → Node A → System A
  unfolding answer
  drain_mailbox s id node = elim node.rx [
    | [] ↦ record s { nodes = set s.nodes id (record node { pc = popping }) }
    | m ∷ rest ↦ elim m [
      | steal_request from ↦ answer s id (record node { rx = rest }) from
      | work batch ↦ record s {
        nodes =
            set s.nodes id
              (record node { rx = rest; local = node.local ++ batch; pending_request = false });
      }
    ]
  ]

  -- The tasks that the closure emits when it runs a task.
  module _ (children : A → List A) where
    unfoldable pub pop_local : System A → ℕ → Node A → System A
    unfolding vec_pop
    pop_local s id node = elim (vec_pop node.local) [
      | none ↦ record s { nodes = set s.nodes id (record node { pc = checking }) }
      | some (task, rest) ↦ record s {
        nodes = set s.nodes id (record node { local = rest; pc = running task (children task) });
        executed = task ∷ s.executed;
      }
    ]

  -- `NodeSpawner::spawn`, with the closure's other tasks left to emit.
  unfoldable pub spawn : System A → ℕ → Node A → A → A → List A → System A
  spawn s id node task child rest = record s {
    nodes =
        set s.nodes id (record node { local = node.local ++ child ∷ []; pc = running task rest });
    global = record s.global { outstanding = wrapping_add s.global.outstanding 1 };
    emitted = child ∷ s.emitted;
  }

  -- The closure has returned.
  unfoldable pub finish : System A → ℕ → Node A → System A
  finish s id node = record s {
    nodes = set s.nodes id (record node { pc = draining });
    global = record s.global { outstanding = wrapping_sub s.global.outstanding 1 };
  }

  unfoldable pub check_done : System A → ℕ → Node A → System A
  check_done s id node =
      let done = record node { pc = returned; rx = [] } in
      record s {
        nodes =
            set s.nodes id
              (if s.global.outstanding == 0 then done else record node { pc = starving });
      }

  -- The victim is another node, so the message does not touch node `id`.
  unfoldable pub request : System A → ℕ → Node A → System A
  unfolding send xorshift
  request s id node =
      if not node.pending_request && ltb 1 s.global.n_nodes
      then (let rng = xorshift node.rng in
          let victim = rng % s.global.n_nodes in
          let idle = record node { rng = rng; pc = draining } in
          let (sent, nodes) = send s.nodes victim (steal_request id) in
          if victim == id then record s { nodes = set s.nodes id idle } else record s {
            nodes = set nodes id (record idle { pending_request = sent });
            global = record s.global { steal_msgs = wrapping_add s.global.steal_msgs 1 };
          })
      else record s { nodes = set s.nodes id (record node { pc = draining }) }

  -- One step of node `id` in `node_main`.
  unfoldable pub advance_node : (A → List A) → System A → ℕ → Node A → Pc A → System A
  unfolding drain_mailbox pop_local finish spawn check_done request
  advance_node children s id node draining = drain_mailbox s id node
  advance_node children s id node popping = pop_local children s id node
  advance_node children s id node (running task []) = finish s id node
  advance_node children s id node (running task (child ∷ rest)) = spawn s id node task child rest
  advance_node children s id node checking = check_done s id node
  advance_node children s id node starving = request s id node
  advance_node children s id node returned = s

  unfoldable pub advance : (A → List A) → System A → ℕ → System A
  unfolding advance_node
  advance children s id = elim (get_elem? s.nodes id) [
    | none ↦ s
    | some node ↦ advance_node children s id node node.pc
  ]

  -- `seeds[i % nodes].push(task)` for the tasks from the `i`-th on.
  unfoldable pub seed : ℕ → ℕ → List A → List (List A) → List (List A)
  seed nodes i [] seeds = seeds
  seed nodes i (task ∷ initial) seeds =
      let k = i % nodes in seed nodes (i + 1) initial (set seeds k (get_or seeds k [] ++ task ∷ []))

  unfoldable pub start_nodes : ℕ → List (List A) → List (Node A)
  unfolding seed_rng
  start_nodes id [] = []
  start_nodes id (tasks ∷ seeds) =
      record { rx = []; local = tasks; rng = seed_rng id; pending_request = false; pc = draining }
      ∷ start_nodes (id + 1) seeds

  -- `run` up to the start of the nodes. With no task it starts none and returns.
  unfoldable pub run : ℕ → List A → System A
  unfolding seed start_nodes
  run n initial =
      let nodes = max n 1 in
      let seeds = seed nodes 0 initial (replicate nodes []) in
      record {
        nodes = if length initial == 0 then [] else start_nodes 0 seeds;
        global = record {
          outstanding = length initial % word;
          steal_msgs = 0;
          migrated = 0;
          n_nodes = nodes;
        };
        emitted = initial;
        executed = [];
      }
