-- ===== src/Bwos/Unbounded.antt =====
-- src/bwos.rs, `unbounded`: the queue of linked blocks. A pointer to a block is its index in the list of all
-- blocks that were allocated, and a null pointer is `none`. A slot holds a value's bits, or `none` as long
-- as nothing was written to it.
pub mod Chain
pub mod Fresh
pub mod Hold
pub mod Back
pub mod Front
pub mod Calls
mod Tests
use ws_deque.Base.{
  ℕ, zero, suc, ◌+◌, ◌-◌, Bool, true, Option, none, some, List, [], ◌∷◌, ◌++◌, if◌then◌else◌, ltb,
  leb, ◌==◌, length, get_or, set, replicate,
}
use ws_deque.Deque.Steal.{Steal, empty, retry}
use ws_deque.Deque.Worker.{compare_exchange}
use ws_deque.Deque.Stealer.{taken}

pub record Block {ℓ} (A : Type ℓ) : Type ℓ where
  pub slots : List (Option A)
  pub committed : ℕ
  pub stolen : ℕ
  pub next : Option ℕ
  pub prev : Option ℕ

-- `Inner`, with all blocks that were allocated, oldest first.
pub record Inner {ℓ} (A : Type ℓ) : Type ℓ where
  pub memory : List (Block A)
  pub head : ℕ
  pub block_size : ℕ

pub record UnboundedBwosWorker {ℓ} (A : Type ℓ) : Type ℓ where
  pub inner : Inner A
  pub owner_block : ℕ

-- A thief's own state; the shared one is an argument.
pub record UnboundedBwosStealer : Type 0 where
  pub cursor : ℕ

-- One round of the loop of `pop`.
pub data Turn {ℓ} (A : Type ℓ) : Type ℓ where
  stop : Option A → Inner A → Turn A
  step_to : ℕ → Turn A
  again : Inner A → Turn A

module _ {ℓ} {A : Type ℓ} where
  -- The block that `Block::alloc` makes.
  unfoldable pub new_block : ℕ → Option ℕ → Block A
  new_block block_size prev = record {
    slots = replicate block_size none;
    committed = 0;
    stolen = 0;
    next = none;
    prev = prev;
  }

  -- The constructor's assertion is `none`.
  unfoldable pub with_block_size : ℕ → Option (UnboundedBwosWorker A)
  unfolding new_block
  with_block_size block_size =
      if ltb block_size 1
      then none
      else some (record {
        inner = record {
          memory = new_block block_size none ∷ [];
          head = 0;
          block_size = block_size;
        };
        owner_block = 0;
      })

  unfoldable pub create : Option (UnboundedBwosWorker A)
  unfolding with_block_size
  create = with_block_size 256

  unfoldable pub with_blocks : ℕ → ℕ → Option (UnboundedBwosWorker A)
  unfolding with_block_size
  with_blocks num_blocks block_size = with_block_size block_size

  unfoldable pub stealer : Inner A → UnboundedBwosStealer
  stealer inner = record { cursor = inner.head }

  unfoldable pub slots_write : Block A → ℕ → A → Block A
  slots_write b pos value = record b { slots = set b.slots pos (some value) }

  unfoldable pub slots_read : Block A → ℕ → Option A
  slots_read b pos = get_or b.slots pos none

  -- The block behind a pointer.
  unfoldable pub block_at : List (Block A) → ℕ → Block A
  unfolding new_block
  block_at memory blk = get_or memory blk (new_block 0 none)

  unfoldable pub set_block : Inner A → ℕ → Block A → Inner A
  set_block inner blk b = record inner { memory = set inner.memory blk b }

  -- The fast path of `put`: write the slot, then publish the new bottom.
  unfoldable pub fill : Inner A → ℕ → ℕ → A → Inner A
  unfolding set_block slots_write block_at
  fill inner blk bottom value =
      set_block inner blk
        (record (slots_write (block_at inner.memory blk) bottom value) { committed = bottom + 1 })

  -- A fresh successor of block `blk`, linked from it.
  unfoldable pub link_fresh : Inner A → ℕ → Inner A
  unfolding set_block new_block block_at
  link_fresh inner blk =
      let fresh = length inner.memory in
      let allocated = record inner {
        memory = inner.memory ++ new_block inner.block_size (some blk) ∷ [];
      } in
      set_block allocated blk (record (block_at allocated.memory blk) { next = some fresh })

  unfoldable pub put : UnboundedBwosWorker A → A → Bool × UnboundedBwosWorker A
  unfolding block_at fill link_fresh
  put w value =
      let inner = w.inner in
      let blk = w.owner_block in
      let bottom = (block_at inner.memory blk).committed in
      if bottom == inner.block_size
      then (
        true,
        record {
          inner = fill (link_fresh inner blk) (length inner.memory) 0 value;
          owner_block = length inner.memory;
        },
      )
      else (true, record w { inner = fill inner blk bottom value })

  -- The round in block `blk`. `early` and `late` are what thieves do before the second load of `stolen`
  -- and before the compare-exchange.
  unfoldable pub pop_block : (Inner A → Inner A) → (Inner A → Inner A) → Inner A → ℕ → Turn A
  unfolding block_at set_block slots_read
  pop_block early late inner blk =
      let block = block_at inner.memory blk in
      let b = block.committed in
      let t = block.stolen in
      if leb b t
      then elim block.prev [ none ↦ stop none inner | some prev ↦ step_to prev ]
      else let new_b = b - 1 in
        let lowered = early (set_block inner blk (record block { committed = new_b })) in
        let s = (block_at lowered.memory blk).stolen in
        let bits = slots_read (block_at lowered.memory blk) new_b in
        if ltb s new_b
        then stop bits lowered
        else if new_b == s
        then (let raced = late lowered in
            let now = block_at raced.memory blk in
            let won = compare_exchange now.stolen s in
            let left =
              set_block raced blk
                (record now { stolen = if won then s + 1 else now.stolen; committed = s + 1 }) in
            if won then stop bits left else again left)
        else again (set_block lowered blk (record (block_at lowered.memory blk) { committed = b }))

  -- The loop of `pop`, on fuel; `none` means that the fuel ran out.
  unfoldable pub pop :
      (Inner A → Inner A)
      → (Inner A → Inner A)
      → ℕ
      → UnboundedBwosWorker A
      → Option (Option A × UnboundedBwosWorker A)
  pop early late zero w = none
  pop early late (suc fuel) w = elim (pop_block early late w.inner w.owner_block) [
    | stop out inner ↦ some (out, record w { inner = inner })
    | step_to prev ↦ pop early late fuel (record w { owner_block = prev })
    | again inner ↦ pop early late fuel (record w { inner = inner })
  ]

  -- The loop of `steal`, on fuel, with the thief's cursor at its end. `others` is what happens between the
  -- loads and the compare-exchange.
  unfoldable pub steal_walk :
      (Inner A → Inner A) → ℕ → ℕ → Inner A → Option (Steal A × UnboundedBwosStealer × Inner A)
  steal_walk others zero blk inner = none
  steal_walk others (suc fuel) blk inner =
      let block = block_at inner.memory blk in
      let t = block.stolen in
      if ltb t block.committed
      then (let bits = slots_read block t in
          let left = others inner in
          let now = block_at left.memory blk in
          if compare_exchange now.stolen t
          then some (
            taken bits,
            record { cursor = blk },
            set_block left blk (record now { stolen = t + 1 }),
          )
          else some (retry, record { cursor = blk }, left))
      else elim block.next [
        | none ↦ some (empty, record { cursor = blk }, inner)
        | some next ↦ steal_walk others fuel next inner
      ]

  unfoldable pub steal :
      (Inner A → Inner A)
      → ℕ
      → Inner A
      → UnboundedBwosStealer
      → Option (Steal A × UnboundedBwosStealer × Inner A)
  unfolding steal_walk
  steal others fuel inner thief = steal_walk others fuel thief.cursor inner

  -- `Drop for Inner`: the blocks that it frees, on fuel.
  unfoldable pub drop_blocks : List (Block A) → ℕ → Option ℕ → List ℕ
  drop_blocks memory fuel none = []
  drop_blocks memory zero (some blk) = []
  drop_blocks memory (suc fuel) (some blk) =
      blk ∷ drop_blocks memory fuel (block_at memory blk).next

  unfoldable pub drop_inner : Inner A → List ℕ
  unfolding drop_blocks
  drop_inner inner = drop_blocks inner.memory (length inner.memory) (some inner.head)
