-- ===== src/Bwos.antt =====
-- src/bwos.rs: the bounded block-based queue. Each block is a small deque with its own bottom
-- (`committed`) and top (`stolen`); the owner works in one block, thieves scan all produced ones. A
-- slot holds a value's bits, or `none` as long as nothing was written to it.
pub mod Put
pub mod Ends
pub mod Held
pub mod Take
pub mod Keep
pub mod Unbounded
mod Tests
use ws_deque.Base.{
  ℕ, zero, suc, ◌+◌, ◌-◌, ◌*◌, Bool, true, false, Option, none, some, List, [], ◌∷◌, if◌then◌else◌,
  ltb, leb, ◌==◌, length, get_or, set, replicate,
}
use ws_deque.Deque.Steal.{Steal, empty, retry, success}
use ws_deque.Deque.Worker.{compare_exchange}
use ws_deque.Deque.Stealer.{taken}

pub record Block {ℓ} (A : Type ℓ) : Type ℓ where
  pub slots : List (Option A)
  pub committed : ℕ
  pub stolen : ℕ

pub record Inner {ℓ} (A : Type ℓ) : Type ℓ where
  pub blocks : List (Block A)
  pub block_size : ℕ
  pub produced_blocks : ℕ

-- `BwosWorker`: the shared state and the owner's private block index.
pub record BwosWorker {ℓ} (A : Type ℓ) : Type ℓ where
  pub inner : Inner A
  pub owner_block : ℕ

-- One round of the loop of `pop`: `stop` returns, `step_back` goes to the block before, `again` tries
-- once more.
pub data Round {ℓ} (A : Type ℓ) : Type ℓ where
  stop : Option A → Inner A → Round A
  step_back : Round A
  again : Inner A → Round A

module _ {ℓ} {A : Type ℓ} where
  -- `Block::new`
  unfoldable pub new_block : ℕ → Block A
  new_block block_size = record { slots = replicate block_size none; committed = 0; stolen = 0 }

  -- The constructor's two assertions are `none`.
  unfoldable pub with_blocks : ℕ → ℕ → Option (BwosWorker A)
  unfolding new_block
  with_blocks num_blocks block_size =
      if ltb num_blocks 2
      then none
      else if ltb block_size 1
      then none
      else some (record {
        inner = record {
          blocks = replicate num_blocks (new_block block_size);
          block_size = block_size;
          produced_blocks = 1;
        };
        owner_block = 0;
      })

  unfoldable pub create : Option (BwosWorker A)
  unfolding with_blocks
  create = with_blocks 16 256

  unfoldable pub capacity : BwosWorker A → ℕ
  capacity w = length w.inner.blocks * w.inner.block_size

  unfoldable pub slots_write : Block A → ℕ → A → Block A
  slots_write b pos value = record b { slots = set b.slots pos (some value) }

  unfoldable pub slots_read : Block A → ℕ → Option A
  slots_read b pos = get_or b.slots pos none

  -- `inner.blocks[blk]`; an index past the end would panic.
  unfoldable pub block_at : Inner A → ℕ → Block A
  unfolding new_block
  block_at inner blk = get_or inner.blocks blk (new_block 0)

  unfoldable pub set_block : Inner A → ℕ → Block A → Inner A
  set_block inner blk b = record inner { blocks = set inner.blocks blk b }

  -- The fast path of `put`: write the slot, then publish the new bottom.
  unfoldable pub fill : Inner A → ℕ → ℕ → A → Inner A
  unfolding slots_write block_at set_block
  fill inner blk bottom value =
      set_block inner blk
        (record (slots_write (block_at inner blk) bottom value) { committed = bottom + 1 })

  unfoldable pub put : BwosWorker A → A → Bool × BwosWorker A
  unfolding block_at
  put w value =
      let inner = w.inner in
      let blk = w.owner_block in
      let bottom = (block_at inner blk).committed in
      if bottom == inner.block_size
      then (let next = blk + 1 in
          if next == length inner.blocks then (false, w) else (
            true,
            record {
              inner = fill (record inner { produced_blocks = next + 1 }) next 0 value;
              owner_block = next;
            },
          ))
      else (true, record w { inner = fill inner blk bottom value })

  -- The round in block `blk`. `early` and `late` are what thieves do before the second load of `stolen`
  -- and before the compare-exchange.
  unfoldable pub pop_block : (Inner A → Inner A) → (Inner A → Inner A) → Inner A → ℕ → Round A
  unfolding block_at set_block slots_read
  pop_block early late inner blk =
      let block = block_at inner blk in
      let b = block.committed in
      let t = block.stolen in
      if leb b t
      then (if blk == 0 then stop none inner else step_back)
      else let new_b = b - 1 in
        let lowered = early (set_block inner blk (record block { committed = new_b })) in
        let s = (block_at lowered blk).stolen in
        let bits = slots_read (block_at lowered blk) new_b in
        if ltb s new_b
        then stop bits lowered
        else if new_b == s
        then (let raced = late lowered in
            let now = block_at raced blk in
            let won = compare_exchange now.stolen s in
            let left =
              set_block raced blk
                (record now { stolen = if won then s + 1 else now.stolen; committed = s + 1 }) in
            if won then stop bits left else again left)
        else again (set_block lowered blk (record (block_at lowered blk) { committed = b }))

  -- The loop of `pop`, on fuel; `none` means that the fuel ran out.
  unfoldable pub pop_loop :
      (Inner A → Inner A)
      → (Inner A → Inner A)
      → ℕ
      → BwosWorker A
      → Option (Option A × BwosWorker A)
  pop_loop early late zero w = none
  pop_loop early late (suc fuel) w =
      let round = pop_block early late w.inner w.owner_block in
      let back = pop_loop early late fuel (record w { owner_block = w.owner_block - 1 }) in
      elim round [
        | stop out inner ↦ some (out, record w { inner = inner })
        | step_back ↦ back
        | again inner ↦ pop_loop early late fuel (record w { inner = inner })
      ]

  -- `steal`: the scan of the produced blocks from `blk` on, `n` of them. `others` is what happens between
  -- the loads and the compare-exchange.
  unfoldable pub steal_scan : (Inner A → Inner A) → ℕ → ℕ → Inner A → Steal A × Inner A
  steal_scan others zero blk inner = (empty, inner)
  steal_scan others (suc n) blk inner =
      let block = block_at inner blk in
      let t = block.stolen in
      let later = steal_scan others n (blk + 1) inner in
      if leb block.committed t
      then later
      else let bits = slots_read block t in
        let left = others inner in
        if compare_exchange (block_at left blk).stolen t
        then (taken bits, set_block left blk (record (block_at left blk) { stolen = t + 1 }))
        else (retry, left)

  unfoldable pub steal : (Inner A → Inner A) → Inner A → Steal A × Inner A
  unfolding steal_scan
  steal others inner = steal_scan others inner.produced_blocks 0 inner
