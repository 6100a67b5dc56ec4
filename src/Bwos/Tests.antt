-- ===== src/Bwos/Tests.antt =====
-- The block-based queue's theorems at concrete queues, and the run that loses a value.
use ws_deque.Base.{ℕ, ◌≡◌, refl, some, none, true, [], ◌∷◌, arith}
use ws_deque.Bwos.{
  BwosWorker, Block, with_blocks, put, fill, pop_loop, pop_block, steal, steal_scan, new_block,
}
use ws_deque.Bwos.Take.{Queued, Popped, Stolen, pop_loop-Queued, steal-Queued}
use ws_deque.Bwos.Keep.{put-Queued}
use ws_deque.Bwos.Put.{IsValid, contents, put-loses}

-- Two blocks of one slot, both filled once and stolen from.
abbrev used_block : ℕ → Block ℕ
used_block v = record { slots = some v ∷ []; committed = 1; stolen = 1 }

abbrev drained : BwosWorker ℕ
drained = record {
  inner = record { blocks = used_block 1 ∷ used_block 2 ∷ []; block_size = 1; produced_blocks = 2 };
  owner_block = 0;
}

drained-IsValid : IsValid drained
drained-IsValid = record {
  positive = omega arith;
  owner_in = omega arith;
  sized = omega arith;
  behind = omega arith;
}

-- The state after `put(1)`, `put(2)`, two steals and a pop that finds the queue empty.
abbrev start : BwosWorker ℕ
start = record {
  inner = record { blocks = new_block 1 ∷ new_block 1 ∷ []; block_size = 1; produced_blocks = 1 };
  owner_block = 0;
}

with_blocks-start : with_blocks 2 1 ≡ some start
unfolding with_blocks
with_blocks-start = refl

abbrev both_stolen : BwosWorker ℕ
both_stolen =
    let w = (put (put start 1).1 2).1 in
    record w { inner = (steal (λ i. i) (steal (λ i. i) w.inner).1).1 }

drained_reached : pop_loop (λ i. i) (λ i. i) 3 both_stolen ≡ some (none, drained)
unfolding put fill steal steal_scan pop_loop pop_block new_block
drained_reached = refl

put-loses_example :
    ((put drained 3).0 ≡ true)
    × (contents (put drained 3).1.inner.blocks ≡ contents drained.inner.blocks)
put-loses_example = put-loses 3 drained-IsValid refl (omega arith) (omega arith)

-- A fresh queue whose first block is full.
abbrev one_full : BwosWorker ℕ
one_full = record {
  inner = record {
    blocks =
        record { slots = some 1 ∷ []; committed = 1; stolen = 0 }
        ∷ record { slots = none ∷ []; committed = 0; stolen = 0 }
        ∷ [];
    block_size = 1;
    produced_blocks = 1;
  };
  owner_block = 0;
}

one_full-Queued : Queued one_full (1 ∷ [])
unfolding contents
one_full-Queued = record {
  valid = record {
    positive = omega arith;
    owner_in = omega arith;
    sized = omega arith;
    behind = omega arith;
  };
  scanned = omega arith;
  exist = omega arith;
  held = refl;
}

put-Queued_example : ((put one_full 2).0 ≡ true) × Queued (put one_full 2).1 (1 ∷ 2 ∷ [])
put-Queued_example = put-Queued 2 one_full-Queued (λ full. (omega arith, refl))

pop_loop-Queued_example : Popped (pop_loop (λ i. i) (λ i. i) 1 one_full) (1 ∷ [])
pop_loop-Queued_example = pop_loop-Queued 0 1 one_full (1 ∷ []) one_full-Queued refl (omega arith)

steal-Queued_example : Stolen (steal (λ i. i) one_full.inner) one_full (1 ∷ [])
steal-Queued_example = steal-Queued one_full (1 ∷ []) one_full-Queued
