-- ===== src/Bwos/Unbounded/Tests.antt =====
-- The unbounded block queue at concrete queues.
use ws_deque.Base.{ℕ, ◌≡◌, refl, Option, none, some, List, [], ◌∷◌, arith, false}
use ws_deque.Deque.Steal
use ws_deque.Deque.Stealer.{taken}
use ws_deque.Deque.Spec.{Op, run_list}
use ws_deque.Bwos.Put.{contents}
use ws_deque.Bwos.Unbounded.{
  Inner, UnboundedBwosWorker, UnboundedBwosStealer, new_block, stealer, put, fill, link_fresh,
  block_at, set_block, slots_write, slots_read, pop, pop_block, steal, steal_walk, drop_inner,
  drop_blocks,
}
use ws_deque.Bwos.Unbounded.Chain.{view, Chained-one}
use ws_deque.Bwos.Unbounded.Hold.{Holds}
use ws_deque.Bwos.Unbounded.Front.{Stolen, steal_walk-Holds}
use ws_deque.Bwos.Unbounded.Calls.{run, one_block, with_block_size-Holds, run-run_list}

-- Blocks of one slot.
abbrev tiny : UnboundedBwosWorker ℕ
tiny = one_block 1

tiny-Holds : Holds tiny (0 ∷ []) 0 []
tiny-Holds = (with_block_size-Holds 1 (omega arith)).1

abbrev calls : List (Op ℕ)
calls =
    Op.push 7
    ∷ Op.push 8
    ∷ Op.push 9
    ∷ Op.pop
    ∷ Op.steal
    ∷ Op.push 5
    ∷ Op.pop
    ∷ Op.pop
    ∷ Op.pop
    ∷ []

-- The same calls, evaluated.
run-calls :
    run tiny calls ≡ none ∷ none ∷ none ∷ some 9 ∷ some 7 ∷ none ∷ some 5 ∷ some 8 ∷ none ∷ []
unfolding run put fill link_fresh block_at set_block slots_write slots_read new_block pop pop_block
    steal steal_walk stealer Steal.value taken
run-calls = refl

run-run_list_example : run tiny calls ≡ run_list false [] calls
run-run_list_example = run-run_list calls tiny (0 ∷ []) 0 [] tiny-Holds

-- Two values in one block of four slots.
abbrev half : UnboundedBwosWorker ℕ
half = record {
  inner = record {
    memory =
        record {
          slots = some 7 ∷ some 8 ∷ none ∷ none ∷ [];
          committed = 2;
          stolen = 0;
          next = none;
          prev = none;
        }
        ∷ [];
    head = 0;
    block_size = 4;
  };
  owner_block = 0;
}

half-Holds : Holds half (0 ∷ []) 0 (7 ∷ 8 ∷ [])
unfolding view block_at contents
half-Holds = record {
  linked = record {
    links = Chained-one _ refl refl;
    first = refl;
    positive = omega arith;
    sized = omega arith;
  };
  here = refl;
  behind = tt;
  held = refl;
}

steal_walk-Holds_example : Stolen (steal_walk (λ i. i) 1 0 half.inner) half (0 ∷ []) 0 (7 ∷ 8 ∷ [])
steal_walk-Holds_example =
    steal_walk-Holds 1 0 0 half (0 ∷ []) 0 (7 ∷ 8 ∷ []) half-Holds refl tt (omega arith)

-- A thief handle that has walked on to the second block when the owner, back in the first one, replaces it.
abbrev walked : Option (Steal.Steal ℕ × UnboundedBwosStealer × Inner ℕ)
walked =
    let two = (put (put tiny 7).1 8).1 in
    elim (steal (λ i. i) 2 two.inner (stealer two.inner)) [
      | none ↦ none
      | some (r, thief, inner) ↦ steal (λ i. i) 2 inner thief
    ]

-- The owner finds the queue empty, and puts one more value: the thief never sees it.
abbrev stranded : Option (Steal.Steal ℕ × List (Option ℕ) × List ℕ)
stranded = elim walked [
  | none ↦ none
  | some (r, thief, inner) ↦
      elim (pop (λ i. i) (λ i. i) 2 (record { inner = inner; owner_block = 1 })) [
        | none ↦ none
        | some (out, w) ↦
            let w' = (put w 9).1 in
            elim (steal (λ i. i) 3 w'.inner thief) [
              | none ↦ none
              | some (r', thief', inner') ↦
                  some (r', contents (view inner'.memory (0 ∷ 2 ∷ [])), drop_inner inner')
            ]
      ]
]

stranded_reached : stranded ≡ some (Steal.empty, some 9 ∷ [], 0 ∷ 2 ∷ [])
unfolding put fill link_fresh block_at set_block slots_write slots_read new_block pop pop_block
    steal steal_walk stealer taken contents view drop_inner drop_blocks
stranded_reached = refl
