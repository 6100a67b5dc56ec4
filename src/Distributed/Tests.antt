-- ===== src/Distributed/Tests.antt =====
-- The theorems on the distributed runtime at one node that runs one task.
use ws_deque.Base.{ℕ, zero, suc, ◌+◌, ◌%◌, ◌≡◌, refl, false, List, [], ◌∷◌, arith, word}
use ws_deque.Distributed.{Node, System, advance, run, returned, seed_rng}
use ws_deque.Distributed.Weight.{total, held}
use ws_deque.Distributed.Conserve.{alive_tasks}
use ws_deque.Distributed.Done.{Reach, start, later, run_conserves, returned_done}

-- A task emits none.
abbrev none_emitted : ℕ → List ℕ
none_emitted _ = []

abbrev after : ℕ → System ℕ
after zero = run 1 (5 ∷ [])
after (suc k) = advance none_emitted (after k) 0

abbrev same_task : ℕ → ℕ
same_task x = x

unfoldable run_one : Reach none_emitted 1 (5 ∷ []) (after 4)
unfolding advance run
run_one =
    later 0
      (later 0 (later 0 (later 0 (start refl) (omega arith) refl) (omega arith) refl) (omega arith)
        refl)
      (omega arith) refl

all_done : Reach none_emitted 1 (5 ∷ []) (after 7)
unfolding advance run
all_done =
    later 0 (later 0 (later 0 run_one (omega arith) refl) (omega arith) refl) (omega arith) refl

run_conserves_example :
    (total same_task (after 4).emitted
      ≡ total same_task (after 4).executed + total (held same_task) (after 4).nodes)
    × ((after 4).global.outstanding ≡ alive_tasks (after 4) % word)
run_conserves_example = run_conserves same_task run_one

last_node : Node ℕ
last_node = record { rx = []; local = []; rng = seed_rng 0; pending_request = false; pc = returned }

returned_done_example :
    (alive_tasks (after 7) ≡ 0)
    × (total same_task (after 7).emitted ≡ total same_task (after 7).executed)
unfolding advance run last_node
returned_done_example = returned_done same_task 0 last_node all_done refl refl
