-- ===== src/Priority/Tests.antt =====
-- The priority pool's theorems at a pool of two levels.
use ws_deque.Base.{ℕ, zero, suc, ◌+◌, ◌≡◌, refl, List, [], ◌∷◌, arith}
use ws_deque.Deque.Inner.{Inner}
use ws_deque.Deque.Worker
use ws_deque.Deque.Worker.{Worker, with_start_index}
use ws_deque.Deque.Spec.{pop_back}
use ws_deque.Deque.Refine.{with_start_index-Owns}
use ws_deque.Priority.{pop, push, steal}
use ws_deque.Priority.Order.{
  push-Holds, Holds, end, level, first_level, append_at, pop-Holds, outcomes, best, steal-best,
}

abbrev fresh : Worker ℕ
fresh = with_start_index 5 0

abbrev empty_pool : List (Worker ℕ)
empty_pool = fresh ∷ fresh ∷ []

empty_pool-Holds : Holds empty_pool ([] ∷ [] ∷ [])
unfolding with_start_index
empty_pool-Holds =
    level (with_start_index-Owns 5 0 (omega arith) (omega arith)) refl (omega arith)
      (level (with_start_index-Owns 5 0 (omega arith) (omega arith)) refl (omega arith) end)

background-Holds : Holds (push empty_pool 7 9) ([] ∷ (7 ∷ []) ∷ [])
background-Holds = unfold append_at in push-Holds 7 9 empty_pool-Holds (omega arith)

pop-Holds_example :
    ((pop (push empty_pool 7 9)).0 ≡ (first_level pop_back ([] ∷ (7 ∷ []) ∷ [])).0)
    × Holds (pop (push empty_pool 7 9)).1 (first_level pop_back ([] ∷ (7 ∷ []) ∷ [])).1
pop-Holds_example = pop-Holds background-Holds

-- The thief of the higher level loses its race, and takes the task of the lower one.
abbrev one_task : Inner ℕ
one_task = (Worker.push fresh 7).inner

abbrev rival : ℕ → Inner ℕ → Inner ℕ
rival zero i = i
rival (suc n) i = record i { top = i.top + 1 }

steal-best_example :
    (steal rival (one_task ∷ one_task ∷ [])).0 ≡ best (outcomes rival (one_task ∷ one_task ∷ []))
steal-best_example = steal-best rival (one_task ∷ one_task ∷ [])
