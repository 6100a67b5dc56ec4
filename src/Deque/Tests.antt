-- ===== src/Deque/Tests.antt =====
-- The deque's theorems at concrete deques, and runs of its code.
use ws_deque.Base.{ℕ, ◌-◌, ◌^◌, ◌≡◌, refl, none, some, List, [], ◌∷◌, arith, false}
use ws_deque.Deque.Buffer.{read, write, grow}
use ws_deque.Deque.Inner.{drop_inner}
use ws_deque.Deque.Steal
use ws_deque.Deque.Steal.{empty, retry, success}
use ws_deque.Deque.Worker.{
  Worker, push, with_start_index, refresh_top, ensure_room, perhaps_shrink, pop_lifo, pop_last,
}
use ws_deque.Deque.Stealer
use ws_deque.Deque.Stealer.{steal_from, steal_batch, steal_batch_and_pop}
use ws_deque.Deque.Rep.{Owns}
use ws_deque.Deque.Push.{push-Owns}
use ws_deque.Deque.Spec.{Op, run, run_list}
use ws_deque.Deque.Refine.{with_start_index-Owns, run_refines}
use ws_deque.Deque.Batch.{Moved, steal_batch-Moved, steal_batch_and_pop-Moved, drop_inner-Rep}

-- Two slots, and indices that are about to pass `isize::MAX`.
abbrev start : Worker ℕ
start = with_start_index 1 (2 ^ 63 - 1)

start-Owns : Owns start []
start-Owns = with_start_index-Owns 1 (2 ^ 63 - 1) (omega arith) (omega arith)

abbrev three : Worker ℕ
three = push (push (push start 7) 8) 9

three-Owns : Owns three (7 ∷ 8 ∷ 9 ∷ [])
three-Owns =
    push-Owns 9 (push-Owns 8 (push-Owns 7 start-Owns (omega arith)) (omega arith)) (omega arith)

abbrev calls : List (Op ℕ)
calls = Op.push 7 ∷ Op.push 8 ∷ Op.push 9 ∷ Op.pop ∷ Op.steal ∷ Op.pop ∷ Op.pop ∷ []

-- The same calls, evaluated.
run-calls : run start calls ≡ none ∷ none ∷ none ∷ some 9 ∷ some 7 ∷ some 8 ∷ none ∷ []
unfolding run push with_start_index refresh_top ensure_room perhaps_shrink pop_lifo pop_last
    steal_from read write grow Stealer.pop Stealer.pop_fifo Steal.value
run-calls = refl

run_refines_example : run start calls ≡ run_list false [] calls
unfolding with_start_index
run_refines_example = run_refines calls [] start-Owns (omega arith)

push-Owns_example : Owns (push three 4) (7 ∷ 8 ∷ 9 ∷ 4 ∷ [])
push-Owns_example = push-Owns 4 three-Owns (omega arith)

steal_batch-Moved_example :
    let (r, victim, dest) = steal_batch three.inner start in
    (r ≡ success tt) × Moved 2 (7 ∷ 8 ∷ 9 ∷ []) [] victim dest
steal_batch-Moved_example =
    steal_batch-Moved 7 (8 ∷ 9 ∷ []) [] three-Owns.rep start-Owns (omega arith)

steal_batch_and_pop-Moved_example :
    let (r, victim, dest) = steal_batch_and_pop three.inner start in
    (r ≡ success 7) × Moved 1 (8 ∷ 9 ∷ []) [] victim dest
steal_batch_and_pop-Moved_example =
    steal_batch_and_pop-Moved 7 (8 ∷ 9 ∷ []) [] three-Owns.rep start-Owns (omega arith)

drop_inner-Rep_example : drop_inner three.inner ≡ 7 ∷ 8 ∷ 9 ∷ []
drop_inner-Rep_example = drop_inner-Rep three-Owns.rep
