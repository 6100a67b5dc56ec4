-- ===== src/Scheduler/WorkerTests.antt =====
-- The workers of the scheduler in a concrete order of steps.
use ws_deque.Base.{
  ℕ, ◌+◌, ◌<◌, ◌%◌, ◌≡◌, refl, true, Option, some, List, [], ◌∷◌, arith, word, if◌then◌else◌, ◌==◌,
}
use ws_deque.Distributed.{seed}
use ws_deque.Distributed.Weight.{total}
use ws_deque.Deque.Spec.{pop_back}
use ws_deque.Scheduler.Workers.{
  Shared, runs, steals, put_worker, signal_work, spawn_at, finish_task, advance, steal_one, steal,
  take_step, start_workers, start,
}
use ws_deque.Scheduler.Alive.{held, alive, stopped}
use ws_deque.Scheduler.Finish.{Reach, starts, acts, reach_counts, stopped_all}

-- Task 1 spawns task 2 with a hint for worker 0.
abbrev children : ℕ → List (ℕ × Option ℕ)
children task = if task == 1 then (2, some 0) ∷ [] else []

abbrev first : Shared ℕ
first = start 2 (1 ∷ [])

-- Worker 1 finds nothing of its own, steals task 1 from worker 0, and deposits task 2 in its inbox.
abbrev s1 : Shared ℕ
s1 = take_step children first (runs 1)

abbrev s2 : Shared ℕ
s2 = take_step children s1 (runs 1)

abbrev s3 : Shared ℕ
s3 = take_step children s2 (steals 1 0 0)

abbrev s4 : Shared ℕ
s4 = take_step children s3 (runs 1)

-- It ends; worker 0 moves task 2 to its deque, runs it, and declares termination.
abbrev s5 : Shared ℕ
s5 = take_step children s4 (runs 1)

abbrev s6 : Shared ℕ
s6 = take_step children s5 (runs 0)

abbrev s7 : Shared ℕ
s7 = take_step children s6 (runs 0)

abbrev s8 : Shared ℕ
s8 = take_step children s7 (runs 0)

abbrev s9 : Shared ℕ
s9 = take_step children s8 (runs 0)

s4-deposits : alive s4 ≡ 2
unfolding take_step advance steal steal_one spawn_at put_worker signal_work start start_workers seed
    pop_back
s4-deposits = refl

s9-stopped : (s9.terminated ≡ true) × (s9.executed ≡ 2 ∷ 1 ∷ [])
unfolding take_step advance steal steal_one spawn_at put_worker signal_work finish_task start
    start_workers seed pop_back
s9-stopped = (refl, refl)

reached : Reach children first s9
unfolding take_step advance steal steal_one spawn_at put_worker signal_work finish_task start
    start_workers seed pop_back
reached =
    let r4 : Reach children first s4 =
      acts (runs 1)
        (acts (steals 1 0 0) (acts (runs 1) (acts (runs 1) starts (omega arith)) (omega arith))
          (omega arith))
        (omega arith) in
    acts (runs 0)
      (acts (runs 0)
        (acts (runs 0) (acts (runs 0) (acts (runs 1) r4 (omega arith)) (omega arith)) (omega arith))
        (omega arith))
      (omega arith)

reach_counts_example :
    ((f : ℕ → ℕ) → total f s9.spawned ≡ total f s9.executed + total (held f) s9.workers)
    × (s9.outstanding ≡ alive s9 % word)
reach_counts_example = reach_counts children 2 (1 ∷ []) s9 reached

over : 0 < stopped s9
unfolding take_step advance steal steal_one spawn_at put_worker signal_work finish_task start
    start_workers seed pop_back
over = omega arith

stopped_all_example : (alive s9 ≡ 0) × ((f : ℕ → ℕ) → total f s9.spawned ≡ total f s9.executed)
stopped_all_example = stopped_all children 2 (1 ∷ []) s9 reached over
