-- ===== src/Idempotent/Tests.antt =====
-- The theorems on the queue with multiplicity at small queues.
use ws_deque.Base.{
  Option-cases, inl, inr, none, some, get_or, get_elem?, set, if◌then◌else◌, ℕ, ◌≡◌, refl, true,
  false, List, [], ◌∷◌, ◌++◌, arith,
}
use ws_deque.Idempotent.{
  IdempotentWorker, make, with_len, create_bounded, empty, got, put, fetch_max, array_at, set_array,
  claim_flag, drop_inner,
}
use ws_deque.Idempotent.Threads.{
  idle, System, fresh_thief, returns, exclusive_step, Reach, start, puts, clones, steps, times,
}
use ws_deque.Idempotent.Exclusive.{reach-once}
use ws_deque.Idempotent.Wrote.{Wrote, make-Wrote, put-Stored, Stored, drop_inner-Wrote}
use ws_deque.Idempotent.Fifo.{
  Waiting, run, run_fifo, run-fifo, Op, put_op, take_op, accepted, taken, panicked,
}
use ws_deque.Idempotent.Calls.{by_take, by_steal, by_exclusive, by_weak, allowed}

-- A bounded queue for two tasks.
abbrev two : IdempotentWorker ℕ
two = create_bounded 2

two-Wrote : Wrote two []
unfolding create_bounded
two-Wrote = make-Wrote 4 true 2 (omega arith) (λ _. omega arith)

two-Waiting : Waiting two 0 [] []
unfolding create_bounded make
two-Waiting = record { wrote = two-Wrote; head = refl; register = omega arith }

abbrev calls : List (Op ℕ)
calls =
    put_op 5
    ∷ put_op 6
    ∷ put_op 7
    ∷ take_op by_exclusive
    ∷ take_op by_weak
    ∷ take_op by_steal
    ∷ take_op by_take
    ∷ []

run-calls :
    run_fifo true 2 0 [] calls
    ≡ accepted true
      ∷ accepted true
      ∷ accepted false
      ∷ taken (got 5)
      ∷ taken (got 6)
      ∷ taken empty
      ∷ taken empty
      ∷ []
unfolding run_fifo allowed
run-calls = refl

-- The same calls on a queue that may grow: the exclusive steal panics.
run-panics :
    run_fifo {A = ℕ} false 2 0 [] calls
    ≡ accepted true ∷ accepted true ∷ accepted true ∷ panicked ∷ []
unfolding run_fifo allowed
run-panics = refl

run-fifo_example : run two 0 calls ≡ run_fifo two.inner.bounded two.cap two.tail [] calls
run-fifo_example = run-fifo calls [] [] two-Waiting

one-Stored : ((put two 5).0 ≡ true) × Stored two ([] ++ 5 ∷ []) (put two 5).1
one-Stored = put-Stored 5 two-Wrote (unfold create_bounded make in refl)

drop_inner-Wrote_example : drop_inner (put two 5).1.inner ≡ 5 ∷ []
drop_inner-Wrote_example = drop_inner-Wrote (one-Stored.1).wrote

-- Two thieves load the same head of a queue with one task and read its cell, and both try to claim it.
abbrev begun : System ℕ
begun = record { worker = (put two 5).1; thieves = fresh_thief ∷ fresh_thief ∷ [] }

begun-Reach : Reach 2 begun
begun-Reach = clones (clones (puts 5 start))

-- The `i`-th thief takes a step.
unfoldable stepped : System ℕ → ℕ → System ℕ
unfolding exclusive_step
stepped sys i = elim (get_elem? sys.thieves i) [
  | none ↦ sys
  | some t ↦ record {
    worker = record sys.worker { inner = (exclusive_step sys.worker.inner t).0 };
    thieves = set sys.thieves i (exclusive_step sys.worker.inner t).1;
  }
]

stepped-Reach : (sys : System ℕ) (i : ℕ) → Reach 2 sys → Reach 2 (stepped sys i)
unfolding stepped
stepped-Reach sys i r = elim (Option-cases (get_elem? sys.thieves i)) [
  | inl e ↦ rw (e, stepped) r
  | inr (t, e) ↦ rw (e, stepped) (steps i t r e)
]

unfoldable scheduled : System ℕ → List ℕ → System ℕ
scheduled sys [] = sys
scheduled sys (i ∷ rest) = scheduled (stepped sys i) rest

scheduled-Reach : (order : List ℕ) (sys : System ℕ) → Reach 2 sys → Reach 2 (scheduled sys order)
unfolding scheduled
scheduled-Reach [] sys r = r
scheduled-Reach (i ∷ rest) sys r = scheduled-Reach rest (stepped sys i) (stepped-Reach sys i r)

abbrev raced : System ℕ
raced = scheduled begun (0 ∷ 1 ∷ 0 ∷ 1 ∷ 1 ∷ 0 ∷ 0 ∷ 1 ∷ [])

-- The second one wins it, and the first one returns nothing.
raced-thieves :
    raced.thieves
    ≡ record { pc = idle; returned = [] } ∷ record { pc = idle; returned = (0, 5) ∷ [] } ∷ []
unfolding scheduled stepped exclusive_step returns put create_bounded make with_len claim_flag
    array_at set_array fetch_max
raced-thieves = refl

reach-once_example :
    times 0 raced.thieves ≡ (if get_or raced.worker.inner.tasks.claimed 0 false then 1 else 0)
reach-once_example =
    reach-once 2 (scheduled-Reach (0 ∷ 1 ∷ 0 ∷ 1 ∷ 1 ∷ 0 ∷ 0 ∷ 1 ∷ []) begun begun-Reach) 0
