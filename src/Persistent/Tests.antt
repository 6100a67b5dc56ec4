-- ===== src/Persistent/Tests.antt =====
-- The durable queue's theorems at concrete runs.
use ws_deque.Base.{◌≡◌, refl, List, [], ◌∷◌}
use ws_deque.Persistent.{
  create, enqueue, enqueue_unsynced, crash_now, recover, dequeue, without_front,
}
use ws_deque.Persistent.Recovery.{
  Op, enq, deq, enq_unsynced, crashes, recovers, run, step, promise_run, promise_step, promise_deq,
  nothing,
}

-- Two synced enqueues, a dequeue, and an enqueue that is never flushed.
abbrev script : List Op
script = enq 1 ∷ enq 2 ∷ deq ∷ enq_unsynced 3 ∷ []

recovered : (recover (crash_now (run create script))).0 ≡ 2 ∷ []
unfolding run create step recover crash_now enqueue dequeue enqueue_unsynced
recovered = refl

-- A crash and a recovery, and then a recovery that no crash precedes: the unsynced task is hidden, and the
-- next synced enqueue makes it safe.
abbrev restarts : List Op
restarts = enq 4 ∷ crashes ∷ recovers ∷ deq ∷ enq_unsynced 1 ∷ recovers ∷ enq 2 ∷ []

hidden : (promise_run nothing restarts).seen ≡ 2 ∷ []
unfolding promise_run promise_step promise_deq without_front
hidden = refl

kept : (promise_run nothing restarts).safe ≡ 1 ∷ 2 ∷ []
unfolding promise_run promise_step promise_deq without_front
kept = refl
