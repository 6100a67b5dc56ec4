-- ===== src/Persistent/Recovery.antt =====
-- What survives a crash of the durable queue.
use ws_deque.Base.{
  ℕ, ◌+◌, ◌≡◌, refl, sym, ◌∙◌, ap, List, [], ◌∷◌, ◌++◌, append-nil, append_assoc, arith,
}
use ws_deque.Persistent.{
  Record, enqueued, dequeued, PersistentMemory, PersistentQueue, enqueue, dequeue, dequeue_front,
  enqueue_unsynced, crash_now, replay, recover, without_front, psync_count,
}

replay-append :
    (a b : List Record) (rebuilt : List ℕ) → replay rebuilt (a ++ b) ≡ replay (replay rebuilt a) b
unfolding replay
replay-append [] b rebuilt = refl
replay-append (enqueued v ∷ a) b rebuilt = replay-append a b (rebuilt ++ v ∷ [])
replay-append (dequeued ∷ a) b rebuilt = replay-append a b (without_front rebuilt)

pub data Op : Type 0 where
  enq : ℕ → Op
  deq : Op
  enq_unsynced : ℕ → Op
  crashes : Op
  recovers : Op

unfoldable pub step : PersistentQueue → Op → PersistentQueue
step q (enq v) = enqueue q v
step q deq = (dequeue q).1
step q (enq_unsynced v) = enqueue_unsynced q v
step q crashes = crash_now q
step q recovers = (recover q).1

unfoldable pub run : PersistentQueue → List Op → PersistentQueue
run q [] = q
run q (op ∷ ops) = run (step q op) ops

-- The promise: the contents that a client sees, what the log holds, and what a crash would leave of it.
pub record Promise : Type 0 where
  pub seen : List ℕ
  pub logged : List ℕ
  pub safe : List ℕ

-- A synced operation makes all that the log holds safe; an unsynced one does not; a dequeue that sees
-- nothing does nothing; a crash empties the view and loses what is not safe; a recovery shows what is
-- safe.
unfoldable pub promise_deq : Promise → List ℕ → Promise
promise_deq p [] = record p { seen = [] }
promise_deq p (_ ∷ rest) = record {
  seen = rest;
  logged = without_front p.logged;
  safe = without_front p.logged;
}

unfoldable pub promise_step : Promise → Op → Promise
unfolding promise_deq
promise_step p (enq v) = record {
  seen = p.seen ++ v ∷ [];
  logged = p.logged ++ v ∷ [];
  safe = p.logged ++ v ∷ [];
}
promise_step p deq = promise_deq p p.seen
promise_step p (enq_unsynced v) = record p { seen = p.seen ++ v ∷ []; logged = p.logged ++ v ∷ [] }
promise_step p crashes = record p { seen = []; logged = p.safe }
promise_step p recovers = record p { seen = p.safe }

unfoldable pub promise_run : Promise → List Op → Promise
promise_run p [] = p
promise_run p (op ∷ ops) = promise_run (promise_step p op) ops

-- The volatile view is what is seen, the whole log replays to what is logged, and its flushed part to what
-- is safe.
pub record Keeps (q : PersistentQueue) (p : Promise) : Type 0 where
  pub seen_live : q.live ≡ p.seen
  pub logged_log : replay [] (q.mem.durable ++ q.mem.volatile) ≡ p.logged
  pub safe_log : replay [] q.mem.durable ≡ p.safe

-- What the log replays to with one more record at its end.
replay-staged :
    (d v : List Record) (r : Record) {xs : List ℕ}
    → replay [] (d ++ v) ≡ xs
    → replay [] (d ++ (v ++ r ∷ [])) ≡ replay xs (r ∷ [])
replay-staged d v r e =
    ap (replay []) (sym (append_assoc d v (r ∷ [])))
    ∙ replay-append (d ++ v) (r ∷ []) []
    ∙ ap (λ l. replay l (r ∷ [])) e

dequeue_front-Keeps :
    (mem : PersistentMemory) (p : Promise) (l : List ℕ)
    → replay [] (mem.durable ++ mem.volatile) ≡ p.logged
    → replay [] mem.durable ≡ p.safe
    → Keeps (dequeue_front mem l).1 (promise_deq p l)
unfolding dequeue_front promise_deq
dequeue_front-Keeps mem p [] e f = record { seen_live = refl; logged_log = e; safe_log = f }
dequeue_front-Keeps mem p (x ∷ rest) e f =
    let g : replay [] (mem.durable ++ (mem.volatile ++ dequeued ∷ [])) ≡ without_front p.logged =
      replay-staged mem.durable mem.volatile dequeued e ∙ (unfold replay in refl) in
    record { seen_live = refl; logged_log = rw append-nil g; safe_log = g }

-- Each operation keeps the queue in step with the promise.
pub step-Keeps :
    {q : PersistentQueue} {p : Promise} (op : Op)
    → Keeps q p
    → Keeps (step q op) (promise_step p op)
unfolding step enqueue dequeue enqueue_unsynced crash_now recover promise_step
step-Keeps {q} {p} (enq v) k =
    let g : replay [] (q.mem.durable ++ (q.mem.volatile ++ enqueued v ∷ [])) ≡ p.logged ++ v ∷ [] =
      replay-staged q.mem.durable q.mem.volatile (enqueued v) k.logged_log
      ∙ (unfold replay in refl) in
    record {
      seen_live = ap (λ l. l ++ v ∷ []) k.seen_live;
      logged_log = rw append-nil g;
      safe_log = g;
    }
step-Keeps {q} {p} deq k =
    rw k.seen_live (dequeue_front-Keeps q.mem p p.seen k.logged_log k.safe_log)
step-Keeps {q} {p} (enq_unsynced v) k = record {
  seen_live = ap (λ l. l ++ v ∷ []) k.seen_live;
  logged_log =
      replay-staged q.mem.durable q.mem.volatile (enqueued v) k.logged_log
      ∙ (unfold replay in refl);
  safe_log = k.safe_log;
}
step-Keeps {q} {p} crashes k = record {
  seen_live = refl;
  logged_log = rw append-nil k.safe_log;
  safe_log = k.safe_log;
}
step-Keeps {q} {p} recovers k = record {
  seen_live = k.safe_log;
  logged_log = k.logged_log;
  safe_log = k.safe_log;
}

pub run-Keeps :
    (ops : List Op) {q : PersistentQueue} {p : Promise}
    → Keeps q p
    → Keeps (run q ops) (promise_run p ops)
unfolding run promise_run
run-Keeps [] k = k
run-Keeps (op ∷ ops) k = run-Keeps ops (step-Keeps op k)

abbrev pub nothing : Promise
nothing = record { seen = []; logged = []; safe = [] }

-- The number of flushes of an operation: one for an enqueue and for a dequeue that finds an
-- element, none otherwise.
unfoldable pub flushes : List ℕ → Op → ℕ
flushes seen (enq v) = 1
flushes [] deq = 0
flushes (_ ∷ _) deq = 1
flushes seen (enq_unsynced v) = 0
flushes seen crashes = 0
flushes seen recovers = 0

-- A call flushes once if it is a synced operation that changes the queue, and never otherwise: an
-- unsynced enqueue, a dequeue that sees nothing, a crash and a recovery leave the count.
psync_count-step :
    (q : PersistentQueue) (op : Op) → psync_count (step q op) ≡ psync_count q + flushes q.live op
unfolding psync_count step enqueue dequeue dequeue_front enqueue_unsynced crash_now recover flushes
psync_count-step q (enq v) = refl
psync_count-step q deq = front q.mem q.live
  where
    front :
        (mem : PersistentMemory) (l : List ℕ)
        → (dequeue_front mem l).1.mem.psyncs ≡ mem.psyncs + flushes l deq
    front mem [] = omega arith
    front mem (x ∷ rest) = refl
psync_count-step q (enq_unsynced v) = omega arith
psync_count-step q crashes = omega arith
psync_count-step q recovers = omega arith
