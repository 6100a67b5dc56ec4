-- ===== src/Persistent.antt =====
-- src/persistent.rs: the simulated non-volatile memory and the durable FIFO queue over it.
pub mod Recovery
mod Tests
use ws_deque.Base.{
  ℕ, suc, ◌+◌, Option, none, some, List, [], ◌∷◌, ◌++◌, Bool, true, false, length, ◌==◌,
}

pub data Record : Type 0 where
  enqueued : ℕ → Record
  dequeued : Record

pub record PersistentMemory : Type 0 where
  pub durable : List Record
  pub volatile : List Record
  pub psyncs : ℕ

unfoldable pub fresh_memory : PersistentMemory
fresh_memory = record { durable = []; volatile = []; psyncs = 0 }

unfoldable pub pwb : PersistentMemory → Record → PersistentMemory
pwb mem r = record mem { volatile = mem.volatile ++ r ∷ [] }

unfoldable pub psync : PersistentMemory → PersistentMemory
psync mem = record mem {
  durable = mem.durable ++ mem.volatile;
  volatile = [];
  psyncs = mem.psyncs + 1;
}

unfoldable pub crash : PersistentMemory → PersistentMemory
crash mem = record mem { volatile = [] }

pub record PersistentQueue : Type 0 where
  pub mem : PersistentMemory
  pub live : List ℕ

unfoldable pub create : PersistentQueue
unfolding fresh_memory
create = record { mem = fresh_memory; live = [] }

unfoldable pub enqueue : PersistentQueue → ℕ → PersistentQueue
unfolding pwb psync
enqueue q value = record { mem = psync (pwb q.mem (enqueued value)); live = q.live ++ value ∷ [] }

-- `dequeue`, on the front that `pop_front` finds.
unfoldable pub dequeue_front : PersistentMemory → List ℕ → Option ℕ × PersistentQueue
unfolding pwb psync
dequeue_front mem [] = (none, record { mem = mem; live = [] })
dequeue_front mem (value ∷ rest) =
    (some value, record { mem = psync (pwb mem dequeued); live = rest })

unfoldable pub dequeue : PersistentQueue → Option ℕ × PersistentQueue
unfolding dequeue_front
dequeue q = dequeue_front q.mem q.live

unfoldable pub enqueue_unsynced : PersistentQueue → ℕ → PersistentQueue
unfolding pwb
enqueue_unsynced q value = record { mem = pwb q.mem (enqueued value); live = q.live ++ value ∷ [] }

unfoldable pub crash_now : PersistentQueue → PersistentQueue
unfolding crash
crash_now q = record { mem = crash q.mem; live = [] }

-- `pop_front` of a `VecDeque`, its result dropped.
unfoldable pub without_front : List ℕ → List ℕ
without_front [] = []
without_front (x ∷ xs) = xs

-- The replay loop of `recover`, from the contents rebuilt so far.
unfoldable pub replay : List ℕ → List Record → List ℕ
unfolding without_front
replay rebuilt [] = rebuilt
replay rebuilt (enqueued v ∷ log) = replay (rebuilt ++ v ∷ []) log
replay rebuilt (dequeued ∷ log) = replay (without_front rebuilt) log

unfoldable pub recover : PersistentQueue → List ℕ × PersistentQueue
unfolding replay
recover q = let rebuilt = replay [] q.mem.durable in (rebuilt, record q { live = rebuilt })

unfoldable pub len : PersistentQueue → ℕ
len q = length q.live

unfoldable pub is_empty : PersistentQueue → Bool
is_empty q = length q.live == 0

unfoldable pub psync_count : PersistentQueue → ℕ
psync_count q = q.mem.psyncs
