-- ===== src/Lib.antt =====
-- Verification of ws-deque, a library of work-stealing queues: one owner thread pushes and pops tasks,
-- other threads steal them.
--
-- The program's parts, each with the files that model it:
--
-- * src/lib.rs, the Chase-Lev deque. Deque/Buffer is the circular buffer (`Buffer`), Deque/Inner the
--   shared state with the buffer's installation, retirement and reclamation (`Inner`), Deque/Worker the
--   owner (`Worker::push`, `pop_lifo`, `perhaps_shrink`) and the steal that the FIFO pop shares with the
--   thieves (`steal_from`), Deque/Stealer the thieves' handle, the batch steals and the FIFO pop.
--   Deque/Rep states the invariant, Deque/Slots, Deque/Pow, Deque/Push, Deque/Take, Deque/Batch and
--   Deque/Refine prove what the operations do, and Deque/Spec is the list they are measured against.
--   Deque/Threads has the owner and the thieves at work at once, Deque/Shared the invariant,
--   Deque/OwnerSteps, Deque/OwnerPop, Deque/ThiefSteps and Deque/Acts its preservation, and Deque/Once the
--   states they reach. There `push` is one step, the LIFO `pop` three and `steal_from` five; a FIFO owner's pop is one
--   more thief, and the batch steals take no part.
-- * src/priority.rs, a pool of one deque for each priority (Priority, Priority/Order). It uses the deque
--   through the theorems of Deque/Refine and Deque/Push.
-- * src/persistent.rs, a durable queue on a simulated persistent memory (Persistent,
--   Persistent/Recovery).
-- * src/race.rs, the detection of determinacy races in a series-parallel program (Race). Race/Labels is
--   the lowest common ancestor and Race/Walk the two labelling passes; Race/Group and
--   Race/Report the search for pairs of accesses that race.
-- * src/bwos.rs, the queues of blocks. Bwos is the bounded one; Bwos/Put and Bwos/Keep are its `put`,
--   Bwos/Take its `pop` and `steal`, and Bwos/Ends and Bwos/Held the two ends of a list of blocks, for both
--   queues. Bwos/Unbounded is the module `unbounded`, on a store of blocks in which a pointer is an index:
--   Bwos/Unbounded/Chain is the blocks linked from the head on, Bwos/Unbounded/Fresh what a fresh block
--   does to them, Bwos/Unbounded/Hold, Back and Front are `put`, `pop` and `steal`, and
--   Bwos/Unbounded/Calls a sequence of them.
-- * src/idempotent.rs, the queue with multiplicity. Idempotent has the owner's and the three thieves'
--   operations, Idempotent/Copy and Idempotent/Wrote what the array holds, Idempotent/Calls and
--   Idempotent/Fifo the operations one after another, Idempotent/Threads the steps of exclusive thieves and
--   Idempotent/Exclusive what they win, Idempotent/Takers the steps of the owner and of plain thieves and
--   Idempotent/Deliver what they are handed.
-- * src/distributed.rs, the runtime of nodes that pass messages. Distributed has the steps of a node's
--   loop, Distributed/Weight sums over nodes and messages, Distributed/Conserve and Distributed/Messages
--   the invariant, and Distributed/Done the start and the states that are reached.
-- * src/jiffy.rs, the queue of many producers and one consumer. Jiffy has the steps of `enqueue` and
--   `dequeue`, Jiffy/Flat the chain of buffers as one sequence of slots, Jiffy/Order the invariant,
--   Jiffy/Steps, Jiffy/Fill and Jiffy/Dequeue its preservation, and Jiffy/Fifo the states reached.
-- * src/inline.rs, the deque that keeps small values in its cells (Inline). Inline/Bits is the packing,
--   Inline/Encode relates its buffers to those of the Chase-Lev deque, and Inline/Refine its calls, by
--   the theorems of Deque/Push and Deque/Take.
-- * src/linked.rs, the queue with multiplicity on a chain of nodes (Linked). Linked/Chain is the chain as
--   one sequence of cells, Linked/Stored what it holds and `put`, Linked/Look what a consumer sees at the
--   head, Linked/Free the drop, Linked/Threads the steps of the owner and of the thieves, and Linked/Sound
--   and Linked/Deliver what holds in every state they reach. There a put is one step, and a take or a
--   steal two.
-- * src/scheduler.rs, the lifeline scheduler. Scheduler has the lifelines, the requests along them and the
--   heartbeat; Scheduler/Cube and Scheduler/Degree prove what the lifelines are, Scheduler/Requests what
--   registering leaves, and Scheduler/Heartbeat how many spawns become tasks. Scheduler/Workers is the loop
--   of the workers (`worker_main`) in steps that may follow one another in any order, on deques and inboxes
--   that are lists; Scheduler/Alive, Scheduler/Steps and Scheduler/Finish prove what holds in the states
--   that they reach, and Scheduler/Victims is the choice of victims in `try_steal`.
--
-- The state of a component is a record with the source's fields, and an operation returns the new state
-- beside its result. Where the code runs against other threads, an argument such as `others` is what
-- they do to the shared state between a load and the compare-exchange after it; a theorem without such
-- an argument, and not on the states that threads reach step by step, is about calls that run one after
-- another.
--
-- Bounds. An index is a `usize` of 64 bits, written out modulo `2 ^ 64`, and a difference of indices
-- is read as an `isize` where the code does so. A deque holds at most `2 ^ 61` elements, so that a
-- buffer's capacity, a power of two, stays at most `2 ^ 62` and a difference of indices is never
-- negative by overflow; a machine's memory is exhausted before that. The loop of the block queue's
-- `pop` and the two loops of the unbounded one run on fuel; as many rounds as there are blocks are
-- proved to be enough. An index of src/idempotent.rs or src/linked.rs is below the number of cells in
-- memory and does not wrap. The theorems on src/distributed.rs and on the workers of src/scheduler.rs
-- are about states with fewer than `2 ^ 64` tasks, since their counters wrap there, and those on the
-- threads of src/lib.rs about at most `2 ^ 61` steps. The loop over the lifelines runs on fuel of 64
-- rounds, one for each bit of a `usize`, and Scheduler/Degree proves that they are enough.
--
-- Not modelled: the memory orderings and fences (every step here is sequentially consistent), the
-- padding to cache lines, the packing of a block's bits, the allocator, and the statistics that no
-- operation reads. Nor are the inline calls
-- of `spawn_or_call` and poisoned mutexes. A step of the workers of src/scheduler.rs, such as a spawn
-- with its count and its signal, is one; lifeline requests are modelled apart from these steps.
pub mod Base
pub mod Deque
pub mod Persistent
pub mod Priority
pub mod Race
pub mod Bwos
pub mod Distributed
pub mod Idempotent
pub mod Inline
pub mod Jiffy
pub mod Linked
pub mod Scheduler
