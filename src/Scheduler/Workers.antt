-- ===== src/Scheduler/Workers.antt =====
-- src/scheduler.rs, the loop of the workers, in steps that may follow one another in any order. A deque and
-- an inbox are the lists that the theorems on them show, oldest first. The victim of a steal and the number
-- of tasks that it moves are chosen by the step; `children` says what a task spawns, each with the worker
-- that `spawn_at` names, if any.
use ws_deque.Base.{
  ℕ, ◌-◌, Bool, true, false, ◌||◌, Option, none, some, List, [], ◌∷◌, ◌++◌, if◌then◌else◌, ◌==◌,
  get_elem?, set, take, drop, length, min, word, wrapping_add, wrapping_sub, ◌%◌, max, replicate,
}
use ws_deque.Distributed.{seed}
use ws_deque.Deque.Spec.{pop_back}

-- Where a worker stands in `worker_main`. `popping` has the flag `did_work`; `running` whether the task was
-- its own, and what the task has yet to spawn; `asleep` the generation that it waits to pass.
pub data Pc {ℓ} (A : Type ℓ) : Type ℓ where
  draining : Pc A
  popping : Bool → Pc A
  running : Bool → List (A × Option ℕ) → Pc A
  stealing : Pc A
  checking : Pc A
  parking : Pc A
  asleep : ℕ → Pc A
  returned : Pc A

pub record Worker {ℓ} (A : Type ℓ) : Type ℓ where
  pub deque : List A
  pub inbox : List A
  pub pc : Pc A

-- `Shared`, with the tasks that were spawned and that were handed to the closure.
pub record Shared {ℓ} (A : Type ℓ) : Type ℓ where
  pub workers : List (Worker A)
  pub outstanding : ℕ
  pub generation : ℕ
  pub terminated : Bool
  pub spawned : List A
  pub executed : List A

-- A step of worker `who`. A steal names its victim and how many tasks it moves besides the one that it
-- takes; `gives_up` is the steal that finds nothing.
pub data Step : Type 0 where
  runs : ℕ → Step
  steals : ℕ → ℕ → ℕ → Step
  gives_up : ℕ → Step

module _ {ℓ} {A : Type ℓ} where
  unfoldable pub put_worker : Shared A → ℕ → Worker A → Shared A
  put_worker s i w = record s { workers = set s.workers i w }

  -- `signal_work`
  unfoldable pub signal_work : Shared A → Shared A
  signal_work s = record s { generation = wrapping_add s.generation 1 }

  -- `Spawner::spawn`
  unfoldable pub spawn : Shared A → ℕ → Worker A → Bool → A → List (A × Option ℕ) → Shared A
  unfolding put_worker signal_work
  spawn s i w own task rest =
      signal_work
        (record (put_worker s i
          (record w { deque = w.deque ++ task ∷ []; pc = running own rest })) {
            outstanding = wrapping_add s.outstanding 1;
            spawned = task ∷ s.spawned;
          })

  -- `Spawner::spawn_at`
  unfoldable pub spawn_at : Shared A → ℕ → Worker A → Bool → A → ℕ → List (A × Option ℕ) → Shared A
  unfolding put_worker signal_work spawn
  spawn_at s i w own task worker rest =
      let target = min worker (length s.workers - 1) in
      if target == i then spawn s i w own task rest else elim (get_elem? s.workers target) [
        | none ↦ s
        | some peer ↦
            signal_work
              (record (put_worker
                (put_worker s target (record peer { inbox = peer.inbox ++ task ∷ [] })) i
                (record w { pc = running own rest })) {
                  outstanding = wrapping_add s.outstanding 1;
                  spawned = task ∷ s.spawned;
                })
      ]

  -- `finish_task`
  unfoldable pub finish_task : Shared A → ℕ → Worker A → Bool → Shared A
  unfolding put_worker
  finish_task s i w own =
      record (put_worker s i (record w { pc = if own then popping true else draining })) {
        outstanding = wrapping_sub s.outstanding 1;
        terminated = s.terminated || (s.outstanding == 1);
      }

  -- `park_until_work_or_done`, up to the wait.
  unfoldable pub park : Shared A → Worker A → Pc A
  park s w =
      if s.terminated
      then returned
      else if s.outstanding == 0
      then returned
      else elim w.inbox [ [] ↦ asleep s.generation | _ ∷ _ ↦ draining ]

  unfoldable pub give_up : Shared A → ℕ → Worker A → Shared A
  unfolding put_worker
  give_up s i w = elim w.pc [ stealing ↦ put_worker s i (record w { pc = checking }) | _ ↦ s ]

module _ {ℓ} {A : Type ℓ} (children : A → List (A × Option ℕ)) where
  -- The next step of worker `i`, but for the steal.
  unfoldable pub advance : Shared A → ℕ → Worker A → Shared A
  unfolding put_worker spawn spawn_at finish_task park
  advance s i w = elim w.pc [
    | draining ↦ elim w.inbox [
      | [] ↦ put_worker s i (record w { pc = popping false })
      | task ∷ rest ↦ put_worker s i (record w { deque = w.deque ++ task ∷ []; inbox = rest })
    ]
    | popping did_work ↦
        let (out, rest) = pop_back w.deque in
        elim out [
          | none ↦ put_worker s i (record w { pc = if did_work then draining else stealing })
          | some task ↦
              record (put_worker s i
                (record w { deque = rest; pc = running true (children task) })) {
                  executed = task ∷ s.executed;
                }
        ]
    | running own [] ↦ finish_task s i w own
    | running own ((task, none) ∷ rest) ↦ spawn s i w own task rest
    | running own ((task, some worker) ∷ rest) ↦ spawn_at s i w own task worker rest
    | stealing ↦ s
    | checking ↦
        if s.outstanding == 0
        then record (put_worker s i (record w { pc = returned })) { terminated = true }
        else put_worker s i (record w { pc = parking })
    | parking ↦ put_worker s i (record w { pc = park s w })
    | asleep generation ↦
        if s.terminated
        then put_worker s i (record w { pc = returned })
        else if s.generation == generation
        then s
        else put_worker s i (record w { pc = draining })
    | returned ↦ s
  ]

  -- `steal_one`, on a victim with a task: the oldest is run, and up to `moved` more go to the thief's deque.
  unfoldable pub steal_one : Shared A → ℕ → Worker A → ℕ → ℕ → Shared A
  unfolding put_worker
  steal_one s i w v moved = if v == i then s else elim (get_elem? s.workers v) [
    | none ↦ s
    | some victim ↦ elim victim.deque [
      | [] ↦ s
      | task ∷ rest ↦
          record (put_worker (put_worker s v (record victim { deque = drop moved rest })) i
            (record w { deque = w.deque ++ take moved rest; pc = running false (children task) })) {
              executed = task ∷ s.executed;
            }
    ]
  ]

  unfoldable pub steal : Shared A → ℕ → Worker A → ℕ → ℕ → Shared A
  unfolding steal_one
  steal s i w v moved = elim w.pc [ stealing ↦ steal_one s i w v moved | _ ↦ s ]

  unfoldable pub take_step : Shared A → Step → Shared A
  unfolding advance steal give_up
  take_step s (runs i) = elim (get_elem? s.workers i) [ none ↦ s | some w ↦ advance s i w ]
  take_step s (steals i v moved) = elim (get_elem? s.workers i) [
    | none ↦ s
    | some w ↦ steal s i w v moved
  ]
  take_step s (gives_up i) = elim (get_elem? s.workers i) [ none ↦ s | some w ↦ give_up s i w ]

module _ {ℓ} {A : Type ℓ} where
  unfoldable pub start_workers : List (List A) → List (Worker A)
  start_workers [] = []
  start_workers (tasks ∷ seeds) =
      record { deque = tasks; inbox = []; pc = draining } ∷ start_workers seeds

  -- `run_with_config`, up to the threads: the initial tasks are dealt round-robin. Dealing is the same as
  -- in src/distributed.rs.
  unfoldable pub start : ℕ → List A → Shared A
  unfolding start_workers
  start workers initial =
      let n = max workers 1 in
      record {
        workers = start_workers (seed n 0 initial (replicate n []));
        outstanding = length initial % word;
        generation = 0;
        terminated = false;
        spawned = initial;
        executed = [];
      }
