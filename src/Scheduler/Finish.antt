-- ===== src/Scheduler/Finish.antt =====
-- src/scheduler.rs: what holds in the states that the workers reach; a worker returns only when every task
-- was run.
use ws_deque.Base.{
  ℕ, zero, suc, ◌+◌, ◌%◌, ◌<◌, ◌≡◌, refl, sym, ◌∙◌, ap, Option, List, [], ◌∷◌, arith, word, length,
  length-replicate, max, replicate,
}
use ws_deque.Distributed.Weight.{total, total-none, one}
use ws_deque.Distributed.{seed}
use ws_deque.Distributed.Done.{total-seed}
use ws_deque.Scheduler.Workers.{Worker, Shared, Step, take_step, start_workers, start}
use ws_deque.Scheduler.Alive.{held, busy, gone, alive, stopped, Conserved}
use ws_deque.Scheduler.Steps.{take_step-Conserved}

module _ {ℓ} {A : Type ℓ} (children : A → List (A × Option ℕ)) where
  -- The states that the workers reach, with fewer than 2 ^ 64 tasks at once.
  pub data Reach (first : Shared A) : Shared A → Type ℓ where
    starts : Reach first first
    acts :
        {s : Shared A} (step : Step)
        → Reach first s
        → alive s < word
        → Reach first (take_step children s step)

  reach-Conserved : {first s : Shared A} → Conserved first → Reach first s → Conserved s
  reach-Conserved c starts = c
  reach-Conserved c (acts {s} step r small) =
      take_step-Conserved children s step (reach-Conserved c r) small

module _ {ℓ} {A : Type ℓ} where
  total-start_workers :
      (f : A → ℕ) (seeds : List (List A))
      → total (held f) (start_workers seeds) ≡ total (total f) seeds
  unfolding start_workers
  total-start_workers f [] = refl
  total-start_workers f (tasks ∷ seeds) = omega (arith, total-start_workers f seeds)

  idle-start_workers :
      (seeds : List (List A))
      → (total busy (start_workers seeds) ≡ 0) × (total gone (start_workers seeds) ≡ 0)
  unfolding start_workers
  idle-start_workers [] = (refl, refl)
  idle-start_workers (tasks ∷ seeds) =
      let (b, g) = idle-start_workers seeds in (omega (arith, b), omega (arith, g))

  total-empty : (f : A → ℕ) (n : ℕ) → total (total f) (replicate n []) ≡ 0
  total-empty f zero = refl
  total-empty f (suc n) = omega (arith, total-empty f n)

  total-count : (xs : List A) → total one xs ≡ length xs
  total-count [] = refl
  total-count (x ∷ xs) = omega (arith, total-count xs)

  start-Conserved : (workers : ℕ) (initial : List A) → Conserved (start workers initial)
  unfolding start
  start-Conserved workers initial =
      let n = max workers 1 in
      let seeds = seed n 0 initial (replicate n []) in
      let dealt = λ (f : A → ℕ).
        total-start_workers f seeds
        ∙ total-seed f n 0 initial (replicate n []) (omega arith) (length-replicate n []) in
      let (b, g) = idle-start_workers seeds in
      let all : alive (start workers initial) ≡ length initial =
        omega (arith, dealt one, total-empty one n, b, total-count initial) in
      record {
        flow = λ f. omega (arith, dealt f, total-empty f n);
        counted = ap (λ a. a % word) (sym all);
        quiet = λ z. absurd (omega (arith, g));
      }

  -- Whatever the order of the workers' steps, with fewer than 2 ^ 64 tasks at once, no task is lost or run
  -- twice: any weight of the tasks seeded or spawned is that of the tasks handed to the closure plus that of
  -- the tasks in deques and inboxes, and the counter of outstanding tasks is the number of those that wait
  -- or are being run.
  pub reach_counts :
      (children : A → List (A × Option ℕ)) (workers : ℕ) (initial : List A) (s : Shared A)
      → Reach children (start workers initial) s
      → ((f : A → ℕ) → total f s.spawned ≡ total f s.executed + total (held f) s.workers)
        × (s.outstanding ≡ alive s % word)
  reach_counts children workers initial s r =
      let c = reach-Conserved children (start-Conserved workers initial) r in (c.flow, c.counted)

  nothing_held :
      (f : A → ℕ) (ws : List (Worker A)) → total (held one) ws ≡ 0 → total (held f) ws ≡ 0
  nothing_held f [] z = refl
  nothing_held f (w ∷ ws) z = omega (
    arith,
    total-none f w.deque (omega arith),
    total-none f w.inbox (omega arith),
    nothing_held f ws (omega arith),
  )

  -- Whatever that order, once a worker has returned or termination was declared, no task waits or is being
  -- run anywhere, and each task seeded or spawned was handed to the closure once.
  pub stopped_all :
      (children : A → List (A × Option ℕ)) (workers : ℕ) (initial : List A) (s : Shared A)
      → Reach children (start workers initial) s
      → 0 < stopped s
      → (alive s ≡ 0) × ((f : A → ℕ) → total f s.spawned ≡ total f s.executed)
  stopped_all children workers initial s r over =
      let c = reach-Conserved children (start-Conserved workers initial) r in
      let z = c.quiet over in
      (z, λ f. omega (arith, c.flow f, nothing_held f s.workers (omega (arith, z))))
