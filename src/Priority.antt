-- ===== src/Priority.antt =====
-- src/priority.rs: one deque for each of `K` priority levels, level 0 the highest. The array of levels
-- is a list, and `K` its length.
pub mod Order
mod Tests
use ws_deque.Base.{
  ℕ, zero, suc, ◌+◌, ◌-◌, min, Bool, true, false, ◌&&◌, Option, none, some, List, [], ◌∷◌, length,
  replicate, if◌then◌else◌,
}
use ws_deque.Deque.Inner.{Inner}
use ws_deque.Deque.Steal.{Steal, empty, retry, success}
use ws_deque.Deque.Worker
use ws_deque.Deque.Worker.{Worker}
use ws_deque.Deque.Stealer

module _ {ℓ} {A : Type ℓ} where
  -- `PriorityWorker::new`, for `k` levels.
  unfoldable pub create : ℕ → List (Worker A)
  create k = replicate k Worker.create

  unfoldable pub levels : List (Worker A) → ℕ
  levels ws = length ws

  unfoldable pub pool_len : List (Worker A) → ℕ
  pool_len [] = 0
  pool_len (w ∷ ws) = Worker.len w + pool_len ws

  unfoldable pub is_empty : List (Worker A) → Bool
  is_empty [] = true
  is_empty (w ∷ ws) = Worker.is_empty w && is_empty ws

  -- `self.levels[lvl].push(task)`
  unfoldable pub push_at : List (Worker A) → ℕ → A → List (Worker A)
  push_at [] lvl task = []
  push_at (w ∷ ws) zero task = Worker.push w task ∷ ws
  push_at (w ∷ ws) (suc lvl) task = w ∷ push_at ws lvl task

  unfoldable pub push : List (Worker A) → A → ℕ → List (Worker A)
  unfolding push_at
  push ws task level = push_at ws (min level (length ws - 1)) task

  -- The scan stops at the first level that yields a task.
  unfoldable pub pop : List (Worker A) → Option A × List (Worker A)
  pop [] = (none, [])
  pop (w ∷ ws) =
      let (out, w') = Stealer.pop w in
      let (later, ws') = pop ws in
      elim out [ some task ↦ (some task, w' ∷ ws) | none ↦ (later, w' ∷ ws') ]

  -- `PriorityStealer::steal`, from the levels scanned so far; `others` is the interference of other
  -- threads with the steal at each level.
  unfoldable pub scan : (ℕ → Inner A → Inner A) → Bool → List (Inner A) → Steal A × List (Inner A)
  scan others saw_retry [] = (if saw_retry then retry else empty, [])
  scan others saw_retry (d ∷ ds) =
      let (out, d') = Stealer.steal_from (others (length ds)) d in
      let (quiet, quiet_rest) = scan others saw_retry ds in
      let (busy, busy_rest) = scan others true ds in
      elim out [
        | success task ↦ (success task, d' ∷ ds)
        | retry ↦ (busy, d' ∷ busy_rest)
        | empty ↦ (quiet, d' ∷ quiet_rest)
      ]

  unfoldable pub steal : (ℕ → Inner A → Inner A) → List (Inner A) → Steal A × List (Inner A)
  unfolding scan
  steal others ds = scan others false ds
