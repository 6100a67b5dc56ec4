-- ===== src/Deque/Spec.antt =====
-- What the deque promises, seen from its clients: a list of elements, oldest first. The owner adds at
-- the end, takes from the end (or from the front, if it is a FIFO owner), and thieves take from the
-- front.
use ws_deque.Base.{Bool, Option, none, some, List, [], ◌∷◌, ◌++◌, if◌then◌else◌}
use ws_deque.Deque.Steal.{Steal, empty, success}
use ws_deque.Deque.Steal
use ws_deque.Deque.Stealer
use ws_deque.Deque.Worker.{Worker}
use ws_deque.Deque.Worker

-- A call on the deque: by its owner, or by a thief.
pub data Op {ℓ} (A : Type ℓ) : Type ℓ where
  push : A → Op A
  pop : Op A
  steal : Op A

module _ {ℓ} {A : Type ℓ} where
  unfoldable pub pop_back : List A → Option A × List A
  pop_back [] = (none, [])
  pop_back (x ∷ []) = (some x, [])
  pop_back (x ∷ y ∷ ys) = let (out, rest) = pop_back (y ∷ ys) in (out, x ∷ rest)

  unfoldable pub pop_front : List A → Option A × List A
  pop_front [] = (none, [])
  pop_front (x ∷ xs) = (some x, xs)

  -- What the calls return, in order; a push returns nothing.
  unfoldable pub run_list : Bool → List A → List (Op A) → List (Option A)
  run_list fifo xs [] = []
  run_list fifo xs (push v ∷ ops) = none ∷ run_list fifo (xs ++ v ∷ []) ops
  run_list fifo xs (pop ∷ ops) =
      let (out, rest) = if fifo then pop_front xs else pop_back xs in out ∷ run_list fifo rest ops
  run_list fifo xs (steal ∷ ops) = let (out, rest) = pop_front xs in out ∷ run_list fifo rest ops

  -- The same calls on the deque, one after another.
  unfoldable pub run : Worker A → List (Op A) → List (Option A)
  run w [] = []
  run w (push v ∷ ops) = none ∷ run (Worker.push w v) ops
  run w (pop ∷ ops) = let (out, w') = Stealer.pop w in out ∷ run w' ops
  run w (steal ∷ ops) =
      let (r, inner) = Stealer.steal_from (λ i. i) w.inner in
      Steal.value r ∷ run (record w { inner = inner }) ops
