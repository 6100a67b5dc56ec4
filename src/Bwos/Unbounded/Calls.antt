-- ===== src/Bwos/Unbounded/Calls.antt =====
-- src/bwos.rs, `unbounded`: any sequence of calls, one after another, in which each steal is that of a new
-- thief handle.
use ws_deque.Base.{
  ℕ, ◌<◌, ◌≡◌, refl, ap, Option, none, some, List, [], ◌∷◌, ◌++◌, false, arith, length,
  length-replicate, get_elem?-bound,
}
use mathlib.Core.Path.{ap₂}
use ws_deque.Deque.Steal
use ws_deque.Deque.Spec.{Op, push, pop_back, pop_front, run_list}
use ws_deque.Bwos.Put.{contents}
use ws_deque.Bwos.Held.{oldest}
use ws_deque.Bwos.Unbounded.{
  UnboundedBwosWorker, new_block, block_at, with_block_size, stealer, put, pop, steal,
}
use ws_deque.Bwos.Unbounded.Chain.{view, Chained-one, Chained-le}
use ws_deque.Bwos.Unbounded.Hold.{Holds, put-Holds}
use ws_deque.Bwos.Unbounded.Back.{pop-Holds}
use ws_deque.Bwos.Unbounded.Front.{steal_walk-Holds}

module _ {ℓ} {A : Type ℓ} where
  -- What the calls return; a run that runs out of fuel returns nothing more.
  unfoldable pub run : UnboundedBwosWorker A → List (Op A) → List (Option A)
  run w [] = []
  run w (push v ∷ ops) = none ∷ run (put w v).1 ops
  run w (Op.pop ∷ ops) = elim (pop (λ i. i) (λ i. i) (length w.inner.memory) w) [
    | none ↦ []
    | some (out, w') ↦ out ∷ run w' ops
  ]
  run w (Op.steal ∷ ops) = elim (steal (λ i. i) (length w.inner.memory) w.inner (stealer w.inner)) [
    | none ↦ []
    | some (r, thief, inner) ↦ Steal.value r ∷ run (record w { inner = inner }) ops
  ]

  -- A new queue, and its only block.
  abbrev pub one_block : ℕ → UnboundedBwosWorker A
  one_block size = record {
    inner = record { memory = new_block size none ∷ []; head = 0; block_size = size };
    owner_block = 0;
  }

  pub with_block_size-Holds :
      (size : ℕ)
      → 0 < size
      → (with_block_size size ≡ some (one_block size)) × Holds (one_block size) (0 ∷ []) 0 []
  unfolding with_block_size new_block view block_at contents
  with_block_size-Holds size h = (
    ground arith,
    record {
      linked = record {
        links = Chained-one (new_block size none) refl refl;
        first = refl;
        positive = h;
        sized = ((length-replicate size none, omega arith, omega arith), tt);
      };
      here = refl;
      behind = tt;
      held = refl;
    },
  )

  value-oldest : (xs : List A) → Steal.value (oldest xs) ≡ (pop_front xs).0
  unfolding Steal.value pop_front
  value-oldest [] = refl
  value-oldest (x ∷ xs) = refl

  -- Whatever the owner puts and pops and new thieves steal, one call after another, they see what the list
  -- of the values shows, and every call ends.
  pub run-run_list :
      (ops : List (Op A)) (w : UnboundedBwosWorker A) (chain : List ℕ) (j : ℕ) (xs : List A)
      → Holds w chain j xs
      → run w ops ≡ run_list false xs ops
  unfolding run run_list steal stealer
  run-run_list [] w chain j xs o = refl
  run-run_list (push v ∷ ops) w chain j xs o =
      let (ok, chain', j', kept) = put-Holds v o in
      ap (λ l. none ∷ l) (run-run_list ops (put w v).1 chain' j' (xs ++ v ∷ []) kept)
  run-run_list (Op.pop ∷ ops) w chain j xs o =
      let room : j < length w.inner.memory =
        omega (arith, get_elem?-bound chain j w.owner_block o.here, Chained-le o.linked.links) in
      let (w', j', same, kept) = pop-Holds j (length w.inner.memory) w chain xs o room in
      rw (same, run)
        (ap (λ l. (pop_back xs).0 ∷ l) (run-run_list ops w' chain j' (pop_back xs).1 kept))
  run-run_list (Op.steal ∷ ops) w chain j xs o =
      let (thief, inner, i, same, kept, there, passed) =
        steal_walk-Holds (length w.inner.memory) 0 w.inner.head w chain j xs o o.linked.first tt
          (omega (arith, Chained-le o.linked.links)) in
      rw (same, run)
        (ap₂ ◌∷◌ (value-oldest xs)
          (run-run_list ops (record w { inner = inner }) chain j (pop_front xs).1 kept))
