-- ===== src/Linked/Tests.antt =====
-- The theorems on the linked queue at one task, its owner and one thief.
use ws_deque.Base.{ℕ, ◌≤◌, ◌≡◌, refl, sym, ◌∙◌, none, some, List, [], ◌∷◌, ◌++◌, length, arith}
use mathlib.Core.Path.{subst}
use ws_deque.Linked.{
  Inner, LinkedWorker, create, new_node, store_cell, put, append_task, look, look_from, load_slot,
  load_cell, walk, fetch_max, take, stealer,
}
use ws_deque.Linked.Stored.{Stored, create-Stored, put-Stored_node}
use ws_deque.Linked.Look.{Cached, seen}
use ws_deque.Linked.Threads.{
  Consumer, System, fresh_consumer, look_by, hand_out, Reach, start, puts, clones, looks, hands,
  Falling, Delivered,
}
use ws_deque.Linked.Deliver.{reach-Delivered, reach-Falling, reach-look_by}

some-inj : {x y : LinkedWorker ℕ} → some x ≡ some y → x ≡ y
some-inj e = cc

abbrev one : LinkedWorker ℕ
one = append_task create 0 (new_node 0) 5

put-one : put create 5 ≡ some one
unfolding put create new_node
put-one = refl

abbrev nothing : LinkedWorker ℕ
nothing = create

put-Stored_node_example :
    (w : LinkedWorker ℕ) × (put nothing 5 ≡ some w)
    × Stored w ([] ++ 5 ∷ [])
    × (w.inner.head ≡ nothing.inner.head)
    × (length nothing.inner.nodes ≤ length w.inner.nodes)
put-Stored_node_example = put-Stored_node 5 create-Stored

one-Stored : Stored one (5 ∷ [])
one-Stored =
    let (w, q, stored, _, _) = put-Stored_node {w = nothing} 5 create-Stored in
    let same : w ≡ one = some-inj (sym q ∙ put-one) in subst (λ x. Stored x (5 ∷ [])) same stored

stealer-Cached : Cached one.inner stealer
unfolding create new_node stealer append_task store_cell
stealer-Cached = record { base = refl; behind = omega arith; linked = omega arith }

-- Another consumer takes the task between a thief's look and its update of the head.
abbrev rival : Inner ℕ → Inner ℕ
rival inner = (take (λ i. i) inner).1

-- The owner puts one task; it and a thief look at it, and both hand it out.
abbrev shared : System ℕ
shared = record {
  worker = one;
  consumers = fresh_consumer none ∷ fresh_consumer (some stealer) ∷ [];
}

shared-Reach : Reach shared (5 ∷ [])
shared-Reach = clones (puts 5 one start put-one)

abbrev owner_looked : Consumer ℕ
owner_looked = record { cursor = none; looked = some (0, 5); taken = [] }

abbrev thief_looked : Consumer ℕ
thief_looked = record { cursor = some stealer; looked = some (0, 5); taken = [] }

both-Reach : Reach (record { worker = one; consumers = owner_looked ∷ thief_looked ∷ [] }) (5 ∷ [])
unfolding create new_node stealer append_task store_cell look_by look look_from load_slot load_cell
    walk
both-Reach =
    looks 1 (fresh_consumer (some stealer)) (looks 0 (fresh_consumer none) shared-Reach refl refl)
      refl refl

abbrev both : System ℕ
both = record { worker = one; consumers = owner_looked ∷ thief_looked ∷ [] }

abbrev handed_twice : System ℕ
handed_twice = hand_out (hand_out both 0 owner_looked 0 5) 1 thief_looked 0 5

handed_twice-Reach : Reach handed_twice (5 ∷ [])
unfolding hand_out
handed_twice-Reach =
    hands 1 thief_looked 0 5 (hands 0 owner_looked 0 5 both-Reach refl refl) refl refl

reach-Delivered_example : Delivered handed_twice.consumers 0
unfolding hand_out create append_task fetch_max
reach-Delivered_example = reach-Delivered 0 handed_twice-Reach (omega arith)

abbrev one_task : List ℕ
one_task = 5 ∷ []

reach-Falling_example : Falling one_task handed_twice.worker.inner.head ((0, 5) ∷ [])
reach-Falling_example =
    reach-Falling 1 (record { cursor = some stealer; looked = none; taken = (0, 5) ∷ [] })
      handed_twice-Reach (unfold hand_out in refl)

reach-look_by_example :
    (look_by shared.worker.inner (fresh_consumer (some stealer))).looked
    ≡ seen (5 ∷ []) shared.worker.inner.head
reach-look_by_example = reach-look_by 1 (fresh_consumer (some stealer)) shared-Reach refl
