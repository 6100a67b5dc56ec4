-- ===== src/Scheduler/Tests.antt =====
-- The theorems on the lifelines and on the heartbeat for six workers.
use ws_deque.Base.{
  ℕ, zero, suc, List, get_or, ◌≤◌, ◌≡◌, refl, [], ◌∷◌, arith, inl, inr, some, length,
}
use ws_deque.Scheduler.Requests.{times, AllBelow, register_lifelines-once}
use ws_deque.Scheduler.{register_lifelines, flip, neighbours_from, hypercube_neighbours}
use ws_deque.Scheduler.Victims.{victims, victims-AllBelow}
use ws_deque.Scheduler.Cube.{Among, Joined, hypercube_neighbours-Joined}
use ws_deque.Scheduler.Degree.{hypercube_neighbours-ends}

hypercube_neighbours-five : hypercube_neighbours 5 6 ≡ some (4 ∷ 1 ∷ [])
unfolding hypercube_neighbours neighbours_from flip
hypercube_neighbours-five = refl

hypercube_neighbours-Joined_example : Joined 6 3 5
hypercube_neighbours-Joined_example =
    hypercube_neighbours-Joined 3 5 6 (omega arith) (omega arith) (omega arith)

hypercube_neighbours-ends_example :
    (found : List ℕ) × (hypercube_neighbours 5 6 ≡ some found) × (length found ≤ 3)
hypercube_neighbours-ends_example = hypercube_neighbours-ends 5 6 3 (omega arith) (omega arith)

-- Worker 5 of six registers with its lifelines, where it stood in the requests of worker 1 already.
abbrev requests : List (List ℕ)
requests = [] ∷ (5 ∷ []) ∷ [] ∷ [] ∷ [] ∷ [] ∷ []

five-once : (k : ℕ) → times 5 (get_or requests k []) ≤ 1
unfolding times
five-once zero = omega arith
five-once (suc zero) = omega arith
five-once (suc (suc zero)) = omega arith
five-once (suc (suc (suc zero))) = omega arith
five-once (suc (suc (suc (suc zero)))) = omega arith
five-once (suc (suc (suc (suc (suc zero))))) = omega arith
five-once (suc (suc (suc (suc (suc (suc k)))))) = omega arith

register_lifelines-once_example :
    times 5 (get_or (register_lifelines requests 5 (4 ∷ 1 ∷ [])) 1 []) ≡ 1
register_lifelines-once_example =
    register_lifelines-once (4 ∷ 1 ∷ []) requests 5 1
      (unfold AllBelow in (omega arith, (omega arith, tt))) five-once
      (unfold Among in inr (inl refl))

victims-AllBelow_example : AllBelow 6 (victims 3 2 6)
victims-AllBelow_example = victims-AllBelow 3 2 6
