-- ===== src/Scheduler.antt =====
-- src/scheduler.rs, the lifeline scheduler: the lifelines of a worker in the hypercube, the requests that it
-- registers along them, and the heartbeat that says which spawns become tasks. The workers' loop and their
-- choice of victims stand in `Workers` and `Victims`.
pub mod Cube
pub mod Degree
pub mod Heartbeat
pub mod Requests
pub mod Workers
pub mod Alive
pub mod Steps
pub mod Finish
pub mod Victims
mod Tests
mod WorkerTests
use ws_deque.Base.{
  ℕ, zero, suc, ◌+◌, ◌-◌, ◌*◌, ◌/◌, ◌%◌, Bool, true, false, not, ◌&&◌, Option, none, some, List, [],
  ◌∷◌, ◌++◌, if◌then◌else◌, ◌==◌, ltb, leb, get_or, set, word,
}

-- `id ^ bit`, for a `bit` that is a power of two.
unfoldable pub flip : ℕ → ℕ → ℕ
flip id bit = if (id / bit) % 2 == 1 then id - bit else id + bit

-- The rounds of the loop from `bit` on, at most `fuel` of them; `none` if the loop has not ended by then.
-- `bit <<= 1` drops the highest bit.
unfoldable pub neighbours_from : ℕ → ℕ → ℕ → ℕ → Option (List ℕ)
neighbours_from zero id n bit = none
neighbours_from (suc fuel) id n bit =
    let rest = neighbours_from fuel id n (bit * 2 % word) in
    let neighbour = flip id bit in
    if ltb bit n
    then elim rest [
      | none ↦ none
      | some found ↦
          some (if ltb neighbour n && not (neighbour == id) then neighbour ∷ found else found)
    ]
    else some []

-- A `usize` has 64 bits.
unfoldable pub hypercube_neighbours : ℕ → ℕ → Option (List ℕ)
hypercube_neighbours id n = neighbours_from 64 id n 1

unfoldable pub contains : List ℕ → ℕ → Bool
contains [] me = false
contains (x ∷ reqs) me = let rest = contains reqs me in if x == me then true else rest

-- One round of `register_lifelines`: the requests of every worker, with `me` among the buddy's.
unfoldable pub register : List (List ℕ) → ℕ → ℕ → List (List ℕ)
register requests me buddy =
    let reqs = get_or requests buddy [] in
    if contains reqs me then requests else set requests buddy (reqs ++ me ∷ [])

unfoldable pub register_lifelines : List (List ℕ) → ℕ → List ℕ → List (List ℕ)
register_lifelines requests me [] = requests
register_lifelines requests me (buddy ∷ buddies) =
    register_lifelines (register requests me buddy) me buddies

-- `clear_lifelines`
unfoldable pub clear_lifelines : List (List ℕ) → ℕ → List (List ℕ)
clear_lifelines requests me = set requests me []

-- `Spawner::should_promote`, with the heartbeat after it; `spawn_or_call` decides in the same way.
unfoldable pub should_promote : ℕ → ℕ → Bool × ℕ
should_promote heartbeat_interval heartbeat =
    let next = heartbeat + 1 in if leb heartbeat_interval next then (true, 0) else (false, next)
