-- ===== src/Deque/ThreadTests.antt =====
-- The theorems on threads at work at once, at concrete sequences of steps.
use ws_deque.Base.{ℕ, ◌+◌, ◌-◌, ◌^◌, ◌≡◌, refl, some, List, [], ◌∷◌, get_elem?, arith}
use ws_deque.Distributed.Weight.{total}
use ws_deque.Deque.Buffer.{Buffer, read, write, grow}
use ws_deque.Deque.Worker.{
  with_start_index, push, refresh_top, ensure_room, perhaps_shrink, pop_last,
}
use ws_deque.Deque.Threads.{
  idle, loaded, holding, Action, pushes, pops, clones, steals, pop_begin, pop_look, grows, shrinks,
  pop_step, push_step, pointed, read_at, with_inner, thief_step, steal_step, act, act_all, start,
}
use ws_deque.Deque.Shared.{OwnerSound}
use ws_deque.Deque.Once.{reached, reached-once, reached-live, reached-claims}

-- A thief has read `top`, `bottom` and the buffer when the owner grows it, and lowers `bottom` to the
-- same element.
abbrev overtaken : List (Action ℕ)
overtaken =
    clones ∷ pushes 7 ∷ steals 0 ∷ steals 0 ∷ steals 0 ∷ pushes 8 ∷ pushes 9 ∷ pops ∷ pops ∷ []

-- The owner and the thief then race for the last element, and the thief wins.
abbrev raced : List (Action ℕ)
raced =
    clones
    ∷ pushes 7
    ∷ steals 0
    ∷ steals 0
    ∷ steals 0
    ∷ pushes 8
    ∷ pushes 9
    ∷ pops
    ∷ pops
    ∷ pops
    ∷ pops
    ∷ pops
    ∷ pops
    ∷ steals 0
    ∷ steals 0
    ∷ pops
    ∷ []

-- The thief has read the element.
abbrev poised : List (Action ℕ)
poised = clones ∷ pushes 7 ∷ steals 0 ∷ steals 0 ∷ steals 0 ∷ pushes 8 ∷ pushes 9 ∷ steals 0 ∷ []

-- The same steps, evaluated.
raced-returned : (reached 1 (2 ^ 63 - 1) raced).returned ≡ 7 ∷ 8 ∷ 9 ∷ []
unfolding reached act_all act steal_step thief_step push_step pop_step start pop_begin pop_look
    grows shrinks with_inner read_at pointed push with_start_index refresh_top ensure_room
    perhaps_shrink pop_last read write grow
raced-returned = refl

reached-once_example :
    let s = reached 1 (2 ^ 63 - 1) raced in
    (xs : List ℕ) × ((f : ℕ → ℕ) → total f s.pushed ≡ total f s.returned + total f xs)
    × OwnerSound s.worker s.owner xs
reached-once_example = reached-once 1 (2 ^ 63 - 1) raced (omega arith) (omega arith) (omega arith)

thief-overtaken :
    get_elem? (reached 1 (2 ^ 63 - 1) overtaken).thieves 0 ≡ some (loaded (2 ^ 63 - 1) 0)
unfolding reached act_all act steal_step thief_step push_step pop_step start pop_begin pop_look
    grows shrinks with_inner read_at pointed push with_start_index refresh_top ensure_room
    perhaps_shrink pop_last read write grow
thief-overtaken = refl

reached-live_example :
    let s = reached 1 (2 ^ 63 - 1) overtaken in
    (buf : Buffer ℕ) × (pointed s.worker.inner (s.serial - 0) ≡ some buf)
reached-live_example =
    reached-live 1 (2 ^ 63 - 1) 0 (2 ^ 63 - 1) 0 overtaken (omega arith) (omega arith) (omega arith)
      thief-overtaken

thief-poised :
    get_elem? (reached 1 (2 ^ 63 - 1) poised).thieves 0 ≡ some (holding (2 ^ 63 - 1) (some 7))
unfolding reached act_all act steal_step thief_step push_step pop_step start pop_begin pop_look
    grows shrinks with_inner read_at pointed push with_start_index refresh_top ensure_room
    perhaps_shrink pop_last read write grow
thief-poised = refl

top-poised : (reached 1 (2 ^ 63 - 1) poised).worker.inner.top ≡ 2 ^ 63 - 1
unfolding reached act_all act steal_step thief_step push_step pop_step start pop_begin pop_look
    grows shrinks with_inner read_at pointed push with_start_index refresh_top ensure_room
    perhaps_shrink pop_last read write grow
top-poised = refl

reached-claims_example :
    let s = reached 1 (2 ^ 63 - 1) poised in
    (x : ℕ) × (some 7 ≡ some x)
    × ((steal_step s 0).returned ≡ x ∷ s.returned)
    × (get_elem? (steal_step s 0).thieves 0 ≡ some idle)
reached-claims_example =
    reached-claims 1 (2 ^ 63 - 1) 0 (2 ^ 63 - 1) (some 7) poised (omega arith) (omega arith)
      (omega arith) thief-poised top-poised
