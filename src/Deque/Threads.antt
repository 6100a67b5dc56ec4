-- ===== src/Deque/Threads.antt =====
-- src/lib.rs: the owner and any number of thieves at work at once. `push` is one step of the owner. Its
-- LIFO `pop` is the three steps at which it meets the thieves, and `steal_from` is five: the load of `top`,
-- the load of `bottom`, that of the buffer, that of the cell, and the compare-exchange. A FIFO owner's pop
-- is `steal_from`, so it is one more thief. A buffer pointer is the number of buffers installed before it.
use ws_deque.Base.{
  ℕ, zero, suc, ◌+◌, ◌-◌, ◌/◌, ◌≡◌, Bool, ◌&&◌, Option, none, some, List, [], ◌∷◌, ◌++◌,
  if◌then◌else◌, ◌==◌, ltb, is_negative, isize_le, max_zero, get_elem?, set, wrapping_add,
  wrapping_sub, arith,
}
use ws_deque.Deque.Buffer.{Buffer, read}
use ws_deque.Deque.Inner.{Inner}
use ws_deque.Deque.Worker.{
  Worker, push, refresh_top, perhaps_shrink, pop_last, pop_lifo, compare_exchange, min_capacity,
  shrink_factor,
}

-- Where the owner stands in `pop`: outside, after it has lowered `bottom`, or before the compare-exchange
-- for the last element, with the `top` and the element that it read.
pub data Owner {ℓ} (A : Type ℓ) : Type ℓ where
  resting : Owner A
  lowered : Owner A
  racing : ℕ → Option A → Owner A

-- Where a thief stands in `steal_from`, with what it read: `top`, the buffer, the element.
pub data Thief {ℓ} (A : Type ℓ) : Type ℓ where
  idle : Thief A
  saw : ℕ → Thief A
  entered : ℕ → Thief A
  loaded : ℕ → ℕ → Thief A
  holding : ℕ → Option A → Thief A

-- The deque and the threads, with the number of buffers installed so far and the elements that were pushed
-- and that were returned.
pub record System {ℓ} (A : Type ℓ) : Type ℓ where
  pub worker : Worker A
  pub serial : ℕ
  pub owner : Owner A
  pub thieves : List (Thief A)
  pub pushed : List A
  pub returned : List A

pub data Action {ℓ} (A : Type ℓ) : Type ℓ where
  pushes : A → Action A
  pops : Action A
  clones : Action A
  steals : ℕ → Action A

module _ {ℓ} {A : Type ℓ} where
  -- What follows the stores and the fence of `pop_lifo`: its loads and the shrinkage.
  unfoldable pub pop_begin : Worker A → Worker A
  pop_begin w = record w { inner = record w.inner { bottom = wrapping_sub w.inner.bottom 1 } }

  unfoldable pub pop_look : Worker A → Option A × Owner A × Worker A
  pop_look w =
      let b = w.inner.bottom in
      let t = w.inner.top in
      let size = wrapping_sub b t in
      if is_negative size
      then (none, resting, record w { inner = record w.inner { bottom = t } })
      else let boxed = read w.inner.buffer b in
        if size == 0
        then (none, racing t boxed, w)
        else (boxed, resting, record w { inner = perhaps_shrink w.inner b t })

  -- `none` is a null box, which is never returned.
  abbrev pub deliver : Option A → List A → List A
  deliver none done = done
  deliver (some v) done = v ∷ done

  -- The tests of `ensure_room` and of `perhaps_shrink`: whether a buffer is installed.
  unfoldable pub grows : Worker A → Bool
  grows w =
      isize_le (wrapping_sub w.inner.buffer.cap 1) (wrapping_sub w.inner.bottom (refresh_top w))

  unfoldable pub shrinks : Worker A → Bool
  shrinks w =
      let b = w.inner.bottom in
      let t = w.inner.top in
      ltb 0 (max_zero (wrapping_sub b t))
      && (ltb min_capacity w.inner.buffer.cap
          && ltb (max_zero (wrapping_sub b t)) (w.inner.buffer.cap / shrink_factor))

  -- The owner's next step in `pop`.
  unfoldable pub pop_step : System A → System A
  pop_step s = elim s.owner [
    | resting ↦ record s { worker = pop_begin s.worker; owner = lowered }
    | lowered ↦
        let (out, owner, w) = pop_look s.worker in
        record s {
          worker = w;
          owner = owner;
          serial = if shrinks s.worker then s.serial + 1 else s.serial;
          returned = deliver out s.returned;
        }
    | racing t boxed ↦
        let (out, inner) = pop_last (λ i. i) s.worker.inner t boxed in
        record s {
          worker = record s.worker { inner = inner };
          owner = resting;
          returned = deliver out s.returned;
        }
  ]

  unfoldable pub push_step : System A → A → System A
  push_step s v = elim s.owner [
    | resting ↦ record s {
      worker = push s.worker v;
      serial = if grows s.worker then s.serial + 1 else s.serial;
      pushed = v ∷ s.pushed;
    }
    | _ ↦ s
  ]

  -- The buffer installed `age` buffers ago, or `none` if it was freed.
  unfoldable pub pointed : Inner A → ℕ → Option (Buffer A)
  pointed inner zero = some inner.buffer
  pointed inner (suc age) = get_elem? inner.retired age

  -- A read through a pointer; of a freed buffer it would be undefined.
  unfoldable pub read_at : Option (Buffer A) → ℕ → Option A
  read_at none t = none
  read_at (some buf) t = read buf t

  unfoldable pub with_inner : System A → Inner A → System A
  with_inner s inner = record s { worker = record s.worker { inner = inner } }

  unfoldable pub thief_step : System A → Thief A → Thief A × System A
  unfolding with_inner
  thief_step s idle = (saw s.worker.inner.top, s)
  thief_step s (saw t) =
      let inner = s.worker.inner in
      if isize_le (wrapping_sub inner.bottom t) 0
      then (idle, s)
      else (entered t, with_inner s (record inner { in_flight = inner.in_flight + 1 }))
  thief_step s (entered t) = (loaded t s.serial, s)
  thief_step s (loaded t serial) =
      let inner = s.worker.inner in
      (
        holding t (read_at (pointed inner (s.serial - serial)) t),
        with_inner s (record inner { in_flight = inner.in_flight - 1 }),
      )
  thief_step s (holding t boxed) =
      let inner = s.worker.inner in
      if compare_exchange inner.top t
      then (
        idle,
        record (with_inner s (record inner { top = wrapping_add t 1 })) {
          returned = deliver boxed s.returned;
        },
      )
      else (idle, s)

  unfoldable pub steal_step : System A → ℕ → System A
  steal_step s i = elim (get_elem? s.thieves i) [
    | none ↦ s
    | some p ↦ let (p', s') = thief_step s p in record s' { thieves = set s'.thieves i p' }
  ]

  unfoldable pub act : System A → Action A → System A
  act s (pushes v) = push_step s v
  act s pops = pop_step s
  act s clones = record s { thieves = s.thieves ++ idle ∷ [] }
  act s (steals i) = steal_step s i

  unfoldable pub act_all : System A → List (Action A) → System A
  act_all s [] = s
  act_all s (a ∷ actions) = act_all (act s a) actions

  unfoldable pub start : Worker A → System A
  start w = record {
    worker = w;
    serial = 0;
    owner = resting;
    thieves = [];
    pushed = [];
    returned = [];
  }

  -- What the owner returns, with what the others do before the compare-exchange.
  abbrev pub settle : (Inner A → Inner A) → Option A × Owner A × Worker A → Option A × Worker A
  settle others (out, resting, w) = (out, w)
  settle others (out, lowered, w) = (out, w)
  settle others (out, racing t boxed, w) =
      let (won, inner) = pop_last others w.inner t boxed in (won, record w { inner = inner })

  -- The steps of the owner one after another are `pop_lifo`.
  pub pop_lifo-steps :
      (others : Inner A → Inner A) (w : Worker A)
      → pop_lifo others w ≡ settle others (pop_look (pop_begin w))
  unfolding pop_look pop_begin pop_lifo
  pop_lifo-steps others w = ground arith
