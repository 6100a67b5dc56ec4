-- ===== src/Deque/Stealer.antt =====
-- src/lib.rs, `Stealer`, `steal_from` and the owner's pop: the top-steal, the FIFO pop that retries
-- it, and the two batch steals. `others` is as in `Worker`.
use ws_deque.Base.{
  ℕ, zero, suc, ◌+◌, ◌-◌, ◌/◌, Bool, false, Option, none, some, List, [], ◌∷◌, if◌then◌else◌, ◌==◌,
  isize_le, wrapping_add, wrapping_sub,
}
use ws_deque.Deque.Buffer
use ws_deque.Deque.Inner.{Inner}
use ws_deque.Deque.Worker
use ws_deque.Deque.Steal
use ws_deque.Deque.Steal.{Steal, empty, retry, success}
use ws_deque.Deque.Worker.{Worker, compare_exchange}

module _ {ℓ} {A : Type ℓ} where
  -- A null pointer is never taken: `none` there would be the dereference of a null box.
  unfoldable pub taken : Option A → Steal A
  taken (some v) = success v
  taken none = retry

  -- The slot is read inside the critical section that `in_flight` counts.
  unfoldable pub steal_from : (Inner A → Inner A) → Inner A → Steal A × Inner A
  unfolding taken
  steal_from others inner =
      let t = inner.top in
      let b = inner.bottom in
      if isize_le (wrapping_sub b t) 0
      then (empty, inner)
      else let entered = record inner { in_flight = inner.in_flight + 1 } in
        let boxed = Buffer.read entered.buffer t in
        let left = others (record entered { in_flight = entered.in_flight - 1 }) in
        if compare_exchange left.top t
        then (taken boxed, record left { top = wrapping_add t 1 })
        else (retry, left)

  -- `Stealer::is_empty`
  unfoldable pub stealer_is_empty : Inner A → Bool
  stealer_is_empty inner = isize_le (wrapping_sub inner.bottom inner.top) 0

  -- The retry loop of the FIFO pop: one round for each interference of the list, and one without.
  unfoldable pub pop_fifo : List (Inner A → Inner A) → Worker A → Option A × Worker A
  pop_fifo [] w =
      let (r, inner) = steal_from (λ i. i) w.inner in (Steal.value r, record w { inner = inner })
  pop_fifo (others ∷ rest) w =
      let (r, inner) = steal_from others w.inner in
      let again = pop_fifo rest (record w { inner = inner }) in
      elim r [
        | success v ↦ (some v, record w { inner = inner })
        | empty ↦ (none, record w { inner = inner })
        | retry ↦ again
      ]

  -- `Worker::pop`, with no other thread at work.
  unfoldable pub pop : Worker A → Option A × Worker A
  pop w = if w.fifo then pop_fifo [] w else Worker.pop_lifo (λ i. i) w

  -- `n` rounds of the loop of `steal_batch_and_pop`: a steal that fails ends it.
  unfoldable pub take_more : ℕ → Inner A → Worker A → Inner A × Worker A
  take_more zero victim dest = (victim, dest)
  take_more (suc n) victim dest =
      let (r, victim') = steal_from (λ i. i) victim in
      elim r [ success v ↦ take_more n victim' (Worker.push dest v) | _ ↦ (victim', dest) ]

  -- About half of what the victim holds, at least one.
  unfoldable pub batch_size : Inner A → ℕ
  batch_size victim = (wrapping_sub victim.bottom victim.top + 1) / 2

  unfoldable pub steal_batch_and_pop : Inner A → Worker A → Steal A × Inner A × Worker A
  unfolding batch_size stealer_is_empty
  steal_batch_and_pop victim dest =
      if stealer_is_empty victim
      then (empty, victim, dest)
      else let want = batch_size victim in
        let (first, victim') = steal_from (λ i. i) victim in
        elim first [
          | success v ↦
              let (rest, dest') = take_more (want - 1) victim' dest in (success v, rest, dest')
          | other ↦ (other, victim', dest)
        ]

  -- `n` rounds of the loop of `steal_batch`, with the number moved so far; the Boolean is the early
  -- return of `Retry`.
  unfoldable pub move_batch : ℕ → ℕ → Inner A → Worker A → Bool × ℕ × Inner A × Worker A
  move_batch zero moved victim dest = (false, moved, victim, dest)
  move_batch (suc n) moved victim dest =
      let (r, victim') = steal_from (λ i. i) victim in
      elim r [
        | success v ↦ move_batch n (moved + 1) victim' (Worker.push dest v)
        | empty ↦ (false, moved, victim', dest)
        | retry ↦ (moved == 0, moved, victim', dest)
      ]

  unfoldable pub steal_batch : Inner A → Worker A → Steal (Unit {0}) × Inner A × Worker A
  unfolding batch_size stealer_is_empty
  steal_batch victim dest =
      if stealer_is_empty victim
      then (empty, victim, dest)
      else let (contended, moved, victim', dest') = move_batch (batch_size victim) 0 victim dest in
        (if contended then retry else if moved == 0 then empty else success tt, victim', dest')
