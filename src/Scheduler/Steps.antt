-- ===== src/Scheduler/Steps.antt =====
-- src/scheduler.rs: each step of a worker keeps the tasks and the counter of those outstanding.
use ws_deque.Base.{
  ℕ, ◌<◌, ◌≡◌, refl, sym, ap, Bool, true, false, Bool-cases, inl, inr, Option, Option-cases, none,
  some, List, [], ◌∷◌, ◌++◌, if◌then◌else◌, ◌==◌, arith, word, get_elem?,
}
use mathlib.Core.Path.{subst}
use ws_deque.Distributed.Weight.{total, total-append}
use ws_deque.Deque.Spec.{pop_back}
use ws_deque.Deque.Refine.{pop_back-cases}
use ws_deque.Scheduler.Workers.{
  Pc, draining, popping, running, stealing, checking, parking, asleep, returned, Worker, Shared,
  Step, runs, steals, gives_up, put_worker, park, advance, steal, give_up, take_step,
}
use ws_deque.Scheduler.Alive.{
  busy, busy_pc, gone_pc, alive, Conserved, goes_on-Conserved, stops-Conserved,
  finish_task-Conserved, spawn-Conserved, spawn_at-Conserved, pops-Conserved, steal_one-Conserved,
}

module _ {ℓ} {A : Type ℓ} (children : A → List (A × Option ℕ)) (s : Shared A) (i : ℕ) (w : Worker A)
    (c : Conserved s) (at : get_elem? s.workers i ≡ some w) where
  -- The worker with another program counter.
  goto-Conserved :
      (pc : Pc A)
      → busy_pc pc ≡ busy w
      → gone_pc pc ≡ 0
      → Conserved (put_worker s i (record w { pc = pc }))
  goto-Conserved pc b g = goes_on-Conserved s i w c at (record w { pc = pc }) (λ f. refl) b g

  drained-Conserved :
      (inbox : List A) → w.inbox ≡ inbox → w.pc ≡ draining → Conserved (advance children s i w)
  unfolding advance
  drained-Conserved [] n e = rw (e, n) (goto-Conserved (popping false) (sym (ap busy_pc e)) refl)
  drained-Conserved (task ∷ rest) n e =
      rw (e, n)
        (goes_on-Conserved s i w c at
          (record { deque = w.deque ++ task ∷ []; inbox = rest; pc = draining })
          (λ f. omega (arith, ap (total f) n, total-append f w.deque (task ∷ [])))
          (sym (ap busy_pc e)) refl)

  popped-none :
      (did_work : Bool)
      → w.pc ≡ popping did_work
      → pop_back w.deque ≡ (none, [])
      → advance children s i w
        ≡ put_worker s i (record w { pc = if did_work then draining else stealing })
  unfolding advance
  popped-none did_work e n = ground arith

  popped-some :
      (did_work : Bool) (task : A) (rest : List A)
      → w.pc ≡ popping did_work
      → pop_back w.deque ≡ (some task, rest)
      → advance children s i w
        ≡ record (put_worker s i (record w { deque = rest; pc = running true (children task) })) {
          executed = task ∷ s.executed;
        }
  unfolding advance
  popped-some did_work task rest e n = ground arith

  popped-Conserved :
      (did_work : Bool) → w.pc ≡ popping did_work → Conserved (advance children s i w)
  unfolding pop_back
  popped-Conserved did_work e = elim (pop_back-cases w.deque) [
    | inl n ↦ subst Conserved (sym (popped-none did_work e (ap pop_back n))) (
        goto-Conserved (if did_work then draining else stealing) (ground (arith, ap busy_pc e))
          (ground arith))
    | inr (rest, task, n, split) ↦
        subst Conserved (sym (popped-some did_work task rest e split))
          (pops-Conserved s i w c at children task rest n (ap busy_pc e) (ap gone_pc e))
  ]

  -- A worker that finds no task outstanding, or that it is over, stops.
  stops : busy w ≡ 0 → alive s ≡ 0 → Conserved (put_worker s i (record w { pc = returned }))
  unfolding put_worker
  stops b none_alive = stops-Conserved s i w c at s.terminated b none_alive

  none_left : alive s < word → (s.outstanding == 0) ≡ true → alive s ≡ 0
  none_left small z = let k : s.outstanding ≡ 0 = ground arith in omega (arith, c.counted, k)

  over_alive : s.terminated ≡ true → alive s ≡ 0
  over_alive over = c.quiet (ground (arith, over))

  waits-Conserved :
      (inbox : List A)
      → w.inbox ≡ inbox
      → busy w ≡ 0
      → s.terminated ≡ false
      → (s.outstanding == 0) ≡ false
      → Conserved (put_worker s i (record w { pc = park s w }))
  unfolding park
  waits-Conserved [] e b on z =
      let p : park s w ≡ asleep s.generation = rw (on, z, e) refl in
      subst (λ q. Conserved (put_worker s i (record w { pc = q }))) (sym p)
        (goto-Conserved (asleep s.generation) (sym b) refl)
  waits-Conserved (task ∷ rest) e b on z =
      let p : park s w ≡ draining = rw (on, z, e) refl in
      subst (λ q. Conserved (put_worker s i (record w { pc = q }))) (sym p)
        (goto-Conserved draining (sym b) refl)

  park-Conserved :
      busy w ≡ 0 → alive s < word → Conserved (put_worker s i (record w { pc = park s w }))
  unfolding park
  park-Conserved b small = elim (Bool-cases s.terminated) [
    | inl over ↦
        let p : park s w ≡ returned = rw over refl in
        subst (λ q. Conserved (put_worker s i (record w { pc = q }))) (sym p)
          (stops b (over_alive over))
    | inr on ↦ elim (Bool-cases (s.outstanding == 0)) [
      | inl z ↦
          let p : park s w ≡ returned = rw (on, z) refl in
          subst (λ q. Conserved (put_worker s i (record w { pc = q }))) (sym p)
            (stops b (none_left small z))
      | inr some_left ↦ waits-Conserved w.inbox refl b on some_left
    ]
  ]

  asleep-over :
      (generation : ℕ)
      → w.pc ≡ asleep generation
      → s.terminated ≡ true
      → advance children s i w ≡ put_worker s i (record w { pc = returned })
  unfolding advance
  asleep-over generation e over = ground arith

  asleep-same :
      (generation : ℕ)
      → w.pc ≡ asleep generation
      → s.terminated ≡ false
      → (s.generation == generation) ≡ true
      → advance children s i w ≡ s
  unfolding advance
  asleep-same generation e on same = ground arith

  asleep-woken :
      (generation : ℕ)
      → w.pc ≡ asleep generation
      → s.terminated ≡ false
      → (s.generation == generation) ≡ false
      → advance children s i w ≡ put_worker s i (record w { pc = draining })
  unfolding advance
  asleep-woken generation e on woken = ground arith

  asleep-Conserved :
      (generation : ℕ) → w.pc ≡ asleep generation → Conserved (advance children s i w)
  asleep-Conserved generation e = elim (Bool-cases s.terminated) [
    | inl over ↦
        subst Conserved (sym (asleep-over generation e over))
          (stops (ap busy_pc e) (over_alive over))
    | inr on ↦ elim (Bool-cases (s.generation == generation)) [
      | inl same ↦ subst Conserved (sym (asleep-same generation e on same)) c
      | inr woken ↦
          subst Conserved (sym (asleep-woken generation e on woken))
            (goto-Conserved draining (sym (ap busy_pc e)) refl)
    ]
  ]

  advance-Conserved : (pc : Pc A) → w.pc ≡ pc → alive s < word → Conserved (advance children s i w)
  unfolding advance
  advance-Conserved draining e small = drained-Conserved w.inbox refl e
  advance-Conserved (popping did_work) e small = popped-Conserved did_work e
  advance-Conserved (running own []) e small =
      rw e (finish_task-Conserved s i w c at own [] small (ap busy_pc e))
  advance-Conserved (running own ((task, none) ∷ rest)) e small =
      rw e (spawn-Conserved s i w c at own task rest (ap busy_pc e) (ap gone_pc e))
  advance-Conserved (running own ((task, some worker) ∷ rest)) e small =
      rw e (spawn_at-Conserved s i w c at own task worker rest (ap busy_pc e) (ap gone_pc e))
  advance-Conserved stealing e small = rw e c
  advance-Conserved checking e small = elim (Bool-cases (s.outstanding == 0)) [
    | inl z ↦ rw (e, z) (stops-Conserved s i w c at true (ap busy_pc e) (none_left small z))
    | inr more ↦ rw (e, more) (goto-Conserved parking (sym (ap busy_pc e)) refl)
  ]
  advance-Conserved parking e small = rw e (park-Conserved (ap busy_pc e) small)
  advance-Conserved (asleep generation) e small = asleep-Conserved generation e
  advance-Conserved returned e small = rw e c

module _ {ℓ} {A : Type ℓ} (children : A → List (A × Option ℕ)) (s : Shared A) (i : ℕ) (w : Worker A)
    (c : Conserved s) (at : get_elem? s.workers i ≡ some w) where
  steal-Conserved : (k moved : ℕ) (pc : Pc A) → w.pc ≡ pc → Conserved (steal children s i w k moved)
  unfolding steal
  steal-Conserved k moved draining e = rw e c
  steal-Conserved k moved (popping did_work) e = rw e c
  steal-Conserved k moved (running own rest) e = rw e c
  steal-Conserved k moved stealing e =
      rw e (steal_one-Conserved children s i w c at k moved (ap busy_pc e) (ap gone_pc e))
  steal-Conserved k moved checking e = rw e c
  steal-Conserved k moved parking e = rw e c
  steal-Conserved k moved (asleep generation) e = rw e c
  steal-Conserved k moved returned e = rw e c

  give_up-Conserved : (pc : Pc A) → w.pc ≡ pc → Conserved (give_up s i w)
  unfolding give_up
  give_up-Conserved draining e = rw e c
  give_up-Conserved (popping did_work) e = rw e c
  give_up-Conserved (running own rest) e = rw e c
  give_up-Conserved stealing e =
      rw e (goto-Conserved children s i w c at checking (sym (ap busy_pc e)) refl)
  give_up-Conserved checking e = rw e c
  give_up-Conserved parking e = rw e c
  give_up-Conserved (asleep generation) e = rw e c
  give_up-Conserved returned e = rw e c

module _ {ℓ} {A : Type ℓ} (children : A → List (A × Option ℕ)) where
  -- Whatever a step does, a worker that is not there does nothing.
  pub take_step-Conserved :
      (s : Shared A) (step : Step)
      → Conserved s
      → alive s < word
      → Conserved (take_step children s step)
  unfolding take_step
  take_step-Conserved s (runs i) c small = elim (Option-cases (get_elem? s.workers i)) [
    | inl n ↦ rw (n, take_step) c
    | inr (w, q) ↦ rw (q, take_step) (advance-Conserved children s i w c q w.pc refl small)
  ]
  take_step-Conserved s (steals i k moved) c small = elim (Option-cases (get_elem? s.workers i)) [
    | inl n ↦ rw (n, take_step) c
    | inr (w, q) ↦ rw (q, take_step) (steal-Conserved children s i w c q k moved w.pc refl)
  ]
  take_step-Conserved s (gives_up i) c small = elim (Option-cases (get_elem? s.workers i)) [
    | inl n ↦ rw (n, take_step) c
    | inr (w, q) ↦ rw (q, take_step) (give_up-Conserved children s i w c q w.pc refl)
  ]
