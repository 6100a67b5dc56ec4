-- ===== src/Deque/Refine.antt =====
-- The deque behaves as the list of its elements, for any sequence of calls.
use mathlib.Core.Path.{subst, ap₂}
use ws_deque.Base.{
  ℕ, ◌+◌, ◌^◌, ◌≤◌, ◌<◌, ◌≡◌, ◌⊎◌, inl, inr, refl, ◌∙◌, ap, Bool-cases, true, false, Bool, Option,
  none, some, List, [], ◌∷◌, ◌++◌, arith, length, length-append, length-replicate, word,
  if◌then◌else◌,
}
use ws_deque.Deque.Buffer.{alloc}
use ws_deque.Deque.Steal
use ws_deque.Deque.Steal.{Steal, empty, success}
use ws_deque.Deque.Worker
use ws_deque.Deque.Worker.{Worker, pop_lifo, with_start_index}
use ws_deque.Deque.Stealer
use ws_deque.Deque.Stealer.{steal_from, pop_fifo}
use ws_deque.Deque.Pow.{IsCapacity-pos}
use ws_deque.Deque.Rep.{Owns}
use ws_deque.Deque.Push.{push-Owns}
use ws_deque.Deque.Take.{
  pop_lifo-nil, pop_lifo-append, steal_from-nil, steal_from-cons, steal_from-tail,
}
use ws_deque.Deque.Spec.{Op, push, pop, steal, pop_back, pop_front, run_list, run}

module _ {ℓ} {A : Type ℓ} where
  -- A new deque is empty, wherever its indices start.
  pub with_start_index-Owns :
      (k start : ℕ) → k ≤ 62 → start < word → Owns (with_start_index {A = A} k start) []
  unfolding with_start_index alloc
  with_start_index-Owns k start small h = record {
    rep = record {
      capacity = (k, refl, small);
      storage = length-replicate (2 ^ k) none;
      bottom_in = h;
      top_in = h;
      count = omega arith;
      room = IsCapacity-pos (k, refl, small);
      held = λ j lt. absurd (omega arith);
    };
    cached_in = h;
    behind = omega arith;
    near = omega arith;
  }

  -- A list is empty, or has a last element, which `pop_back` splits off.
  pub pop_back-cases :
      (xs : List A)
      → (xs ≡ []) ⊎ ((ys : List A) × (y : A) × (xs ≡ ys ++ y ∷ []) × (pop_back xs ≡ (some y, ys)))
  unfolding pop_back
  pop_back-cases [] = inl refl
  pop_back-cases (x ∷ []) = inr ([], x, refl, refl)
  pop_back-cases (x ∷ y ∷ ys) = elim (pop_back-cases (y ∷ ys)) [
    | inl e ↦ absurd (cc)
    | inr (zs, z, e, f) ↦ inr (x ∷ zs, z, ap (λ l. x ∷ l) e, rw f)
  ]

  -- What a client sees of one call, and that the deque holds the rest.
  abbrev pub Agrees : Option A × Worker A → Option A × List A → Bool → Type ℓ
  Agrees (out, w) (want, xs) fifo = (out ≡ want) × Owns w xs × (w.fifo ≡ fifo)

  fifo-pop_lifo : (w : Worker A) → (pop_lifo (λ i. i) w).1.fifo ≡ w.fifo
  unfolding pop_lifo
  fifo-pop_lifo w = ground arith

  pop_lifo-Agrees :
      {w : Worker A} (xs : List A) → Owns w xs → Agrees (pop_lifo (λ i. i) w) (pop_back xs) w.fifo
  unfolding pop_back
  pop_lifo-Agrees {w} xs o = elim (pop_back-cases xs) [
    | inl e ↦
        let s = pop_lifo-nil (λ i. i) (subst (λ l. Owns w l) e o) in
        rw e (s.0, s.1, fifo-pop_lifo w)
    | inr (ys, y, e, f) ↦
        let s = pop_lifo-append ys y (subst (λ l. Owns w l) e o) in rw f (s.0, s.1, fifo-pop_lifo w)
  ]

  -- A steal, seen as a call of the deque.
  steal_call : Worker A → Option A × Worker A
  steal_call w =
      let (r, inner) = steal_from (λ i. i) w.inner in (Steal.value r, record w { inner = inner })

  steal-Agrees :
      {w : Worker A} (xs : List A) → Owns w xs → Agrees (steal_call w) (pop_front xs) w.fifo
  unfolding steal_call pop_front Steal.value
  steal-Agrees {w} [] o =
      let e : steal_from (λ i. i) w.inner ≡ (empty, w.inner) = steal_from-nil (λ i. i) o.rep in
      rw e (refl, o, refl)
  steal-Agrees {w} (x ∷ xs) o =
      let e = steal_from-cons o.rep in
      let r = steal_from-tail o.rep in
      rw e (
        refl,
        record {
          rep = rw e at r;
          cached_in = o.cached_in;
          behind = omega (arith, o.behind);
          near = o.near;
        },
        refl,
      )

  pop-fifo : (w : Worker A) → w.fifo ≡ true → Stealer.pop w ≡ steal_call w
  unfolding Stealer.pop pop_fifo steal_call
  pop-fifo w e = ground arith

  pop-lifo : (w : Worker A) → w.fifo ≡ false → Stealer.pop w ≡ pop_lifo (λ i. i) w
  unfolding Stealer.pop
  pop-lifo w e = ground arith

  -- The owner's pop, by its discipline.
  pub pop-Agrees :
      {w : Worker A} (xs : List A)
      → Owns w xs
      → Agrees (Stealer.pop w) (if w.fifo then pop_front xs else pop_back xs) w.fifo
  pop-Agrees {w} xs o = elim (Bool-cases w.fifo) [
    | inl e ↦
        let q : (if w.fifo then pop_front xs else pop_back xs) ≡ pop_front xs = ground arith in
        rw (pop-fifo w e, q) (steal-Agrees xs o)
    | inr e ↦
        let q : (if w.fifo then pop_front xs else pop_back xs) ≡ pop_back xs = ground arith in
        rw (pop-lifo w e, q) (pop_lifo-Agrees xs o)
  ]

  pub length-pop_front : (xs : List A) → length (pop_front xs).1 ≤ length xs
  unfolding pop_front
  length-pop_front [] = omega arith
  length-pop_front (x ∷ xs) = omega arith

  pub length-pop_back : (xs : List A) → length (pop_back xs).1 ≤ length xs
  unfolding pop_back
  length-pop_back [] = omega arith
  length-pop_back (x ∷ []) = omega arith
  length-pop_back (x ∷ y ∷ ys) = omega (arith, length-pop_back (y ∷ ys))

  length-pop :
      (fifo : Bool) (xs : List A)
      → length (if fifo then pop_front xs else pop_back xs).1 ≤ length xs
  length-pop true xs = length-pop_front xs
  length-pop false xs = length-pop_back xs

  -- Whatever the owner and the thieves call, one call after another, they see what the list of the
  -- elements shows: nothing is lost, duplicated or reordered, through every growth, shrinkage and wrap
  -- of the indices. At most `2 ^ 61` elements are ever held.
  pub run_refines :
      (ops : List (Op A)) {w : Worker A} (xs : List A)
      → Owns w xs
      → length xs + length ops ≤ 2 ^ 61
      → run w ops ≡ run_list w.fifo xs ops
  unfolding run run_list steal_call Worker.push
  run_refines [] xs o small = refl
  run_refines (push v ∷ ops) {w} xs o small =
      ap (λ l. none ∷ l)
        (run_refines ops (xs ++ v ∷ []) (push-Owns v o (omega arith))
          (omega (arith, length-append xs (v ∷ []))))
  run_refines (pop ∷ ops) {w} xs o small =
      let (out, kept, same) = pop-Agrees xs o in
      let rest = if w.fifo then pop_front xs else pop_back xs in
      rw out (
        ap (λ l. rest.0 ∷ l)
          (run_refines ops rest.1 kept (omega (arith, length-pop w.fifo xs))
            ∙ ap (λ f. run_list f rest.1 ops) same))
  run_refines (steal ∷ ops) {w} xs o small =
      let (out, kept, same) = steal-Agrees xs o in
      let rest = pop_front xs in
      ap₂ ◌∷◌ out (run_refines ops rest.1 kept (omega (arith, length-pop_front xs)))
