-- ===== src/Deque/Take.antt =====
-- The two ends of the deque: `pop_lifo` takes the newest element, `steal_from` the oldest.
use mathlib.Core.Path.{subst}
use ws_deque.Base.{
  ℕ, suc, ◌+◌, ◌-◌, ◌/◌, ◌^◌, ◌≤◌, ◌<◌, ◌≡◌, ◌≢◌, inl, inr, refl, sym, ◌∙◌, ap, true, false, Option,
  none, some, List, [], ◌∷◌, ◌++◌, ◌&&◌, Bool, arith, Bool-cases, length, length-append,
  is_negative, ltb, ◌==◌, max, get_elem?-append_left, get_elem?-append_end, word, wrapping_add,
  wrapping_sub, max_zero,
}
use ws_deque.Deque.Buffer.{read, resized}
use ws_deque.Deque.Inner.{Inner}
use ws_deque.Deque.Steal.{Steal, empty, retry, success}
use ws_deque.Deque.Worker.{
  Worker, pop_lifo, pop_last, perhaps_shrink, replace_buffer, min_capacity, shrink_factor,
}
use ws_deque.Deque.Stealer.{steal_from}
use ws_deque.Deque.Pow.{IsCapacity-le, IsCapacity-half}
use ws_deque.Deque.Rep.{Rep, Owns, bottom-eq, max_zero-count, replace_buffer-Rep}

module _ {ℓ} {A : Type ℓ} where
  -- Moving `bottom` back drops the newest element.
  Rep-init :
      {d : Inner A} (ys : List A) (y : A)
      → Rep d (ys ++ y ∷ [])
      → Rep (record d { bottom = wrapping_sub d.bottom 1 }) ys
  Rep-init {d} ys y r = record {
    capacity = r.capacity;
    storage = r.storage;
    bottom_in = omega arith;
    top_in = r.top_in;
    count = omega (
      arith,
      r.count,
      r.bottom_in,
      r.top_in,
      r.room,
      IsCapacity-le r.capacity,
      length-append ys (y ∷ []),
    );
    room = omega (arith, r.room, length-append ys (y ∷ []));
    held = λ j h.
        r.held j (omega (arith, length-append ys (y ∷ []))) ∙ get_elem?-append_left ys (y ∷ []) j h;
  }

  -- The cell before `bottom` holds the newest element.
  pub read-last :
      {d : Inner A} (ys : List A) (y : A)
      → Rep d (ys ++ y ∷ [])
      → read d.buffer (wrapping_sub d.bottom 1) ≡ some y
  read-last {d} ys y r =
      ap (λ i. read d.buffer i) place
      ∙ r.held (length ys) (omega (arith, length-append ys (y ∷ [])))
      ∙ get_elem?-append_end ys y
    where
      place : wrapping_sub d.bottom 1 ≡ wrapping_add d.top (length ys)
      place = omega (arith, bottom-eq r, r.top_in, length-append ys (y ∷ []))

  -- Advancing `top` drops the oldest element.
  pub Rep-tail :
      {d : Inner A} {x : A} {xs : List A}
      → Rep d (x ∷ xs)
      → Rep (record d { top = wrapping_add d.top 1 }) xs
  Rep-tail {d} {x} {xs} r = record {
    capacity = r.capacity;
    storage = r.storage;
    bottom_in = r.bottom_in;
    top_in = omega arith;
    count = omega (arith, r.count, r.bottom_in, r.top_in, r.room, IsCapacity-le r.capacity);
    room = omega (arith, r.room);
    held = λ j h. ap (λ i. read d.buffer i) (shift j) ∙ r.held (suc j) (omega arith);
  }
    where
      shift : (j : ℕ) → wrapping_add (wrapping_add d.top 1) j ≡ wrapping_add d.top (suc j)
      shift j = omega arith

  -- The same state without its last element, by way of the compare-exchange on `top`.
  pub Rep-emptied :
      {d : Inner A} {xs : List A}
      → Rep d xs
      → (i : ℕ) → i < word
      → Rep (record d { bottom = i; top = i }) []
  Rep-emptied {d} {xs} r i h = record {
    capacity = r.capacity;
    storage = r.storage;
    bottom_in = h;
    top_in = h;
    count = omega arith;
    room = omega (arith, r.room);
    held = λ j lt. absurd (omega arith);
  }

  -- Shrinking keeps every element.
  perhaps_shrink-Rep :
      {d : Inner A} {xs : List A} → Rep d xs → Rep (perhaps_shrink d d.bottom d.top) xs
  unfolding perhaps_shrink
  perhaps_shrink-Rep {d} {xs} r = elim (Bool-cases big) [
    | inl yes_big ↦ rw yes_big (shrunk yes_big)
    | inr no_big ↦ rw no_big r
  ]
    where
      big : Bool
      big =
          ltb min_capacity d.buffer.cap
          && ltb (max_zero (wrapping_sub d.bottom d.top)) (d.buffer.cap / shrink_factor)

      shrunk :
          big ≡ true
          → Rep
              (replace_buffer d
                (resized d.buffer (max (d.buffer.cap / 2) min_capacity) d.bottom d.top))
              xs
      shrunk e =
          let sizes : (16 < d.buffer.cap) × (length xs < d.buffer.cap / 3) =
            ground (arith, max_zero-count r) in
          let half = IsCapacity-half r.capacity sizes.0 in
          let c : max (d.buffer.cap / 2) min_capacity ≡ d.buffer.cap / 2 = omega arith in
          replace_buffer-Rep r (max (d.buffer.cap / 2) min_capacity) (rw c half.0) (omega arith)

  bottom-perhaps_shrink : (d : Inner A) (b t : ℕ) → (perhaps_shrink d b t).bottom ≡ d.bottom
  unfolding perhaps_shrink replace_buffer
  bottom-perhaps_shrink d b t = ground arith

  -- `pop_lifo` on an empty deque returns nothing and leaves it empty.
  pub pop_lifo-nil :
      {w : Worker A} (others : Inner A → Inner A)
      → Owns w []
      → ((pop_lifo others w).0 ≡ none) × Owns (pop_lifo others w).1 []
  unfolding pop_lifo
  pop_lifo-nil {w} others o = rw negative (
    refl,
    record {
      rep = Rep-emptied o.rep w.inner.top o.rep.top_in;
      cached_in = o.cached_in;
      behind = omega arith;
      near = omega (arith, same, o.near);
    },
  )
    where
      same : w.inner.top ≡ w.inner.bottom
      same = omega (arith, o.rep.count, o.rep.bottom_in, o.rep.top_in)

      negative : is_negative (wrapping_sub (wrapping_sub w.inner.bottom 1) w.inner.top) ≡ true
      negative = ground (arith, same, o.rep.bottom_in)

  -- How the decremented `bottom` compares with `top` when `n` elements stay.
  pub size-pop :
      {w : Worker A} (ys : List A) (y : A)
      → Owns w (ys ++ y ∷ [])
      → (wrapping_sub (wrapping_sub w.inner.bottom 1) w.inner.top ≡ length ys)
        × (length ys < 2 ^ 62)
  size-pop {w} ys y o =
      let n : length (ys ++ y ∷ []) ≡ length ys + 1 = length-append ys (y ∷ []) in
      let c : w.inner.buffer.cap ≤ 2 ^ 62 = IsCapacity-le o.rep.capacity in
      (
        omega (arith, o.rep.count, o.rep.bottom_in, o.rep.top_in, o.rep.room),
        omega (arith, o.rep.room),
      )

  -- The compare-exchange for the last element wins if no other thread moves `top`.
  pub pop_last-won :
      (d : Inner A) (t : ℕ) (boxed : Option A)
      → d.top ≡ t
      → pop_last (λ i. i) d t boxed
        ≡ (boxed, record d { top = wrapping_add t 1; bottom = wrapping_add t 1 })
  unfolding pop_last
  pop_last-won d t boxed e = ground arith

  -- `pop_lifo` takes the newest element.
  pub pop_lifo-append :
      {w : Worker A} (ys : List A) (y : A)
      → Owns w (ys ++ y ∷ [])
      → ((pop_lifo (λ i. i) w).0 ≡ some y) × Owns (pop_lifo (λ i. i) w).1 ys
  unfolding pop_lifo
  pop_lifo-append {w} [] y o =
      let s = size-pop [] y o in
      let neg : is_negative (wrapping_sub (wrapping_sub w.inner.bottom 1) w.inner.top) ≡ false =
        ground (arith, s) in
      let zero_left : (wrapping_sub (wrapping_sub w.inner.bottom 1) w.inner.top == 0) ≡ true =
        ground (arith, s) in
      let won =
        pop_last-won (record w.inner { bottom = wrapping_sub w.inner.bottom 1 }) w.inner.top
          (read w.inner.buffer (wrapping_sub w.inner.bottom 1)) refl in
      rw (neg, zero_left, won)
        (
          read-last [] y o.rep,
          record {
            rep = Rep-emptied o.rep (wrapping_add w.inner.top 1) (omega arith);
            cached_in = o.cached_in;
            behind = omega arith;
            near = omega (arith, o.near, s, o.rep.bottom_in, o.rep.top_in);
          },
        )
  pop_lifo-append {w} (x ∷ ys) y o =
      let s = size-pop (x ∷ ys) y o in
      let neg : is_negative (wrapping_sub (wrapping_sub w.inner.bottom 1) w.inner.top) ≡ false =
        ground (arith, s) in
      let more_left : (wrapping_sub (wrapping_sub w.inner.bottom 1) w.inner.top == 0) ≡ false =
        ground (arith, s) in
      rw (neg, more_left)
        (
          read-last (x ∷ ys) y o.rep,
          record {
            rep = perhaps_shrink-Rep (Rep-init (x ∷ ys) y o.rep);
            cached_in = o.cached_in;
            behind =
                rw bottom-perhaps_shrink
                  (omega (arith, o.behind, o.near, length-append ys (y ∷ [])));
            near = rw bottom-perhaps_shrink (omega (arith, o.behind, o.near));
          },
        )

  -- `steal_from` on an empty deque says so and changes nothing.
  pub steal_from-nil :
      {d : Inner A} (others : Inner A → Inner A) → Rep d [] → steal_from others d ≡ (empty, d)
  unfolding steal_from
  steal_from-nil {d} others r = ground (arith, r.count)

  -- The cell at `top` holds the oldest element.
  pub read-first :
      {d : Inner A} {x : A} {xs : List A} → Rep d (x ∷ xs) → read d.buffer d.top ≡ some x
  read-first {d} {x} {xs} r =
      let e : wrapping_add d.top 0 ≡ d.top = omega (arith, r.top_in) in
      ap (λ i. read d.buffer i) (sym e) ∙ r.held 0 (omega arith)

  -- `steal_from` takes the oldest element.
  pub steal_from-cons :
      {d : Inner A} {x : A} {xs : List A}
      → Rep d (x ∷ xs)
      → steal_from (λ i. i) d ≡ (success x, record d { top = wrapping_add d.top 1 })
  unfolding steal_from
  steal_from-cons {d} {x} {xs} r =
      ground (arith, read-first r, r.count, r.room, IsCapacity-le r.capacity)

  pub steal_from-tail :
      {d : Inner A} {x : A} {xs : List A} → Rep d (x ∷ xs) → Rep (steal_from (λ i. i) d).1 xs
  steal_from-tail {d} {x} {xs} r =
      let e : record d { top = wrapping_add d.top 1 } ≡ (steal_from (λ i. i) d).1 =
        sym (ap (λ (p : Steal A × Inner A). p.1) (steal_from-cons r)) in
      subst (λ s. Rep s xs) e (Rep-tail r)

  -- A thief whose compare-exchange finds another `top` takes nothing: the state is as the others left
  -- it, and the thief is told to retry.
  steal_from-lost :
      {d : Inner A} {x : A} {xs : List A} (others : Inner A → Inner A)
      → Rep d (x ∷ xs)
      → (others d).top ≢ d.top
      → steal_from others d ≡ (retry, others d)
  unfolding steal_from
  steal_from-lost {d} {x} {xs} others r moved =
      let n : d.in_flight + 1 - 1 ≡ d.in_flight = omega arith in
      let back : record d { in_flight = d.in_flight + 1 - 1 } ≡ d =
        λ i. record d { in_flight = n i } in
      let met : others (record d { in_flight = d.in_flight + 1 - 1 }) ≡ others d = ap others back in
      rw met (ground (arith, r.count, r.room, IsCapacity-le r.capacity))

  -- An owner that lost the race for the last element takes nothing and sees an empty deque.
  pub pop_last-lost :
      (others : Inner A → Inner A) (d : Inner A) (t : ℕ) (boxed : Option A)
      → (others d).top ≢ t
      → pop_last others d t boxed ≡ (none, record (others d) { bottom = wrapping_add t 1 })
  unfolding pop_last
  pop_last-lost others d t boxed moved = ground arith
