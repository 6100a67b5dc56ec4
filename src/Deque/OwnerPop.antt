-- ===== src/Deque/OwnerPop.antt =====
-- src/lib.rs, threads at work at once: what the owner's look and its compare-exchange leave.
use ws_deque.Base.{
  ℕ, ◌+◌, ◌^◌, ◌≤◌, ◌<◌, ◌≡◌, inl, inr, refl, sym, ◌∙◌, ap, Bool, true, false, Bool-cases, Option,
  none, some, List, [], ◌∷◌, ◌++◌, get_elem?, length, length-append, arith, word, wrapping_add,
  wrapping_sub, is_negative, ◌==◌, ltb, max, ◌/◌, max_zero, ◌&&◌, if◌then◌else◌,
}
use mathlib.Core.Path.{subst}
use ws_deque.Distributed.Weight.{total, total-append}
use ws_deque.Deque.Buffer.{read, resized}
use ws_deque.Deque.Inner.{Inner}
use ws_deque.Deque.Worker.{Worker, perhaps_shrink, pop_lifo, pop_last, min_capacity, shrink_factor}
use ws_deque.Deque.Pow.{IsCapacity-le}
use ws_deque.Deque.Rep.{Owns, top-replace_buffer}
use ws_deque.Deque.Take.{pop_lifo-nil, pop_lifo-append, Rep-emptied}
use ws_deque.Deque.Refine.{pop_back-cases}
use ws_deque.Deque.Threads.{
  System, Owner, resting, lowered, racing, pop_begin, pop_look, shrinks, deliver, pop_lifo-steps,
  settle,
}
use ws_deque.Deque.Shared.{
  raised, OwnerSound, Sound, Kept, Kept-same, Kept-replaced, moved-ThiefSound,
}
use ws_deque.Deque.OwnerSteps.{
  front_cell, get_elem?-front, thieves-Kept, in_flight-perhaps_shrink, pop_begin-raised,
}

module _ {ℓ} {A : Type ℓ} where
  -- What `pop_look` finds, by the size after the decrement.
  module _ (w : Worker A) where
    pop_look-none :
        is_negative (wrapping_sub w.inner.bottom w.inner.top) ≡ true
        → pop_look w ≡ (none, resting, record w { inner = record w.inner { bottom = w.inner.top } })
    unfolding pop_look
    pop_look-none e = rw e refl

    pop_look-last :
        is_negative (wrapping_sub w.inner.bottom w.inner.top) ≡ false
        → (wrapping_sub w.inner.bottom w.inner.top == 0) ≡ true
        → pop_look w ≡ (none, racing w.inner.top (read w.inner.buffer w.inner.bottom), w)
    unfolding pop_look
    pop_look-last e z = rw (e, z) refl

    pop_look-more :
        is_negative (wrapping_sub w.inner.bottom w.inner.top) ≡ false
        → (wrapping_sub w.inner.bottom w.inner.top == 0) ≡ false
        → pop_look w ≡ (
          read w.inner.buffer w.inner.bottom,
          resting,
          record w { inner = perhaps_shrink w.inner w.inner.bottom w.inner.top },
        )
    unfolding pop_look
    pop_look-more e z = rw (e, z) refl

  -- A look that ends the pop leaves what `pop_lifo` leaves.
  pop_lifo-look :
      (w w' : Worker A) (out : Option A)
      → w.inner.bottom < word
      → pop_look w ≡ (out, resting, w')
      → pop_lifo (λ i. i) (raised w) ≡ (out, w')
  pop_lifo-look w w' out h e =
      let q : pop_look (pop_begin (raised w)) ≡ (out, resting, w') =
        ap pop_look (pop_begin-raised w h) ∙ e in
      pop_lifo-steps (λ i. i) (raised w) ∙ ap (settle (λ i. i)) q

  perhaps_shrink-Kept :
      (w : Worker A) (serial : ℕ) (xs xs' : List A)
      → ltb 0 (max_zero (wrapping_sub w.inner.bottom w.inner.top)) ≡ true
      → (0 < length xs → (0 < length xs') × (get_elem? xs' 0 ≡ get_elem? xs 0))
      → Kept w.inner serial
          (perhaps_shrink w.inner w.inner.bottom w.inner.top)
          (if shrinks w then serial + 1 else serial)
          xs
          xs'
  unfolding perhaps_shrink shrinks
  perhaps_shrink-Kept w serial xs xs' some_left front = elim (Bool-cases big) [
    | inl e ↦
        rw (some_left, e)
          (Kept-replaced
            (resized w.inner.buffer (max (w.inner.buffer.cap / 2) min_capacity) w.inner.bottom
              w.inner.top)
            refl (top-replace_buffer w.inner _) refl front)
    | inr e ↦ rw (some_left, e) (Kept-same refl refl front (λ more. refl))
  ]
    where
      big : Bool
      big =
          ltb min_capacity w.inner.buffer.cap
          && ltb (max_zero (wrapping_sub w.inner.bottom w.inner.top))
              (w.inner.buffer.cap / shrink_factor)

  -- The look of an owner whose deque is empty.
  look-Sound-none :
      {s : System A}
      → s.owner ≡ lowered
      → Sound s []
      → (pop_look s.worker ≡ (
        none,
        resting,
        record s.worker { inner = record s.worker.inner { bottom = s.worker.inner.top } },
      ))
        × Owns
            (record s.worker { inner = record s.worker.inner { bottom = s.worker.inner.top } })
            []
  unfolding raised
  look-Sound-none {s} e o =
      let w = s.worker in
      let (small, owns) : OwnerSound w lowered [] = subst (λ p. OwnerSound w p []) e o.owner in
      let neg : is_negative (wrapping_sub w.inner.bottom w.inner.top) ≡ true =
        ground (arith, owns.rep.count, owns.rep.top_in, small) in
      let q = pop_look-none w neg in
      let r = pop_lifo-look w _ none small q in
      (q, subst (λ (p : Option A × Worker A). Owns p.1 []) r (pop_lifo-nil (λ i. i) owns).1)

  shrinks-none :
      (w : Worker A)
      → ltb 0 (max_zero (wrapping_sub w.inner.bottom w.inner.top)) ≡ false
      → shrinks w ≡ false
  unfolding shrinks
  shrinks-none w e = rw e refl

  -- The state after a look.
  abbrev pub looked : System A → Option A × Owner A × Worker A → System A
  looked s (out, owner, w) = record s {
    worker = w;
    owner = owner;
    serial = if shrinks s.worker then s.serial + 1 else s.serial;
    returned = deliver out s.returned;
  }

  look_none-Sound :
      {s : System A} → s.owner ≡ lowered → Sound s [] → Sound (looked s (pop_look s.worker)) []
  unfolding raised
  look_none-Sound {s} e o =
      let w = s.worker in
      let (q, owns) = look-Sound-none e o in
      let (small, before) : OwnerSound w lowered [] = subst (λ p. OwnerSound w p []) e o.owner in
      let kept : shrinks w ≡ false =
        shrinks-none w (ground (arith, before.rep.count, before.rep.top_in, small)) in
      rw (q, kept)
        (record {
          owner = owns;
          flow = o.flow;
          counted = o.counted;
          each =
              thieves-Kept (record w.inner { bottom = w.inner.top }) s.serial s.returned [] o
                (Kept-same refl refl (λ more. (more, refl)) (λ more. refl)) (omega arith);
        })

  look_last-Sound :
      {s : System A} (y : A)
      → s.owner ≡ lowered
      → Sound s (y ∷ [])
      → Sound (looked s (pop_look s.worker)) (y ∷ [])
  unfolding raised
  look_last-Sound {s} y e o =
      let w = s.worker in
      let (small, before) : OwnerSound w lowered (y ∷ []) =
        subst (λ p. OwnerSound w p (y ∷ [])) e o.owner in
      let same : w.inner.bottom ≡ w.inner.top =
        omega (arith, before.rep.count, before.rep.top_in, small) in
      let neg : is_negative (wrapping_sub w.inner.bottom w.inner.top) ≡ false =
        ground (arith, same) in
      let z : (wrapping_sub w.inner.bottom w.inner.top == 0) ≡ true = ground (arith, same) in
      let kept : shrinks w ≡ false = shrinks-none w (ground (arith, same)) in
      rw (pop_look-last w neg z, kept)
        (record {
          owner = (
            same,
            before.rep.top_in,
            before,
            inl (refl, refl, ap (read w.inner.buffer) same ∙ front_cell before.rep (omega arith)),
          );
          flow = o.flow;
          counted = o.counted;
          each =
              thieves-Kept w.inner s.serial s.returned (y ∷ []) o
                (Kept-same refl refl (λ more. (more, refl)) (λ more. refl)) (omega arith);
        })

  -- The sum over the elements after the newest was returned.
  flow_newest :
      (f : A → ℕ) (y : A) (pushed returned ys : List A)
      → total f pushed ≡ total f returned + total f (ys ++ y ∷ [])
      → total f pushed ≡ total f (y ∷ returned) + total f ys
  flow_newest f y pushed returned ys h = omega (arith, h, total-append f ys (y ∷ []))

  look_more-Sound :
      {s : System A} (ys : List A) (y : A)
      → s.owner ≡ lowered
      → Sound s (ys ++ y ∷ [])
      → 0 < length ys
      → Sound (looked s (pop_look s.worker)) ys
  unfolding raised
  look_more-Sound {s} ys y e o more =
      let w = s.worker in
      let (small, before) : OwnerSound w lowered (ys ++ y ∷ []) =
        subst (λ p. OwnerSound w p (ys ++ y ∷ [])) e o.owner in
      let n : length (ys ++ y ∷ []) ≡ length ys + 1 = length-append ys (y ∷ []) in
      let cap_le : w.inner.buffer.cap ≤ 2 ^ 62 = IsCapacity-le before.rep.capacity in
      let size : wrapping_sub w.inner.bottom w.inner.top ≡ length ys =
        omega (arith, before.rep.count, before.rep.top_in, before.rep.room, small) in
      let few : length ys < 2 ^ 62 = omega (arith, before.rep.room) in
      let neg : is_negative (wrapping_sub w.inner.bottom w.inner.top) ≡ false =
        ground (arith, size, few) in
      let z : (wrapping_sub w.inner.bottom w.inner.top == 0) ≡ false = ground (arith, size, more) in
      let left : ltb 0 (max_zero (wrapping_sub w.inner.bottom w.inner.top)) ≡ true =
        ground (arith, size, few, more) in
      let later = perhaps_shrink w.inner w.inner.bottom w.inner.top in
      let q = pop_look-more w neg z in
      let r =
        pop_lifo-look w (record w { inner = later }) (read w.inner.buffer w.inner.bottom) small q in
      let taken = pop_lifo-append ys y before in
      let out : read w.inner.buffer w.inner.bottom ≡ some y =
        sym (ap (λ (p : Option A × Worker A). p.0) r) ∙ taken.0 in
      let owns : Owns (record w { inner = later }) ys =
        subst (λ (p : Option A × Worker A). Owns p.1 ys) r taken.1 in
      let serial = if shrinks w then s.serial + 1 else s.serial in
      rw (q, out)
        (record {
          owner = owns;
          flow = λ f. flow_newest f y s.pushed s.returned ys (o.flow f);
          counted = in_flight-perhaps_shrink w.inner w.inner.bottom w.inner.top ∙ o.counted;
          each =
              thieves-Kept later serial (y ∷ s.returned) ys o
                (perhaps_shrink-Kept w s.serial (ys ++ y ∷ []) ys left
                  (λ any. (more, sym (get_elem?-front ys (y ∷ []) more))))
                (omega arith);
        })

  -- A look leaves the deque with what it held, or without the newest element, which it returned.
  pub look-Sound :
      {s : System A} (xs : List A)
      → s.owner ≡ lowered
      → Sound s xs
      → (xs' : List A) × Sound (looked s (pop_look s.worker)) xs'
  look-Sound {s} xs e o = elim (pop_back-cases xs) [
    | inl n ↦ ([], look_none-Sound e (subst (λ l. Sound s l) n o))
    | inr ([], y, n, f) ↦ (y ∷ [], look_last-Sound y e (subst (λ l. Sound s l) n o))
    | inr (x ∷ ys, y, n, f) ↦
        (x ∷ ys, look_more-Sound (x ∷ ys) y e (subst (λ l. Sound s l) n o) (omega arith))
  ]

  -- The state after the compare-exchange.
  abbrev pub settled : System A → Option A × Inner A → System A
  settled s (out, inner) = record s {
    worker = record s.worker { inner = inner };
    owner = resting;
    returned = deliver out s.returned;
  }

  won_race :
      (d : Inner A) (t : ℕ) (boxed : Option A)
      → d.top ≡ t
      → pop_last (λ i. i) d t boxed
        ≡ (boxed, record d { top = wrapping_add t 1; bottom = wrapping_add t 1 })
  unfolding pop_last
  won_race d t boxed e = ground arith

  lost_race :
      (d : Inner A) (t : ℕ) (boxed : Option A)
      → t < word
      → d.top ≡ wrapping_add t 1
      → pop_last (λ i. i) d t boxed ≡ (none, record d { bottom = wrapping_add t 1 })
  unfolding pop_last
  lost_race d t boxed h e = ground (arith, e, h)

  one_element : (xs : List A) → length xs ≡ 1 → (x : A) × (xs ≡ x ∷ [])
  one_element [] e = absurd (omega arith)
  one_element (x ∷ []) e = (x, refl)
  one_element (x ∷ y ∷ xs) e = absurd (omega arith)

  no_element : (xs : List A) → length xs ≡ 0 → xs ≡ []
  no_element [] e = refl
  no_element (x ∷ xs) e = absurd (omega arith)

  -- What the racing owner knows.
  racing-Sound :
      {s : System A} {xs : List A} (t : ℕ) (boxed : Option A)
      → s.owner ≡ racing t boxed
      → Sound s xs
      → OwnerSound s.worker (racing t boxed) xs
  racing-Sound {s} {xs} t boxed e o = subst (λ p. OwnerSound s.worker p xs) e o.owner

  settle_won-Sound :
      {s : System A} (x : A) (t : ℕ)
      → s.owner ≡ racing t (some x)
      → Sound s (x ∷ [])
      → s.worker.inner.top ≡ t
      → Sound (settled s (pop_last (λ i. i) s.worker.inner t (some x))) []
  unfolding raised
  settle_won-Sound {s} x t e o first =
      let w = s.worker in
      let (at, small, before, raced) = racing-Sound t (some x) e o in
      rw (won_race w.inner t (some x) first) (record {
        owner = record {
          rep = Rep-emptied before.rep (wrapping_add t 1) (omega arith);
          cached_in = before.cached_in;
          behind = omega arith;
          near = omega (arith, before.near, at);
        };
        flow = λ f. omega (arith, o.flow f);
        counted = o.counted;
        each = λ i p q.
            moved-ThiefSound w.inner
              (record w.inner { top = wrapping_add t 1; bottom = wrapping_add t 1 }) s.serial
              (length s.returned) (x ∷ []) [] (omega (arith, first)) refl refl p (o.each i p q);
      })

  settle_lost-Sound :
      {s : System A} (t : ℕ) (boxed : Option A)
      → s.owner ≡ racing t boxed
      → Sound s []
      → s.worker.inner.top ≡ wrapping_add t 1
      → Sound (settled s (pop_last (λ i. i) s.worker.inner t boxed)) []
  unfolding raised
  settle_lost-Sound {s} t boxed e o moved =
      let w = s.worker in
      let (at, small, before, raced) = racing-Sound t boxed e o in
      let later = record w.inner { bottom = wrapping_add t 1 } in
      rw (lost_race w.inner t boxed small moved) (record {
        owner =
            subst (λ k. Owns (record w { inner = record w.inner { bottom = wrapping_add k 1 } }) [])
              at before;
        flow = o.flow;
        counted = o.counted;
        each =
            thieves-Kept later s.serial s.returned [] o
              (Kept-same refl refl (λ more. (more, refl)) (λ more. refl)) (omega arith);
      })

  -- The compare-exchange for the last element ends the pop, and the deque is empty: either the owner
  -- returned the element, or a thief had returned it.
  pub settle-Sound :
      {s : System A} (xs : List A) (t : ℕ) (boxed : Option A)
      → s.owner ≡ racing t boxed
      → Sound s xs
      → Sound (settled s (pop_last (λ i. i) s.worker.inner t boxed)) []
  settle-Sound {s} xs t boxed e o =
      let (at, small, before, raced) = racing-Sound t boxed e o in
      elim raced [
        | inl (first, one, read_it) ↦
            let (x, n) = one_element xs one in
            let same : boxed ≡ some x = read_it ∙ ap (λ l. get_elem? l 0) n in
            rw same
              (settle_won-Sound x t (e ∙ ap (racing t) same) (subst (λ l. Sound s l) n o) first)
        | inr (moved, none_left) ↦
            settle_lost-Sound t boxed e (subst (λ l. Sound s l) (no_element xs none_left) o) moved
      ]
