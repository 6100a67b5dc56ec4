-- ===== src/Deque/OwnerSteps.antt =====
-- src/lib.rs, threads at work at once: the steps of the owner.
use ws_deque.Base.{
  ℕ, ◌+◌, ◌^◌, ◌≤◌, ◌<◌, ◌≡◌, inl, inr, refl, sym, ◌∙◌, ap, true, false, Bool-cases, some, List, [],
  ◌∷◌, ◌++◌, get_elem?, length, length-append, arith, word, wrapping_add, wrapping_sub,
  if◌then◌else◌,
}
use mathlib.Core.Path.{subst}
use ws_deque.Distributed.Weight.{total, total-append}
use ws_deque.Deque.Buffer.{read, write, grow}
use ws_deque.Deque.Inner
use ws_deque.Deque.Inner.{Inner}
use ws_deque.Deque.Worker.{Worker, push, refresh_top, ensure_room, perhaps_shrink, replace_buffer}
use ws_deque.Deque.Rep.{Rep, Owns, top-replace_buffer}
use ws_deque.Deque.Push.{push-Owns}
use ws_deque.Deque.Threads.{System, resting, lowered, Thief, pop_begin, grows}
use ws_deque.Deque.Shared.{
  raised, OwnerSound, ThiefSound, inside-le, Sound, Kept, Kept-same, Kept-replaced, Kept-ThiefSound,
}

module _ {ℓ} {A : Type ℓ} where
  -- The oldest element is in the cell at `top`.
  pub front_cell :
      {d : Inner A} {xs : List A} → Rep d xs → 0 < length xs → read d.buffer d.top ≡ get_elem? xs 0
  front_cell {d} r more =
      let e : wrapping_add d.top 0 ≡ d.top = omega (arith, r.top_in) in
      ap (read d.buffer) (sym e) ∙ r.held 0 more

  pub get_elem?-front : (xs ys : List A) → 0 < length xs → get_elem? (xs ++ ys) 0 ≡ get_elem? xs 0
  get_elem?-front [] ys h = absurd (omega arith)
  get_elem?-front (x ∷ xs) ys h = refl

  -- Whichever way the owner goes, every thief goes on.
  pub thieves-Kept :
      {s : System A} {xs : List A} (later : Inner A) (serial : ℕ) (returned xs' : List A)
      → Sound s xs
      → Kept s.worker.inner s.serial later serial xs xs'
      → length s.returned ≤ length returned
      → (i : ℕ) (p : Thief A) → get_elem? s.thieves i ≡ some p
      → ThiefSound later serial (length returned) xs' p
  thieves-Kept {s} later serial returned xs' o k le i p q =
      Kept-ThiefSound k le p (omega (arith, inside-le s.thieves i p q, o.counted)) (o.each i p q)

  module _ (w : Worker A) (v : A) where
    push-stays :
        grows w ≡ false
        → (push w v).inner ≡ record w.inner {
          buffer = write w.inner.buffer w.inner.bottom (some v);
          bottom = wrapping_add w.inner.bottom 1;
        }
    unfolding push ensure_room grows
    push-stays e = rw e refl

    push-grows :
        grows w ≡ true
        → let fresh = replace_buffer w.inner (grow w.inner.buffer w.inner.bottom (refresh_top w)) in
          (push w v).inner ≡ record fresh {
            buffer = write fresh.buffer w.inner.bottom (some v);
            bottom = wrapping_add w.inner.bottom 1;
          }
    unfolding push ensure_room grows
    push-grows e = rw e refl

    in_flight-push : (push w v).inner.in_flight ≡ w.inner.in_flight
    unfolding push ensure_room replace_buffer Inner.retire Inner.try_reclaim
    in_flight-push = ground arith

  pub in_flight-perhaps_shrink :
      (d : Inner A) (b t : ℕ) → (perhaps_shrink d b t).in_flight ≡ d.in_flight
  unfolding perhaps_shrink replace_buffer Inner.retire Inner.try_reclaim
  in_flight-perhaps_shrink d b t = ground arith

  push-Kept :
      {w : Worker A} {xs : List A} (v : A) (serial : ℕ)
      → Owns w xs
      → length xs < 2 ^ 61
      → Kept w.inner serial
          (push w v).inner
          (if grows w then serial + 1 else serial)
          xs
          (xs ++ v ∷ [])
  push-Kept {w} {xs} v serial o small =
      let next : Owns (push w v) (xs ++ v ∷ []) = push-Owns v o small in
      let front : 0 < length xs
          → (0 < length (xs ++ v ∷ [])) × (get_elem? (xs ++ v ∷ []) 0 ≡ get_elem? xs 0) =
        λ more. (omega (arith, length-append xs (v ∷ [])), get_elem?-front xs (v ∷ []) more) in
      elim (Bool-cases (grows w)) [
        | inl e ↦
            let q = push-grows w v e in
            let fresh =
              replace_buffer w.inner (grow w.inner.buffer w.inner.bottom (refresh_top w)) in
            rw e (
              Kept-replaced (grow w.inner.buffer w.inner.bottom (refresh_top w)) refl
                (ap (λ (d : Inner A). d.top) q ∙ top-replace_buffer w.inner _)
                (ap (λ (d : Inner A). d.retired) q) front)
        | inr e ↦
            let q = push-stays w v e in
            let same_top : (push w v).inner.top ≡ w.inner.top = ap (λ (d : Inner A). d.top) q in
            rw e (
              Kept-same same_top (ap (λ (d : Inner A). d.retired) q) front (λ more.
                ap (read (push w v).inner.buffer) (sym same_top)
                ∙ front_cell next.rep (front more).0
                ∙ (front more).1
                ∙ sym (front_cell o.rep more)))
      ]

  -- The sum over the elements pushed, returned and held, after a push.
  flow_pushed :
      (f : A → ℕ) (v : A) (pushed returned xs : List A)
      → total f pushed ≡ total f returned + total f xs
      → total f (v ∷ pushed) ≡ total f returned + total f (xs ++ v ∷ [])
  flow_pushed f v pushed returned xs h = omega (arith, h, total-append f xs (v ∷ []))

  pub push-Sound :
      {s : System A} {xs : List A} (v : A)
      → s.owner ≡ resting
      → Sound s xs
      → length xs < 2 ^ 61
      → Sound
          (record s {
            worker = push s.worker v;
            serial = if grows s.worker then s.serial + 1 else s.serial;
            pushed = v ∷ s.pushed;
          })
          (xs ++ v ∷ [])
  push-Sound {s} {xs} v e o small =
      let owns : Owns s.worker xs = subst (λ p. OwnerSound s.worker p xs) e o.owner in
      record {
        owner =
            subst (λ p. OwnerSound (push s.worker v) p (xs ++ v ∷ [])) (sym e)
              (push-Owns v owns small);
        flow = λ f. flow_pushed f v s.pushed s.returned xs (o.flow f);
        counted = in_flight-push s.worker v ∙ o.counted;
        each =
            thieves-Kept (push s.worker v).inner (if grows s.worker then s.serial + 1 else s.serial)
              s.returned (xs ++ v ∷ []) o (push-Kept v s.serial owns small) (omega arith);
      }

  -- `bottom` is lowered.
  raised-pop_begin : (w : Worker A) → w.inner.bottom < word → raised (pop_begin w) ≡ w
  unfolding raised pop_begin
  raised-pop_begin w h =
      let e : wrapping_add (wrapping_sub w.inner.bottom 1) 1 ≡ w.inner.bottom = omega arith in
      λ i. record w { inner = record w.inner { bottom = e i } }

  pub pop_begin-raised : (w : Worker A) → w.inner.bottom < word → pop_begin (raised w) ≡ w
  unfolding raised pop_begin
  pop_begin-raised w h =
      let e : wrapping_sub (wrapping_add w.inner.bottom 1) 1 ≡ w.inner.bottom = omega arith in
      λ i. record w { inner = record w.inner { bottom = e i } }

  pub begin-Sound :
      {s : System A} {xs : List A}
      → s.owner ≡ resting
      → Sound s xs
      → Sound (record s { worker = pop_begin s.worker; owner = lowered }) xs
  unfolding pop_begin
  begin-Sound {s} {xs} e o =
      let owns : Owns s.worker xs = subst (λ p. OwnerSound s.worker p xs) e o.owner in
      record {
        owner = (
          omega arith,
          subst (λ w. Owns w xs) (sym (raised-pop_begin s.worker owns.rep.bottom_in)) owns,
        );
        flow = o.flow;
        counted = o.counted;
        each =
            thieves-Kept (pop_begin s.worker).inner s.serial s.returned xs o
              (Kept-same refl refl (λ more. (more, refl)) (λ more. refl)) (omega arith);
      }
