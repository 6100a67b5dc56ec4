-- ===== src/Deque/ThiefSteps.antt =====
-- src/lib.rs, threads at work at once: the steps of a thief.
use ws_deque.Base.{
  ℕ, suc, ◌+◌, ◌-◌, ◌<◌, ◌≡◌, inl, inr, refl, sym, ◌∙◌, ap, false, some, List, [], ◌∷◌, get_elem?,
  get_elem?-set_cases, set, length, arith, word, wrapping_add, wrapping_sub, isize_le,
}
use mathlib.Core.Path.{subst}
use ws_deque.Distributed.Weight.{total-set}
use ws_deque.Deque.Buffer.{read}
use ws_deque.Deque.Worker.{Worker}
use ws_deque.Deque.Rep.{Owns}
use ws_deque.Deque.Take.{Rep-tail}
use ws_deque.Deque.Threads.{
  System, Owner, resting, lowered, racing, Thief, idle, saw, entered, loaded, holding, pointed,
  read_at,
}
use ws_deque.Deque.Shared.{
  raised, OwnerSound, Ticket, ThiefSound, inside, inside-le, Sound, counted-ThiefSound,
  moved-ThiefSound,
}
use ws_deque.Deque.OwnerSteps.{front_cell}

module _ {ℓ} {A : Type ℓ} where
  -- Wherever the owner is, the oldest element is in the cell at `top`.
  owner_front :
      (w : Worker A) (owner : Owner A) (xs : List A)
      → OwnerSound w owner xs
      → (w.inner.top < word) × (0 < length xs → read w.inner.buffer w.inner.top ≡ get_elem? xs 0)
  unfolding raised
  owner_front w resting xs o = (o.rep.top_in, front_cell o.rep)
  owner_front w lowered xs (h, o) = (o.rep.top_in, front_cell o.rep)
  owner_front w (racing t boxed) xs (at, h, o, raced) = (o.rep.top_in, front_cell o.rep)

  -- Whatever the owner is about, a thief that finds `bottom` above `top` finds an element.
  visible :
      (w : Worker A) (owner : Owner A) (xs : List A)
      → OwnerSound w owner xs
      → isize_le (wrapping_sub w.inner.bottom w.inner.top) 0 ≡ false
      → 0 < length xs
  unfolding raised
  visible w resting xs o e = ground (arith, o.rep.count)
  visible w lowered xs (h, o) e = ground (arith, o.rep.count, o.rep.top_in)
  visible w (racing t boxed) xs (at, h, o, raced) e = ground (arith, o.rep.count, o.rep.top_in)

  Owns-tail :
      {w : Worker A} {x : A} {xs : List A}
      → Owns w (x ∷ xs)
      → Owns (record w { inner = record w.inner { top = wrapping_add w.inner.top 1 } }) xs
  Owns-tail o = record {
    rep = Rep-tail o.rep;
    cached_in = o.cached_in;
    behind = omega (arith, o.behind);
    near = o.near;
  }

  Owns-counted :
      {w : Worker A} {xs : List A} (n : ℕ)
      → Owns w xs
      → Owns (record w { inner = record w.inner { in_flight = n } }) xs
  Owns-counted n o = record {
    rep = record {
      capacity = o.rep.capacity;
      storage = o.rep.storage;
      bottom_in = o.rep.bottom_in;
      top_in = o.rep.top_in;
      count = o.rep.count;
      room = o.rep.room;
      held = o.rep.held;
    };
    cached_in = o.cached_in;
    behind = o.behind;
    near = o.near;
  }

  -- The oldest element leaves by `top`.
  owner_advanced :
      (w : Worker A) (owner : Owner A) (x : A) (xs : List A)
      → OwnerSound w owner (x ∷ xs)
      → OwnerSound
          (record w { inner = record w.inner { top = wrapping_add w.inner.top 1 } })
          owner
          xs
  unfolding raised
  owner_advanced w resting x xs o = Owns-tail o
  owner_advanced w lowered x xs (h, o) = (h, Owns-tail o)
  owner_advanced w (racing t boxed) x xs (at, h, o, inl (first, one, read_it)) =
      (at, h, Owns-tail o, inr (omega (arith, first), omega arith))
  owner_advanced w (racing t boxed) x xs (at, h, o, inr (moved, none_left)) = absurd (omega arith)

  -- Nothing of the owner's depends on `in_flight` here.
  owner_counted :
      (w : Worker A) (owner : Owner A) (xs : List A) (n : ℕ)
      → OwnerSound w owner xs
      → OwnerSound (record w { inner = record w.inner { in_flight = n } }) owner xs
  unfolding raised
  owner_counted w resting xs n o = Owns-counted n o
  owner_counted w lowered xs n (h, o) = (h, Owns-counted n o)
  owner_counted w (racing t boxed) xs n (at, h, o, raced) = (at, h, Owns-counted n o, raced)

  -- A step of one thief that only reads, or enters or leaves the critical section.
  pub only_thief :
      {s : System A} {xs : List A} (i : ℕ) (p p' : Thief A) (n : ℕ)
      → get_elem? s.thieves i ≡ some p
      → Sound s xs
      → ThiefSound s.worker.inner s.serial (length s.returned) xs p'
      → n + inside p ≡ s.worker.inner.in_flight + inside p'
      → Sound
          (record s {
            worker = record s.worker { inner = record s.worker.inner { in_flight = n } };
            thieves = set s.thieves i p';
          })
          xs
  only_thief {s} {xs} i p p' n q o fresh flight = record {
    owner = owner_counted s.worker s.owner xs n o.owner;
    flow = o.flow;
    counted = omega (arith, flight, o.counted, total-set inside s.thieves i p p' q);
    each = λ k d e.
        counted-ThiefSound s.worker.inner n s.serial (length s.returned) xs d
          (elim (get_elem?-set_cases s.thieves i k p p' d q e) [
            | inl same ↦
                subst (λ d. ThiefSound s.worker.inner s.serial (length s.returned) xs d) same fresh
            | inr old ↦ o.each k d old
          ]);
  }

  -- The thief's steps. At the last one it returns the oldest element, if `top` has not moved.
  pub reads_top :
      {s : System A} {xs : List A} (i : ℕ)
      → get_elem? s.thieves i ≡ some idle
      → Sound s xs
      → Sound (record s { thieves = set s.thieves i (saw s.worker.inner.top) }) xs
  reads_top {s} {xs} i q o =
      only_thief i idle (saw s.worker.inner.top) s.worker.inner.in_flight q o
        (record {
          since = 0;
          few = omega arith;
          in_word = (owner_front s.worker s.owner xs o.owner).0;
          now = omega (arith, (owner_front s.worker s.owner xs o.owner).0);
          still = λ z. tt;
        })
        refl

  pub reads_bottom :
      {s : System A} {xs : List A} (i t : ℕ)
      → get_elem? s.thieves i ≡ some (saw t)
      → Sound s xs
      → isize_le (wrapping_sub s.worker.inner.bottom t) 0 ≡ false
      → Sound
          (record s {
            worker = record s.worker {
              inner = record s.worker.inner { in_flight = s.worker.inner.in_flight + 1 };
            };
            thieves = set s.thieves i (entered t);
          })
          xs
  reads_bottom {s} {xs} i t q o more =
      let k : Ticket s.worker.inner (length s.returned) t Unit = o.each i (saw t) q in
      only_thief i (saw t) (entered t) (s.worker.inner.in_flight + 1) q o
        (record {
          since = k.since;
          few = k.few;
          in_word = k.in_word;
          now = k.now;
          still = λ z.
              let e : t ≡ s.worker.inner.top = omega (arith, k.now, k.in_word, z) in
              (
                visible s.worker s.owner xs o.owner
                    (ap (λ u. isize_le (wrapping_sub s.worker.inner.bottom u) 0) (sym e) ∙ more),
                tt,
              );
        })
        (omega arith)

  pub reads_buffer :
      {s : System A} {xs : List A} (i t : ℕ)
      → get_elem? s.thieves i ≡ some (entered t)
      → Sound s xs
      → Sound (record s { thieves = set s.thieves i (loaded t s.serial) }) xs
  unfolding pointed
  reads_buffer {s} {xs} i t q o =
      let k = o.each i (entered t) q in
      let age : s.serial - s.serial ≡ 0 = omega arith in
      only_thief i (entered t) (loaded t s.serial) s.worker.inner.in_flight q o
        (
          omega arith,
          (
            s.worker.inner.buffer,
            ap (pointed s.worker.inner) age,
            record {
              since = k.since;
              few = k.few;
              in_word = k.in_word;
              now = k.now;
              still = λ z.
                  let more : 0 < length xs = (k.still z).0 in
                  (more, (owner_front s.worker s.owner xs o.owner).1 more);
            },
          ),
        )
        refl

  pub reads_cell :
      {s : System A} {xs : List A} (i t j : ℕ)
      → get_elem? s.thieves i ≡ some (loaded t j)
      → Sound s xs
      → Sound
          (record s {
            worker = record s.worker {
              inner = record s.worker.inner { in_flight = s.worker.inner.in_flight - 1 };
            };
            thieves =
                set s.thieves i (holding t (read_at (pointed s.worker.inner (s.serial - j)) t));
          })
          xs
  unfolding read_at
  reads_cell {s} {xs} i t j q o =
      let (lt, (buf, e, k)) = o.each i (loaded t j) q in
      let got : read_at (pointed s.worker.inner (s.serial - j)) t ≡ read buf t =
        ap (λ b. read_at b t) e in
      only_thief i (loaded t j) (holding t (read_at (pointed s.worker.inner (s.serial - j)) t))
        (s.worker.inner.in_flight - 1) q o
        (record {
          since = k.since;
          few = k.few;
          in_word = k.in_word;
          now = k.now;
          still = λ z.
              let at : t ≡ s.worker.inner.top = omega (arith, k.now, k.in_word, z) in
              ((k.still z).0, got ∙ ap (read buf) at ∙ (k.still z).1);
        })
        (omega (arith, inside-le s.thieves i (loaded t j) q, o.counted))

  pub first_element : (xs : List A) → 0 < length xs → (x : A) × (rest : List A) × (xs ≡ x ∷ rest)
  first_element [] h = absurd (omega arith)
  first_element (x ∷ xs) h = (x, xs, refl)

  pub claims_first :
      {s : System A} (i t : ℕ) (x : A) (xs : List A)
      → get_elem? s.thieves i ≡ some (holding t (some x))
      → Sound s (x ∷ xs)
      → s.worker.inner.top ≡ t
      → Sound
          (record s {
            worker = record s.worker { inner = record s.worker.inner { top = wrapping_add t 1 } };
            returned = x ∷ s.returned;
            thieves = set s.thieves i idle;
          })
          xs
  claims_first {s} i t x xs q o at =
      let later = record s.worker.inner { top = wrapping_add t 1 } in
      record {
        owner =
            subst
              (λ u.
                OwnerSound
                  (record s.worker { inner = record s.worker.inner { top = wrapping_add u 1 } })
                  s.owner xs)
              at (owner_advanced s.worker s.owner x xs o.owner);
        flow = λ f. omega (arith, o.flow f);
        counted = omega (arith, o.counted, total-set inside s.thieves i _ idle q);
        each = λ k d e. elim (get_elem?-set_cases s.thieves i k _ idle d q e) [
          | inl same ↦ subst (λ d. ThiefSound later s.serial (suc (length s.returned)) xs d) same tt
          | inr old ↦
              moved-ThiefSound s.worker.inner later s.serial (length s.returned) (x ∷ xs) xs
                (omega (arith, at)) refl refl d (o.each k d old)
        ];
      }
