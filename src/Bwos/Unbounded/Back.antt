-- ===== src/Bwos/Unbounded/Back.antt =====
-- src/bwos.rs, `unbounded`: `pop` takes the newest value, from the nearest block that is not drained.
use ws_deque.Base.{
  ℕ, zero, suc, ◌+◌, ◌-◌, ◌≤◌, ◌<◌, ◌≡◌, inl, inr, refl, sym, ◌∙◌, ap, Option, none, some, List, [],
  ◌∷◌, ◌++◌, arith, length, get_or, get_elem?, get_elem?-bound, get_elem?-none, Option-cases, set,
  set-set,
}
use mathlib.Core.Path.{ap₂, subst}
use native.Mathlib.Decide.{ℕ_discrete, dec_lt}
use ws_deque.Deque.Spec.{pop_back}
use ws_deque.Bwos
use ws_deque.Bwos.Put.{items, contents, DrainedAfter, IsSized}
use ws_deque.Bwos.Ends.{
  items-last, items-only, contents-end, contents-none, DrainedAfter-set, DrainedAfter-back,
}
use ws_deque.Bwos.Held.{map_nil, held_last}
use ws_deque.Bwos.Unbounded.{
  Block, UnboundedBwosWorker, block_at, set_block, slots_read, pop_block, pop,
}
use ws_deque.Bwos.Unbounded.Chain.{plain, view, length-view, get_or-view, block_at-set_self}
use ws_deque.Bwos.Unbounded.Hold.{Holds, unused, block-IsSized, view-set_block, set_block-Linked}

module _ {ℓ} {A : Type ℓ} where
  module _ (w : UnboundedBwosWorker A) (fuel : ℕ) where
    abbrev b : Block A
    b = block_at w.inner.memory w.owner_block

    pop-head :
        b.committed ≤ b.stolen → b.prev ≡ none → pop (λ i. i) (λ i. i) (suc fuel) w ≡ some (none, w)
    unfolding pop pop_block
    pop-head d e = ground arith

    pop-back :
        (prev : ℕ)
        → b.committed ≤ b.stolen
        → b.prev ≡ some prev
        → pop (λ i. i) (λ i. i) (suc fuel) w
          ≡ pop (λ i. i) (λ i. i) fuel (record w { owner_block = prev })
    unfolding pop pop_block
    pop-back prev d e = ground arith

    -- The block with its bottom lowered.
    abbrev lowered : Block A
    lowered = record b { committed = b.committed - 1 }

    abbrev emptied : Block A
    emptied = record b { stolen = b.stolen + 1; committed = b.stolen + 1 }

    pop-more :
        w.owner_block < length w.inner.memory
        → b.stolen + 1 < b.committed
        → pop (λ i. i) (λ i. i) (suc fuel) w
          ≡ some (
            get_or b.slots (b.committed - 1) none,
            record w { inner = set_block w.inner w.owner_block lowered },
          )
    unfolding pop pop_block slots_read set_block
    pop-more lt d = ground (arith, block_at-set_self w.inner.memory w.owner_block lowered lt)

    pop-only :
        w.owner_block < length w.inner.memory
        → b.stolen + 1 ≡ b.committed
        → pop (λ i. i) (λ i. i) (suc fuel) w
          ≡ some (
            get_or b.slots (b.committed - 1) none,
            record w {
              inner = set_block (set_block w.inner w.owner_block lowered) w.owner_block emptied;
            },
          )
    unfolding pop pop_block slots_read set_block
    pop-only lt d = ground (arith, block_at-set_self w.inner.memory w.owner_block lowered lt)

  -- The owner's block without its last value.
  taken-Holds :
      {w : UnboundedBwosWorker A} {chain : List ℕ} {j : ℕ} {xs : List A} (b' : Block A)
      (x : Option A)
      → Holds w chain j xs
      → b'.next ≡ (block_at w.inner.memory w.owner_block).next
      → b'.prev ≡ (block_at w.inner.memory w.owner_block).prev
      → IsSized w.inner.block_size (plain b')
      → items (plain (block_at w.inner.memory w.owner_block)) ≡ items (plain b') ++ x ∷ []
      → (x ≡ (pop_back xs).0)
        × Holds (record w { inner = set_block w.inner w.owner_block b' }) chain j (pop_back xs).1
  unfolding set_block
  taken-Holds {w} {chain} {j} {xs} b' x o n p s e =
      let a = w.owner_block in
      let bs = view w.inner.memory chain in
      let in_list : j < length bs =
        omega (arith, length-view w.inner.memory chain, get_elem?-bound chain j a o.here) in
      let seen = view-set_block w.inner chain j a b' o.linked.links o.here in
      let split =
        contents-end bs j unused (plain b') x in_list o.behind
          (ap items (get_or-view w.inner.memory chain j a unused o.here) ∙ e) in
      let (got, left) = held_last xs (contents (set bs j (plain b'))) x (sym o.held ∙ split) in
      (
        got,
        record {
          linked = set_block-Linked w.inner chain j a b' o.linked o.here n p s;
          here = o.here;
          behind = subst (DrainedAfter j) (sym seen) (DrainedAfter-set bs j (plain b') o.behind);
          held = ap contents seen ∙ left;
        },
      )

  -- What `pop` returns, and what it leaves.
  abbrev pub Popped : Option (Option A × UnboundedBwosWorker A) → List ℕ → List A → Type ℓ
  Popped r chain xs =
      (w' : UnboundedBwosWorker A) × (j' : ℕ) × (r ≡ some ((pop_back xs).0, w'))
      × Holds w' chain j' (pop_back xs).1

  -- A store to the owner's block.
  abbrev stored : UnboundedBwosWorker A → Block A → UnboundedBwosWorker A
  stored w b' = record w { inner = set_block w.inner w.owner_block b' }

  pop-full :
      {w : UnboundedBwosWorker A} {chain : List ℕ} (j fuel : ℕ) (xs : List A)
      → Holds w chain j xs
      → let b = block_at w.inner.memory w.owner_block in
        b.stolen < b.committed → Popped (pop (λ i. i) (λ i. i) (suc fuel) w) chain xs
  unfolding set_block
  pop-full {w} {chain} j fuel xs o more =
      let a = w.owner_block in
      let b = block_at w.inner.memory a in
      let known = o.linked.links.allocated j a o.here in
      let s = block-IsSized w.inner chain j a o.linked o.here in
      elim (ℕ_discrete (b.stolen + 1) b.committed) [
        | no n ↦
            let less : Block A = record b { committed = b.committed - 1 } in
            let (got, left) =
              taken-Holds less _ o refl refl (s.0, omega arith, omega (arith, s.2))
                (items-last (plain b) more) in
            (
              stored w less,
              j,
              pop-more w fuel known (omega arith) ∙ ap (λ x. some (x, stored w less)) got,
              left,
            )
        | yes e ↦
            let emptied : Block A = record b { stolen = b.stolen + 1; committed = b.stolen + 1 } in
            let (got, left) =
              taken-Holds emptied _ o refl refl (s.0, omega arith, omega (arith, s.2))
                (items-only (plain b) e) in
            let same : stored (stored w (record b { committed = b.committed - 1 })) emptied
                ≡ stored w emptied =
              ap (λ m. record w { inner = record w.inner { memory = m } })
                (set-set w.inner.memory a (record b { committed = b.committed - 1 }) emptied) in
            (
              stored w emptied,
              j,
              pop-only w fuel known e ∙ ap₂ (λ x w'. some (x, w')) got same,
              left,
            )
      ]

  -- The owner's block, seen in the list of blocks, is drained.
  drained_here :
      {w : UnboundedBwosWorker A} {chain : List ℕ} {j : ℕ} {xs : List A}
      → Holds w chain j xs
      → (block_at w.inner.memory w.owner_block).committed
        ≤ (block_at w.inner.memory w.owner_block).stolen
      → let c = get_or (view w.inner.memory chain) j unused in c.committed ≤ c.stolen
  drained_here {w} {chain} {j} o d =
      subst (λ (c : Bwos.Block A). c.committed ≤ c.stolen)
        (sym (get_or-view w.inner.memory chain j w.owner_block unused o.here)) d

  -- `pop` returns the value that was put last and is left, or none if none is left; it ends within as many
  -- rounds as there are blocks up to the owner's.
  pub pop-Holds :
      (j fuel : ℕ) (w : UnboundedBwosWorker A) (chain : List ℕ) (xs : List A)
      → Holds w chain j xs
      → j < fuel
      → Popped (pop (λ i. i) (λ i. i) fuel w) chain xs
  unfolding pop_back
  pop-Holds j zero w chain xs o h = absurd (omega arith)
  pop-Holds zero (suc fuel) w chain xs o h =
      let b = block_at w.inner.memory w.owner_block in
      elim (dec_lt b.stolen b.committed) [
        | yes more ↦ pop-full zero fuel xs o more
        | no n ↦
            let d : b.committed ≤ b.stolen = omega arith in
            let gone = map_nil xs (
              sym o.held
              ∙ contents-none (view w.inner.memory chain) unused o.behind (drained_here o d)) in
            (
              w,
              zero,
              pop-head w fuel d (o.linked.links.backward zero w.owner_block o.here)
                  ∙ ap (λ l. some ((pop_back l).0, w)) (sym gone),
              subst (λ l. Holds w chain zero (pop_back l).1) (sym gone)
                  (subst (Holds w chain zero) gone o),
            )
      ]
  pop-Holds (suc j) (suc fuel) w chain xs o h =
      let b = block_at w.inner.memory w.owner_block in
      elim (dec_lt b.stolen b.committed) [
        | yes more ↦ pop-full (suc j) fuel xs o more
        | no n ↦
            let d : b.committed ≤ b.stolen = omega arith in
            elim (Option-cases (get_elem? chain j)) [
              | inl missing ↦ absurd (
                  omega (
                    arith,
                    get_elem?-none chain j missing,
                    get_elem?-bound chain (suc j) w.owner_block o.here,
                  ))
              | inr (prev, found) ↦
                  let (w', j', same, left) =
                    pop-Holds j fuel (record w { owner_block = prev }) chain xs
                      (record {
                        linked = o.linked;
                        here = found;
                        behind =
                            DrainedAfter-back (view w.inner.memory chain) j unused o.behind
                              (drained_here o d);
                        held = o.held;
                      })
                      (omega arith) in
                  (
                    w',
                    j',
                    pop-back w fuel prev d
                          (o.linked.links.backward (suc j) w.owner_block o.here ∙ found)
                        ∙ same,
                    left,
                  )
            ]
      ]
