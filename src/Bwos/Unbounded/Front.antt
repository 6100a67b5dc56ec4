-- ===== src/Bwos/Unbounded/Front.antt =====
-- src/bwos.rs, `unbounded`: `steal` takes the oldest value, if the thief's cursor is not past a block that
-- holds one.
use ws_deque.Base.{
  ℕ, zero, suc, ◌+◌, ◌≤◌, ◌<◌, ◌≡◌, refl, sym, ◌∙◌, ap, Option, Option-cases, inl, inr, none, some,
  List, arith, length, get_or, get_elem?, get_elem?-bound, get_elem?-none, set,
}
use mathlib.Core.Path.{subst}
use native.Mathlib.Decide.{dec_lt}
use ws_deque.Deque.Steal
use ws_deque.Deque.Steal.{empty, success}
use ws_deque.Deque.Stealer.{taken}
use ws_deque.Deque.Spec.{pop_front}
use ws_deque.Bwos
use ws_deque.Bwos.Put.{items, contents, DrainedAfter}
use ws_deque.Bwos.Ends.{
  items-first, contents-front, contents-passed, DrainedBefore, DrainedBefore-set,
  DrainedBefore-next, DrainedAfter-stolen,
}
use ws_deque.Bwos.Held.{map_nil, oldest, held_first}
use ws_deque.Bwos.Unbounded.{
  Block, Inner, UnboundedBwosWorker, UnboundedBwosStealer, block_at, set_block, slots_read,
  steal_walk,
}
use ws_deque.Bwos.Unbounded.Chain.{plain, view, length-view, get_or-view}
use ws_deque.Bwos.Unbounded.Hold.{Holds, unused, block-IsSized, view-set_block, set_block-Linked}

module _ {ℓ} {A : Type ℓ} where
  module _ (inner : Inner A) (blk fuel : ℕ) where
    abbrev b : Block A
    b = block_at inner.memory blk

    steal_walk-hit :
        b.stolen < b.committed
        → steal_walk (λ i. i) (suc fuel) blk inner
          ≡ some (
            taken (get_or b.slots b.stolen none),
            record { cursor = blk },
            set_block inner blk (record b { stolen = b.stolen + 1 }),
          )
    unfolding steal_walk slots_read
    steal_walk-hit h = ground arith

    steal_walk-end :
        b.committed ≤ b.stolen
        → b.next ≡ none
        → steal_walk (λ i. i) (suc fuel) blk inner ≡ some (empty, record { cursor = blk }, inner)
    unfolding steal_walk
    steal_walk-end h e = ground arith

    steal_walk-on :
        (next : ℕ)
        → b.committed ≤ b.stolen
        → b.next ≡ some next
        → steal_walk (λ i. i) (suc fuel) blk inner ≡ steal_walk (λ i. i) fuel next inner
    unfolding steal_walk
    steal_walk-on next h e = ground arith

  -- What `steal` returns, what it leaves, and where the thief's cursor then stands: behind no value.
  abbrev pub Stolen :
      Option (Steal.Steal A × UnboundedBwosStealer × Inner A)
      → UnboundedBwosWorker A
      → List ℕ
      → ℕ
      → List A
      → Type ℓ
  Stolen r w chain j xs =
      (thief : UnboundedBwosStealer) × (inner : Inner A) × (i : ℕ) × (r
        ≡ some (oldest xs, thief, inner))
      × Holds (record w { inner = inner }) chain j (pop_front xs).1
      × (get_elem? chain i ≡ some thief.cursor)
      × DrainedBefore i (view inner.memory chain)

  steal-hit :
      {w : UnboundedBwosWorker A} {chain : List ℕ} {j : ℕ} (i blk fuel : ℕ) (xs : List A)
      → Holds w chain j xs
      → get_elem? chain i ≡ some blk
      → DrainedBefore i (view w.inner.memory chain)
      → let b = block_at w.inner.memory blk in
        b.stolen < b.committed → Stolen (steal_walk (λ i. i) (suc fuel) blk w.inner) w chain j xs
  unfolding set_block
  steal-hit {w} {chain} {j} i blk fuel xs o at before more =
      let inner = w.inner in
      let bs = view inner.memory chain in
      let b = block_at inner.memory blk in
      let b' : Block A = record b { stolen = b.stolen + 1 } in
      let s = block-IsSized inner chain i blk o.linked at in
      let here = get_or-view inner.memory chain i blk unused at in
      let in_list : i < length bs =
        omega (arith, length-view inner.memory chain, get_elem?-bound chain i blk at) in
      let seen = view-set_block inner chain i blk b' o.linked.links at in
      let split =
        contents-front bs i unused (plain b') (get_or b.slots b.stolen none) in_list before
          (ap items here ∙ items-first (plain b) more) in
      let (got, left) =
        held_first xs (get_or b.slots b.stolen none) (contents (set bs i (plain b')))
          (sym o.held ∙ split) in
      (
        record { cursor = blk },
        set_block inner blk b',
        i,
        steal_walk-hit inner blk fuel more
            ∙ ap (λ r. some (r, record { cursor = blk }, set_block inner blk b')) got,
        record {
          linked =
              set_block-Linked inner chain i blk b' o.linked at refl refl
                (s.0, omega arith, omega (arith, s.2));
          here = o.here;
          behind = subst (DrainedAfter j) (sym seen) (
              DrainedAfter-stolen bs j i unused (plain b') o.behind
                (ap (λ (c : Bwos.Block A). c.committed) (sym here))
                (omega (arith, ap (λ (c : Bwos.Block A). c.stolen) here)));
          held = ap contents seen ∙ left;
        },
        at,
        subst (DrainedBefore i) (sym seen) (DrainedBefore-set bs i (plain b') before),
      )

  -- A thief whose cursor stands at a block of the queue before which no value is left is handed the value
  -- that was put first, or told that the queue is empty; its loop ends within as many rounds as there are
  -- blocks from the cursor on.
  pub steal_walk-Holds :
      (fuel i blk : ℕ) (w : UnboundedBwosWorker A) (chain : List ℕ) (j : ℕ) (xs : List A)
      → Holds w chain j xs
      → get_elem? chain i ≡ some blk
      → DrainedBefore i (view w.inner.memory chain)
      → length chain ≤ i + fuel
      → Stolen (steal_walk (λ i. i) fuel blk w.inner) w chain j xs
  unfolding pop_front
  steal_walk-Holds zero i blk w chain j xs o at before h =
      absurd (omega (arith, get_elem?-bound chain i blk at))
  steal_walk-Holds (suc fuel) i blk w chain j xs o at before h =
      let inner = w.inner in
      let bs = view inner.memory chain in
      let b = block_at inner.memory blk in
      elim (dec_lt b.stolen b.committed) [
        | yes more ↦ steal-hit i blk fuel xs o at before more
        | no n ↦
            let d : b.committed ≤ b.stolen = omega arith in
            let further = DrainedBefore-next bs i unused before (
              subst (λ (c : Bwos.Block A). c.committed ≤ c.stolen)
                (sym (get_or-view inner.memory chain i blk unused at)) d) in
            let link = o.linked.links.forward i blk at in
            elim (Option-cases (get_elem? chain (suc i))) [
              | inl missing ↦
                  let gone = map_nil xs (
                    sym o.held
                    ∙ contents-passed bs (suc i) further (
                        omega (
                          arith,
                          length-view inner.memory chain,
                          get_elem?-none chain (suc i) missing,
                        ))) in
                  (
                    record { cursor = blk },
                    inner,
                    i,
                    steal_walk-end inner blk fuel d (link ∙ missing)
                        ∙ ap (λ l. some (oldest l, record { cursor = blk }, inner)) (sym gone),
                    subst (λ l. Holds w chain j (pop_front l).1) (sym gone)
                        (subst (Holds w chain j) gone o),
                    at,
                    before,
                  )
              | inr (next, found) ↦
                  let (thief, left, i', same, kept, there, passed) =
                    steal_walk-Holds fuel (suc i) next w chain j xs o found further (omega arith) in
                  (
                    thief,
                    left,
                    i',
                    steal_walk-on inner blk fuel next d (link ∙ found) ∙ same,
                    kept,
                    there,
                    passed,
                  )
            ]
      ]
