-- ===== src/Bwos/Take.antt =====
-- What `pop` and `steal` take from the bounded queue: the newest and the oldest value.
use ws_deque.Base.{
  ℕ, zero, suc, ◌+◌, ◌-◌, ◌≤◌, ◌<◌, ◌≡◌, refl, sym, ◌∙◌, ap, some, none, Option, List, [], ◌∷◌,
  ◌++◌, map, arith, length, length-set, true, false, ltb, leb, ◌==◌, get_or, get_or-set_self, set,
  set-set,
}
use mathlib.Core.Path.{ap₂, subst}
use native.Mathlib.Decide.{ℕ_discrete, dec_lt}
use ws_deque.Deque.Steal
use ws_deque.Deque.Steal.{empty}
use ws_deque.Deque.Stealer.{taken}
use ws_deque.Deque.Spec.{pop_back, pop_front}
use ws_deque.Bwos.{
  Block, Inner, BwosWorker, new_block, block_at, set_block, slots_read, pop_block, pop_loop,
  steal_scan, steal,
}
use ws_deque.Bwos.Put.{items, contents, DrainedAfter, IsSized, IsSized-get_or, IsValid, current}
use ws_deque.Bwos.Ends.{
  items-last, items-only, items-first, contents-end, contents-none, contents-front,
  DrainedAfter-set, DrainedAfter-back, DrainedAfter-stolen, AllSized-set, DrainedBefore,
  DrainedBefore-next, contents-between,
}
use ws_deque.Bwos.Held.{map_nil, held_last, oldest, held_first}

module _ {ℓ} {A : Type ℓ} where
  -- The queue holds `xs`, in the blocks that thieves scan.
  pub record Queued (w : BwosWorker A) (xs : List A) : Type ℓ where
    pub valid : IsValid w
    pub scanned : w.owner_block < w.inner.produced_blocks
    pub exist : w.inner.produced_blocks ≤ length w.inner.blocks
    pub held : contents w.inner.blocks ≡ map some xs

  module _ (w : BwosWorker A) (fuel : ℕ) where
    abbrev b : Block A
    b = current w

    abbrev lowered : Block A
    lowered = record b { committed = b.committed - 1 }

    abbrev emptied : Block A
    emptied = record b { stolen = b.stolen + 1; committed = b.stolen + 1 }

    pop_loop-head :
        b.committed ≤ b.stolen
        → w.owner_block ≡ 0
        → pop_loop (λ i. i) (λ i. i) (suc fuel) w ≡ some (none, w)
    unfolding pop_loop pop_block block_at
    pop_loop-head d e = ground arith

    pop_loop-back :
        b.committed ≤ b.stolen
        → 0 < w.owner_block
        → pop_loop (λ i. i) (λ i. i) (suc fuel) w
          ≡ pop_loop (λ i. i) (λ i. i) fuel (record w { owner_block = w.owner_block - 1 })
    unfolding pop_loop pop_block block_at
    pop_loop-back d e = ground arith

    pop_loop-more :
        w.owner_block < length w.inner.blocks
        → b.stolen + 1 < b.committed
        → pop_loop (λ i. i) (λ i. i) (suc fuel) w
          ≡ some (
            get_or b.slots (b.committed - 1) none,
            record w { inner = set_block w.inner w.owner_block lowered },
          )
    unfolding pop_loop pop_block block_at set_block slots_read
    pop_loop-more lt d =
        ground (arith, get_or-set_self w.inner.blocks w.owner_block lowered (new_block 0) lt)

    pop_loop-only :
        w.owner_block < length w.inner.blocks
        → b.stolen + 1 ≡ b.committed
        → pop_loop (λ i. i) (λ i. i) (suc fuel) w
          ≡ some (
            get_or b.slots (b.committed - 1) none,
            record w {
              inner = set_block (set_block w.inner w.owner_block lowered) w.owner_block emptied;
            },
          )
    unfolding pop_loop pop_block block_at set_block slots_read
    pop_loop-only lt d =
        let full : leb b.committed b.stolen ≡ false = ground arith in
        let lone : ltb b.stolen (b.committed - 1) ≡ false = ground arith in
        let same : (b.committed - 1 == b.stolen) ≡ true = ground arith in
        ground (
          arith,
          full,
          lone,
          same,
          get_or-set_self w.inner.blocks w.owner_block lowered (new_block 0) lt,
        )

  -- The owner's block without its last value.
  taken-Queued :
      {w : BwosWorker A} {xs : List A} (b' : Block A) (x : Option A)
      → Queued w xs
      → IsSized w.inner.block_size b'
      → items (current w) ≡ items b' ++ x ∷ []
      → (x ≡ (pop_back xs).0)
        × Queued (record w { inner = set_block w.inner w.owner_block b' }) (pop_back xs).1
  unfolding set_block
  taken-Queued {w} {xs} b' x o s e =
      let bs = w.inner.blocks in
      let k = w.owner_block in
      let v = o.valid in
      let (got, left) =
        held_last xs (contents (set bs k b')) x
          (sym o.held ∙ contents-end bs k (new_block 0) b' x v.owner_in v.behind e) in
      (
        got,
        record {
          valid = record {
            positive = v.positive;
            owner_in = omega (arith, v.owner_in, length-set bs k b');
            sized = AllSized-set w.inner.block_size bs k b' v.sized s;
            behind = DrainedAfter-set bs k b' v.behind;
          };
          scanned = o.scanned;
          exist = omega (arith, o.exist, length-set bs k b');
          held = left;
        },
      )

  -- What `pop` returns, and what it leaves.
  abbrev pub Popped : Option (Option A × BwosWorker A) → List A → Type ℓ
  Popped r xs = (w' : BwosWorker A) × (r ≡ some ((pop_back xs).0, w')) × Queued w' (pop_back xs).1

  -- A store to the owner's block.
  abbrev stored : BwosWorker A → Block A → BwosWorker A
  stored w b' = record w { inner = set_block w.inner w.owner_block b' }

  pop_loop-full :
      {w : BwosWorker A} (fuel : ℕ) (xs : List A)
      → Queued w xs
      → (current w).stolen < (current w).committed
      → Popped (pop_loop (λ i. i) (λ i. i) (suc fuel) w) xs
  unfolding set_block
  pop_loop-full {w} fuel xs o more =
      let c = current w in
      let v = o.valid in
      let s =
        IsSized-get_or w.inner.block_size w.inner.blocks w.owner_block (new_block 0) v.sized
          v.owner_in in
      let less : Block A = record c { committed = c.committed - 1 } in
      let none_left : Block A = record c { stolen = c.stolen + 1; committed = c.stolen + 1 } in
      elim (ℕ_discrete (c.stolen + 1) c.committed) [
        | no n ↦
            let (got, left) =
              taken-Queued less _ o (s.0, omega arith, omega (arith, s.2)) (items-last c more) in
            (
              stored w less,
              pop_loop-more w fuel v.owner_in (omega arith) ∙ ap (λ x. some (x, stored w less)) got,
              left,
            )
        | yes e ↦
            let (got, left) =
              taken-Queued none_left _ o (s.0, omega arith, omega (arith, s.2)) (items-only c e) in
            let same : stored (stored w less) none_left ≡ stored w none_left =
              ap (λ l. record w { inner = record w.inner { blocks = l } })
                (set-set w.inner.blocks w.owner_block less none_left) in
            (
              stored w none_left,
              pop_loop-only w fuel v.owner_in e ∙ ap₂ (λ x w'. some (x, w')) got same,
              left,
            )
      ]

  -- `pop` returns the value that was put last and is left, or none if none is left; it ends within as many
  -- rounds as there are blocks up to the owner's.
  pub pop_loop-Queued :
      (k fuel : ℕ) (w : BwosWorker A) (xs : List A)
      → Queued w xs
      → w.owner_block ≡ k
      → k < fuel
      → Popped (pop_loop (λ i. i) (λ i. i) fuel w) xs
  unfolding pop_back
  pop_loop-Queued k zero w xs o e h = absurd (omega arith)
  pop_loop-Queued zero (suc fuel) w xs o e h =
      elim (dec_lt (current w).stolen (current w).committed) [
        | yes more ↦ pop_loop-full fuel xs o more
        | no n ↦
            let d : (current w).committed ≤ (current w).stolen = omega arith in
            let gone = map_nil xs (
              sym o.held
              ∙ contents-none w.inner.blocks (new_block 0)
                  (subst (λ k. DrainedAfter k w.inner.blocks) e o.valid.behind)
                  (subst
                    (λ k. let c = get_or w.inner.blocks k (new_block 0) in c.committed ≤ c.stolen) e
                    d)) in
            (
              w,
              pop_loop-head w fuel d e ∙ ap (λ l. some ((pop_back l).0, w)) (sym gone),
              subst (λ l. Queued w (pop_back l).1) (sym gone) (subst (Queued w) gone o),
            )
      ]
  pop_loop-Queued (suc k) (suc fuel) w xs o e h =
      elim (dec_lt (current w).stolen (current w).committed) [
        | yes more ↦ pop_loop-full fuel xs o more
        | no n ↦
            let d : (current w).committed ≤ (current w).stolen = omega arith in
            let at : w.owner_block - 1 ≡ k = omega arith in
            let up : w.owner_block ≡ suc (w.owner_block - 1) = omega arith in
            let (w', same, left) =
              pop_loop-Queued k fuel (record w { owner_block = w.owner_block - 1 }) xs
                (record {
                  valid = record {
                    positive = o.valid.positive;
                    owner_in = omega (arith, o.valid.owner_in);
                    sized = o.valid.sized;
                    behind =
                        DrainedAfter-back w.inner.blocks (w.owner_block - 1) (new_block 0)
                          (subst (λ k. DrainedAfter k w.inner.blocks) up o.valid.behind)
                          (subst
                            (λ k.
                              let c = get_or w.inner.blocks k (new_block 0) in
                              c.committed ≤ c.stolen)
                            up d);
                  };
                  scanned = omega (arith, o.scanned);
                  exist = o.exist;
                  held = o.held;
                })
                at (omega arith) in
            (w', pop_loop-back w fuel d (omega arith) ∙ same, left)
      ]

  module _ (inner : Inner A) (n i : ℕ) where
    abbrev scanned_block : Block A
    scanned_block = get_or inner.blocks i (new_block 0)

    steal_scan-hit :
        scanned_block.stolen < scanned_block.committed
        → steal_scan (λ i. i) (suc n) i inner ≡ (
          taken (get_or scanned_block.slots scanned_block.stolen none),
          set_block inner i (record scanned_block { stolen = scanned_block.stolen + 1 }),
        )
    unfolding steal_scan block_at slots_read
    steal_scan-hit h = ground arith

    steal_scan-on :
        scanned_block.committed ≤ scanned_block.stolen
        → steal_scan (λ i. i) (suc n) i inner ≡ steal_scan (λ i. i) n (i + 1) inner
    unfolding steal_scan block_at
    steal_scan-on h = ground arith

  -- What a thief is told, and what it leaves.
  abbrev pub Stolen : Steal.Steal A × Inner A → BwosWorker A → List A → Type ℓ
  Stolen (r, inner) w xs = (r ≡ oldest xs) × Queued (record w { inner = inner }) (pop_front xs).1

  steal_scan-first :
      {w : BwosWorker A} (n i : ℕ) (xs : List A)
      → Queued w xs
      → DrainedBefore i w.inner.blocks
      → i < length w.inner.blocks
      → let c = get_or w.inner.blocks i (new_block 0) in
        c.stolen < c.committed → Stolen (steal_scan (λ i. i) (suc n) i w.inner) w xs
  unfolding set_block
  steal_scan-first {w} n i xs o before lt more =
      let bs = w.inner.blocks in
      let c = get_or bs i (new_block 0) in
      let c' : Block A = record c { stolen = c.stolen + 1 } in
      let v = o.valid in
      let s = IsSized-get_or w.inner.block_size bs i (new_block 0) v.sized lt in
      let (got, left) = held_first xs (get_or c.slots c.stolen none) (contents (set bs i c')) (
        sym o.held
        ∙ contents-front bs i (new_block 0) c' (get_or c.slots c.stolen none) lt before
            (items-first c more)) in
      rw (steal_scan-hit w.inner n i more) (
        got,
        record {
          valid = record {
            positive = v.positive;
            owner_in = omega (arith, v.owner_in, length-set bs i c');
            sized =
                AllSized-set w.inner.block_size bs i c' v.sized
                  (s.0, omega arith, omega (arith, s.2));
            behind =
                DrainedAfter-stolen bs w.owner_block i (new_block 0) c' v.behind refl (omega arith);
          };
          scanned = o.scanned;
          exist = omega (arith, o.exist, length-set bs i c');
          held = left;
        },
      )

  steal_scan-Queued :
      (n i : ℕ) (w : BwosWorker A) (xs : List A)
      → Queued w xs
      → DrainedBefore i w.inner.blocks
      → i + n ≡ w.inner.produced_blocks
      → Stolen (steal_scan (λ i. i) n i w.inner) w xs
  unfolding steal_scan pop_front
  steal_scan-Queued zero i w xs o before e =
      let gone = map_nil xs (
        sym o.held
        ∙ contents-between w.inner.blocks w.owner_block i o.valid.behind before
            (omega (arith, o.scanned))) in
      (
        ap oldest (sym gone),
        subst (λ l. Queued w (pop_front l).1) (sym gone) (subst (Queued w) gone o),
      )
  steal_scan-Queued (suc n) i w xs o before e =
      let c = get_or w.inner.blocks i (new_block 0) in
      elim (dec_lt c.stolen c.committed) [
        | yes more ↦ steal_scan-first n i xs o before (omega (arith, o.exist)) more
        | no q ↦
            let d : c.committed ≤ c.stolen = omega arith in
            let up : suc i ≡ i + 1 = omega arith in
            subst (λ r. Stolen r w xs) (sym (steal_scan-on w.inner n i d))
              (steal_scan-Queued n (i + 1) w xs o
                (subst (λ k. DrainedBefore k w.inner.blocks) up
                  (DrainedBefore-next w.inner.blocks i (new_block 0) before d))
                (omega arith))
      ]

  -- `steal` hands out the value that was put first and is left, or tells that the queue is empty.
  pub steal-Queued :
      (w : BwosWorker A) (xs : List A) → Queued w xs → Stolen (steal (λ i. i) w.inner) w xs
  unfolding steal
  steal-Queued w xs o = steal_scan-Queued w.inner.produced_blocks 0 w xs o tt (omega arith)
