-- ===== src/Bwos/Keep.antt =====
-- `put` on a bounded queue that holds a list of values.
use ws_deque.Base.{
  suc, ◌+◌, ◌<◌, ◌≡◌, sym, ◌∙◌, ap, true, some, List, [], ◌∷◌, ◌++◌, arith, length, length-set,
}
use mathlib.Core.List.{map-append}
use mathlib.Core.Path.{subst}
use native.Mathlib.Decide.{ℕ_discrete}
use ws_deque.Bwos.{BwosWorker, new_block, block_at, set_block, slots_write, fill, put}
use ws_deque.Bwos.Put.{
  contents, IsSized-get_or, IsValid, current, next_block, put-stay, put-advance, put-appends,
  drained-next,
}
use ws_deque.Bwos.Ends.{DrainedAfter-set, AllSized-set}
use ws_deque.Bwos.Take.{Queued}

module _ {ℓ} {A : Type ℓ} where
  put-IsValid_stay :
      {w : BwosWorker A} (v : A)
      → IsValid w
      → (current w).committed < w.inner.block_size
      → IsValid (record w { inner = fill w.inner w.owner_block (current w).committed v })
  unfolding fill set_block slots_write block_at
  put-IsValid_stay {w} v ok room =
      let s =
        IsSized-get_or w.inner.block_size w.inner.blocks w.owner_block (new_block 0) ok.sized
          ok.owner_in in
      record {
        positive = ok.positive;
        owner_in = omega (arith, ok.owner_in, length-set w.inner.blocks w.owner_block _);
        sized = AllSized-set w.inner.block_size w.inner.blocks w.owner_block _ ok.sized (
          length-set (current w).slots (current w).committed (some v) ∙ s.0,
          omega (arith, s.1),
          omega arith,
        );
        behind = DrainedAfter-set w.inner.blocks w.owner_block _ ok.behind;
      }

  put-IsValid_next :
      {w : BwosWorker A} (v : A)
      → IsValid w
      → suc w.owner_block < length w.inner.blocks
      → (next_block w).stolen ≡ 0
      → IsValid (record {
        inner =
            fill
              (record w.inner { produced_blocks = w.owner_block + 1 + 1 })
              (w.owner_block + 1)
              0
              v;
        owner_block = w.owner_block + 1;
      })
  unfolding fill set_block slots_write block_at
  put-IsValid_next {w} v ok more zero_stolen =
      let k = w.owner_block in
      let bs = w.inner.blocks in
      let up : suc k ≡ k + 1 = omega arith in
      let s = IsSized-get_or w.inner.block_size bs (suc k) (new_block 0) ok.sized more in
      let (gone, behind) = drained-next bs k (new_block 0) ok.behind more in
      rw (sym up) (record {
        positive = ok.positive;
        owner_in = omega (arith, more, length-set bs (suc k) _);
        sized = AllSized-set w.inner.block_size bs (suc k) _ ok.sized (
          length-set (next_block w).slots 0 (some v) ∙ s.0,
          omega (arith, zero_stolen),
          omega (arith, ok.positive),
        );
        behind = DrainedAfter-set bs (suc k) _ behind;
      })

  -- `put` accepts and appends the value and keeps the queue well-formed, if the queue is not full and the
  -- block that it may have to move on to was not stolen from before.
  pub put-Queued :
      {w : BwosWorker A} {xs : List A} (v : A)
      → Queued w xs
      → ((current w).committed ≡ w.inner.block_size
          → (suc w.owner_block < length w.inner.blocks) × ((next_block w).stolen ≡ 0))
      → ((put w v).0 ≡ true) × Queued (put w v).1 (xs ++ v ∷ [])
  unfolding fill set_block
  put-Queued {w} {xs} v o fresh =
      let (done, more) = put-appends v o.valid fresh in
      let held = more ∙ ap (λ l. l ++ some v ∷ []) o.held ∙ sym (map-append some xs (v ∷ [])) in
      let k = w.owner_block in
      let s =
        IsSized-get_or w.inner.block_size w.inner.blocks k (new_block 0) o.valid.sized
          o.valid.owner_in in
      elim (ℕ_discrete (current w).committed w.inner.block_size) [
        | no n ↦
            let e = put-stay v o.valid n in
            (
              done,
              subst (λ r. Queued r (xs ++ v ∷ [])) (sym (ap (λ r. r.1) e))
                  (record {
                    valid = put-IsValid_stay v o.valid (omega (arith, s.2));
                    scanned = o.scanned;
                    exist = omega (arith, o.exist, length-set w.inner.blocks k _);
                    held = ap (λ r. contents r.1.inner.blocks) (sym e) ∙ held;
                  }),
            )
        | yes full ↦
            let (room, unused) = fresh full in
            let e = put-advance v o.valid full room in
            (
              done,
              subst (λ r. Queued r (xs ++ v ∷ [])) (sym (ap (λ r. r.1) e))
                  (record {
                    valid = put-IsValid_next v o.valid room unused;
                    scanned = omega arith;
                    exist = omega (arith, room, length-set w.inner.blocks (k + 1) _);
                    held = ap (λ r. contents r.1.inner.blocks) (sym e) ∙ held;
                  }),
            )
      ]
