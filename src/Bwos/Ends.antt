-- ===== src/Bwos/Ends.antt =====
-- src/bwos.rs: the two ends of what a queue of blocks holds. The owner takes from the end in the last block
-- in use, a thief from the front in the first block that is not drained.
use ws_deque.Base.{
  ℕ, zero, suc, ◌+◌, ◌-◌, ◌≤◌, ◌<◌, ◌≡◌, refl, sym, ◌∙◌, ap, Option, none, List, [], ◌∷◌, ◌++◌,
  append_assoc, arith, length, get_or, set, take,
}
use mathlib.Core.Path.{ap₂}
use ws_deque.Bwos.{Block}
use ws_deque.Bwos.Put.{
  window, items, contents, contents-set, contents-split, AllDrained, DrainedAfter, contents-drained,
  IsSized, AllSized,
}

module _ {ℓ} {A : Type ℓ} where
  -- The window's last slot.
  window-end :
      (slots : List (Option A)) (t n : ℕ)
      → window slots t (suc n) ≡ window slots t n ++ get_or slots (t + n) none ∷ []
  window-end slots t zero = let e : t + 0 ≡ t = omega arith in rw e refl
  window-end slots t (suc n) =
      let e : suc t + n ≡ t + suc n = omega arith in
      ap (λ l. get_or slots t none ∷ l)
        (window-end slots (suc t) n
          ∙ ap (λ i. window slots (suc t) n ++ get_or slots i none ∷ []) e)

  pub items-last :
      (b : Block A)
      → b.stolen < b.committed
      → items b
        ≡ items (record b { committed = b.committed - 1 })
          ++ get_or b.slots (b.committed - 1) none ∷ []
  items-last b h =
      let n : b.committed - b.stolen ≡ suc (b.committed - 1 - b.stolen) = omega arith in
      let e : b.stolen + (b.committed - 1 - b.stolen) ≡ b.committed - 1 = omega arith in
      ap (window b.slots b.stolen) n
      ∙ window-end b.slots b.stolen (b.committed - 1 - b.stolen)
      ∙ ap (λ i. window b.slots b.stolen (b.committed - 1 - b.stolen) ++ get_or b.slots i none ∷ [])
          e

  -- A block that is left drained when its last value goes.
  pub items-only :
      (b : Block A)
      → b.stolen + 1 ≡ b.committed
      → items b
        ≡ items (record b { stolen = b.stolen + 1; committed = b.stolen + 1 })
          ++ get_or b.slots (b.committed - 1) none ∷ []
  items-only b h =
      let n : b.committed - b.stolen ≡ 1 = omega arith in
      let z : b.stolen + 1 - (b.stolen + 1) ≡ 0 = omega arith in
      let e : b.committed - 1 ≡ b.stolen = omega arith in rw (n, z, e) refl

  pub items-first :
      (b : Block A)
      → b.stolen < b.committed
      → items b ≡ get_or b.slots b.stolen none ∷ items (record b { stolen = b.stolen + 1 })
  items-first b h =
      let n : b.committed - b.stolen ≡ suc (b.committed - (b.stolen + 1)) = omega arith in
      let e : suc b.stolen ≡ b.stolen + 1 = omega arith in
      ap (window b.slots b.stolen) n
      ∙ ap (λ t. get_or b.slots b.stolen none ∷ window b.slots t (b.committed - (b.stolen + 1))) e

  -- The last block in use gives its last value.
  pub contents-end :
      (bs : List (Block A)) (k : ℕ) (d b : Block A) (x : Option A)
      → k < length bs
      → DrainedAfter k bs
      → items (get_or bs k d) ≡ items b ++ x ∷ []
      → contents bs ≡ contents (set bs k b) ++ x ∷ []
  contents-end bs k d b x h behind e =
      contents-split bs k d h behind
      ∙ ap (λ l. contents (take k bs) ++ l) e
      ∙ sym (append_assoc (contents (take k bs)) (items b) (x ∷ []))
      ∙ ap (λ l. l ++ x ∷ []) (sym (contents-set bs k b h behind))

  pub DrainedAfter-set :
      (bs : List (Block A)) (k : ℕ) (b : Block A) → DrainedAfter k bs → DrainedAfter k (set bs k b)
  DrainedAfter-set [] k b h = tt
  DrainedAfter-set (c ∷ bs) zero b h = h
  DrainedAfter-set (c ∷ bs) (suc k) b h = DrainedAfter-set bs k b h

  pub AllSized-set :
      (size : ℕ) (bs : List (Block A)) (k : ℕ) (b : Block A)
      → AllSized size bs
      → IsSized size b
      → AllSized size (set bs k b)
  AllSized-set size [] k b h s = tt
  AllSized-set size (c ∷ bs) zero b h s = (s, h.1)
  AllSized-set size (c ∷ bs) (suc k) b h s = (h.0, AllSized-set size bs k b h.1 s)

  AllDrained-zero :
      (bs : List (Block A)) (d : Block A)
      → DrainedAfter zero bs
      → (get_or bs zero d).committed ≤ (get_or bs zero d).stolen
      → AllDrained bs
  AllDrained-zero [] d h e = tt
  AllDrained-zero (b ∷ bs) d h e = (e, h)

  -- The owner steps back from a drained block.
  pub DrainedAfter-back :
      (bs : List (Block A)) (k : ℕ) (d : Block A)
      → DrainedAfter (suc k) bs
      → (get_or bs (suc k) d).committed ≤ (get_or bs (suc k) d).stolen
      → DrainedAfter k bs
  DrainedAfter-back [] k d h e = tt
  DrainedAfter-back (b ∷ bs) zero d h e = AllDrained-zero bs d h e
  DrainedAfter-back (b ∷ bs) (suc k) d h e = DrainedAfter-back bs k d h e

  pub contents-none :
      (bs : List (Block A)) (d : Block A)
      → DrainedAfter zero bs
      → (get_or bs zero d).committed ≤ (get_or bs zero d).stolen
      → contents bs ≡ []
  contents-none bs d h e = contents-drained bs (AllDrained-zero bs d h e)

  -- The blocks before index `i` hold nothing.
  abbrev pub DrainedBefore : ℕ → List (Block A) → Type 0
  DrainedBefore zero bs = Unit
  DrainedBefore (suc i) [] = Unit
  DrainedBefore (suc i) (b ∷ bs) = (b.committed ≤ b.stolen) × DrainedBefore i bs

  pub DrainedBefore-next :
      (bs : List (Block A)) (i : ℕ) (d : Block A)
      → DrainedBefore i bs
      → (get_or bs i d).committed ≤ (get_or bs i d).stolen
      → DrainedBefore (suc i) bs
  DrainedBefore-next [] i d h e = tt
  DrainedBefore-next (b ∷ bs) zero d h e = (e, tt)
  DrainedBefore-next (b ∷ bs) (suc i) d h e = (h.0, DrainedBefore-next bs i d h.1 e)

  pub contents-passed :
      (bs : List (Block A)) (i : ℕ) → DrainedBefore i bs → length bs ≤ i → contents bs ≡ []
  unfolding contents
  contents-passed [] i h le = refl
  contents-passed (b ∷ bs) zero h le = absurd (omega arith)
  contents-passed (b ∷ bs) (suc i) h le =
      let z : b.committed - b.stolen ≡ 0 = omega arith in
      ap₂ ◌++◌ (ap (window b.slots b.stolen) z) (contents-passed bs i h.1 (omega arith))

  -- The first block that is not drained gives its first value.
  pub contents-front :
      (bs : List (Block A)) (i : ℕ) (d b : Block A) (x : Option A)
      → i < length bs
      → DrainedBefore i bs
      → items (get_or bs i d) ≡ x ∷ items b
      → contents bs ≡ x ∷ contents (set bs i b)
  unfolding contents
  contents-front [] i d b x h before e = absurd (omega arith)
  contents-front (c ∷ bs) zero d b x h before e = ap (λ l. l ++ contents bs) e
  contents-front (c ∷ bs) (suc i) d b x h before e =
      let z : c.committed - c.stolen ≡ 0 = omega arith in
      ap₂ ◌++◌ (ap (window c.slots c.stolen) z) (contents-front bs i d b x (omega arith) before.1 e)
      ∙ ap (λ l. x ∷ l ++ contents (set bs i b)) (sym (ap (window c.slots c.stolen) z))

  AllDrained-stolen :
      (bs : List (Block A)) (i : ℕ) (d b : Block A)
      → AllDrained bs
      → b.committed ≡ (get_or bs i d).committed
      → (get_or bs i d).stolen ≤ b.stolen
      → AllDrained (set bs i b)
  AllDrained-stolen [] i d b h e le = tt
  AllDrained-stolen (c ∷ bs) zero d b h e le = (omega arith, h.1)
  AllDrained-stolen (c ∷ bs) (suc i) d b h e le = (h.0, AllDrained-stolen bs i d b h.1 e le)

  -- A steal leaves the blocks behind the owner's drained.
  pub DrainedAfter-stolen :
      (bs : List (Block A)) (k i : ℕ) (d b : Block A)
      → DrainedAfter k bs
      → b.committed ≡ (get_or bs i d).committed
      → (get_or bs i d).stolen ≤ b.stolen
      → DrainedAfter k (set bs i b)
  DrainedAfter-stolen [] k i d b h e le = tt
  DrainedAfter-stolen (c ∷ bs) zero zero d b h e le = h
  DrainedAfter-stolen (c ∷ bs) zero (suc i) d b h e le = AllDrained-stolen bs i d b h e le
  DrainedAfter-stolen (c ∷ bs) (suc k) zero d b h e le = h
  DrainedAfter-stolen (c ∷ bs) (suc k) (suc i) d b h e le = DrainedAfter-stolen bs k i d b h e le

  pub DrainedBefore-set :
      (bs : List (Block A)) (i : ℕ) (b : Block A)
      → DrainedBefore i bs
      → DrainedBefore i (set bs i b)
  DrainedBefore-set [] i b h = h
  DrainedBefore-set (c ∷ bs) zero b h = tt
  DrainedBefore-set (c ∷ bs) (suc i) b h = (h.0, DrainedBefore-set bs i b h.1)

  -- No block is left that holds a value.
  pub contents-between :
      (bs : List (Block A)) (k i : ℕ)
      → DrainedAfter k bs
      → DrainedBefore i bs
      → k < i
      → contents bs ≡ []
  unfolding contents
  contents-between [] k i after before h = refl
  contents-between (b ∷ bs) k zero after before h = absurd (omega arith)
  contents-between (b ∷ bs) zero (suc i) after before h = contents-none (b ∷ bs) b after before.0
  contents-between (b ∷ bs) (suc k) (suc i) after before h =
      let z : b.committed - b.stolen ≡ 0 = omega arith in
      ap₂ ◌++◌ (ap (window b.slots b.stolen) z)
        (contents-between bs k i after before.1 (omega arith))
