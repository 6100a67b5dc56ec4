-- ===== src/Bwos/Put.antt =====
-- What `put` does to the elements of the bounded queue: it appends, unless the block that it moves on
-- to was used before; then the value is written where no one looks.
use ws_deque.Base.{
  ℕ, zero, suc, ◌+◌, ◌-◌, ◌≤◌, ◌<◌, ◌≡◌, ◌≢◌, refl, sym, ◌∙◌, ap, true, false, Option, none, some,
  List, [], ◌∷◌, ◌++◌, append-nil, append_assoc, arith, length, get_or, set, take, get_or-set_self,
  get_or-set_ne,
}
use mathlib.Core.Path.{ap₂}
use native.Mathlib.Decide.{ℕ_discrete}
use ws_deque.Bwos.{Block, BwosWorker, slots_write, fill, put, new_block}

module _ {ℓ} {A : Type ℓ} where
  -- The `n` slots from index `t` on.
  abbrev pub window : List (Option A) → ℕ → ℕ → List (Option A)
  window slots t zero = []
  window slots t (suc n) = get_or slots t none ∷ window slots (suc t) n

  -- What a block holds, oldest first.
  abbrev pub items : Block A → List (Option A)
  items b = window b.slots b.stolen (b.committed - b.stolen)

  -- What the queue holds, oldest first.
  unfoldable pub contents : List (Block A) → List (Option A)
  contents [] = []
  contents (b ∷ bs) = items b ++ contents bs

  abbrev pub AllDrained : List (Block A) → Type 0
  AllDrained [] = Unit
  AllDrained (b ∷ bs) = (b.committed ≤ b.stolen) × AllDrained bs

  -- The blocks behind index `k` hold nothing.
  abbrev pub DrainedAfter : ℕ → List (Block A) → Type 0
  DrainedAfter k [] = Unit
  DrainedAfter zero (b ∷ bs) = AllDrained bs
  DrainedAfter (suc k) (b ∷ bs) = DrainedAfter k bs

  pub contents-drained : (bs : List (Block A)) → AllDrained bs → contents bs ≡ []
  unfolding contents
  contents-drained [] d = refl
  contents-drained (b ∷ bs) d =
      let e : b.committed - b.stolen ≡ 0 = omega arith in
      ap₂ ◌++◌ (ap (window b.slots b.stolen) e) (contents-drained bs d.1)

  -- Replacing the last block in use.
  pub contents-set :
      (bs : List (Block A)) (k : ℕ) (b : Block A)
      → k < length bs
      → DrainedAfter k bs
      → contents (set bs k b) ≡ contents (take k bs) ++ items b
  unfolding contents
  contents-set [] k b h d = absurd (omega arith)
  contents-set (c ∷ bs) zero b h d =
      ap (λ l. items b ++ l) (contents-drained bs d) ∙ append-nil (items b)
  contents-set (c ∷ bs) (suc k) b h d =
      ap (λ l. items c ++ l) (contents-set bs k b (omega arith) d)
      ∙ sym (append_assoc (items c) (contents (take k bs)) (items b))

  pub contents-split :
      (bs : List (Block A)) (k : ℕ) (d0 : Block A)
      → k < length bs
      → DrainedAfter k bs
      → contents bs ≡ contents (take k bs) ++ items (get_or bs k d0)
  unfolding contents
  contents-split [] k d0 h d = absurd (omega arith)
  contents-split (c ∷ bs) zero d0 h d =
      ap (λ l. items c ++ l) (contents-drained bs d) ∙ append-nil (items c)
  contents-split (c ∷ bs) (suc k) d0 h d =
      ap (λ l. items c ++ l) (contents-split bs k d0 (omega arith) d)
      ∙ sym (append_assoc (items c) (contents (take k bs)) (items (get_or bs k d0)))

  -- Writing the slot behind a window extends it.
  window-set :
      (slots : List (Option A)) (t n p : ℕ) (v : Option A)
      → p ≡ t + n
      → p < length slots
      → window (set slots p v) t (suc n) ≡ window slots t n ++ v ∷ []
  window-set slots t zero p v e h =
      let here : t ≡ p = omega arith in
      ap (λ x. x ∷ [])
        (ap (λ i. get_or (set slots p v) i none) here ∙ get_or-set_self slots p v none h)
  window-set slots t (suc n) p v e h =
      ap₂ ◌∷◌ (get_or-set_ne slots p t v none (λ f. omega arith))
        (window-set slots (suc t) n p v (omega arith) h)

  -- A block after one more value was written to it.
  pub items-filled :
      (b : Block A) (v : A)
      → b.stolen ≤ b.committed
      → b.committed < length b.slots
      → items (record (slots_write b b.committed v) { committed = b.committed + 1 })
        ≡ items b ++ some v ∷ []
  unfolding slots_write
  items-filled b v le lt =
      let n : b.committed + 1 - b.stolen ≡ suc (b.committed - b.stolen) = omega arith in
      ap (window (set b.slots b.committed (some v)) b.stolen) n
      ∙ window-set b.slots b.stolen (b.committed - b.stolen) b.committed (some v) (omega arith) lt

  -- A block of the given size, its two indices in order.
  abbrev pub IsSized : ℕ → Block A → Type 0
  IsSized size b = (length b.slots ≡ size) × (b.stolen ≤ b.committed) × (b.committed ≤ size)

  abbrev pub AllSized : ℕ → List (Block A) → Type 0
  AllSized size [] = Unit
  AllSized size (b ∷ bs) = IsSized size b × AllSized size bs

  pub IsSized-get_or :
      (size : ℕ) (bs : List (Block A)) (k : ℕ) (d : Block A)
      → AllSized size bs
      → k < length bs
      → IsSized size (get_or bs k d)
  IsSized-get_or size [] k d a h = absurd (omega arith)
  IsSized-get_or size (b ∷ bs) zero d a h = a.0
  IsSized-get_or size (b ∷ bs) (suc k) d a h = IsSized-get_or size bs k d a.1 (omega arith)

  pub AllDrained-get_or :
      (bs : List (Block A)) (k : ℕ) (d : Block A)
      → AllDrained bs
      → k < length bs
      → (get_or bs k d).committed ≤ (get_or bs k d).stolen
  AllDrained-get_or [] k d a h = absurd (omega arith)
  AllDrained-get_or (b ∷ bs) zero d a h = a.0
  AllDrained-get_or (b ∷ bs) (suc k) d a h = AllDrained-get_or bs k d a.1 (omega arith)

  -- The next block is drained, and so are those behind it.
  pub drained-next :
      (bs : List (Block A)) (k : ℕ) (d : Block A)
      → DrainedAfter k bs
      → suc k < length bs
      → ((get_or bs (suc k) d).committed ≤ (get_or bs (suc k) d).stolen) × DrainedAfter (suc k) bs
  drained-next [] k d a h = absurd (omega arith)
  drained-next (b ∷ []) zero d a h = absurd (omega arith)
  drained-next (b ∷ c ∷ bs) zero d a h = (a.0, a.1)
  drained-next (b ∷ bs) (suc k) d a h = drained-next bs k d a (omega arith)

-- The owner works in a block of the queue, and every later block is drained.
pub record IsValid {ℓ} {A : Type ℓ} (w : BwosWorker A) : Type 0 where
  pub positive : 0 < w.inner.block_size
  pub owner_in : w.owner_block < length w.inner.blocks
  pub sized : AllSized w.inner.block_size w.inner.blocks
  pub behind : DrainedAfter w.owner_block w.inner.blocks

-- The owner's block, and the one after it.
abbrev pub current {ℓ} : {A : Type ℓ} → BwosWorker A → Block A
current w = get_or w.inner.blocks w.owner_block (new_block 0)

abbrev pub next_block {ℓ} : {A : Type ℓ} → BwosWorker A → Block A
next_block w = get_or w.inner.blocks (suc w.owner_block) (new_block 0)

module _ {ℓ} {A : Type ℓ} {w : BwosWorker A} (v : A) (ok : IsValid w) where
  abbrev bs : List (Block A)
  bs = w.inner.blocks

  abbrev k : ℕ
  k = w.owner_block

  -- What the two ways of storing the value give.
  pub put-stay :
      (current w).committed ≢ w.inner.block_size
      → put w v ≡ (true, record w { inner = fill w.inner k (current w).committed v })
  unfolding put
  put-stay room = ground arith

  pub put-advance :
      (current w).committed ≡ w.inner.block_size
      → suc k < length bs
      → put w v ≡ (
        true,
        record {
          inner = fill (record w.inner { produced_blocks = k + 1 + 1 }) (k + 1) 0 v;
          owner_block = k + 1;
        },
      )
  unfolding put
  put-advance full more = ground arith

  put-room :
      (current w).committed ≢ w.inner.block_size
      → ((put w v).0 ≡ true) × (contents (put w v).1.inner.blocks ≡ contents bs ++ some v ∷ [])
  unfolding fill
  put-room room =
      let c = IsSized-get_or w.inner.block_size bs k (new_block 0) ok.sized ok.owner_in in
      rw (put-stay room) (
        refl,
        contents-set bs k _ ok.owner_in ok.behind
            ∙ ap (λ l. contents (take k bs) ++ l) (items-filled (current w) v c.1 (omega arith))
            ∙ sym (append_assoc (contents (take k bs)) (items (current w)) (some v ∷ []))
            ∙ ap (λ l. l ++ some v ∷ [])
                (sym (contents-split bs k (new_block 0) ok.owner_in ok.behind)),
      )

  module _ (full : (current w).committed ≡ w.inner.block_size) (more : suc k < length bs) where
    contents-advanced : contents bs ≡ contents (take (suc k) bs)
    contents-advanced =
        let (empty_next, behind_next) = drained-next bs k (new_block 0) ok.behind more in
        let e : (next_block w).committed - (next_block w).stolen ≡ 0 = omega arith in
        contents-split bs (suc k) (new_block 0) more behind_next
        ∙ ap (λ l. contents (take (suc k) bs) ++ l)
            (ap (window (next_block w).slots (next_block w).stolen) e)
        ∙ append-nil (contents (take (suc k) bs))

    -- The block that `put` moves on to, with the value in its first slot.
    abbrev first_filled : Block A
    first_filled = record (slots_write (next_block w) 0 v) { committed = 1 }

    put-next :
        ((put w v).0 ≡ true)
        × (contents (put w v).1.inner.blocks ≡ contents bs ++ items first_filled)
    unfolding fill
    put-next =
        let (empty_next, behind_next) = drained-next bs k (new_block 0) ok.behind more in
        let e : k + 1 ≡ suc k = omega arith in
        rw (put-advance full more, e)
          (
            refl,
            contents-set bs (suc k) _ more behind_next
                ∙ ap (λ l. l ++ items first_filled) (sym contents-advanced),
          )

  -- `put` appends the value, if the queue is not full and the block that it may have to move on to was
  -- not stolen from before.
  pub put-appends :
      ((current w).committed ≡ w.inner.block_size
        → (suc k < length bs) × ((next_block w).stolen ≡ 0))
      → ((put w v).0 ≡ true) × (contents (put w v).1.inner.blocks ≡ contents bs ++ some v ∷ [])
  put-appends fresh = elim (ℕ_discrete (current w).committed w.inner.block_size) [
    | yes full ↦
        let (more, zero_stolen) = fresh full in
        let c = IsSized-get_or w.inner.block_size bs (suc k) (new_block 0) ok.sized more in
        let (done, held) = put-next full more in
        (done, held ∙ ap (λ l. contents bs ++ l) (only zero_stolen c.0))
    | no room ↦ put-room room
  ]
    where
      only :
          (next_block w).stolen ≡ 0
          → length (next_block w).slots ≡ w.inner.block_size
          → items (record (slots_write (next_block w) 0 v) { committed = 1 }) ≡ some v ∷ []
      only e size =
          unfold slots_write in
          ap (λ t. window (set (next_block w).slots 0 (some v)) t (1 - t)) e
          ∙ ap (λ x. x ∷ [])
              (get_or-set_self (next_block w).slots 0 (some v) none (omega (arith, ok.positive)))

  -- A value is lost: if the owner's block is full and the next block was stolen from before, `put`
  -- reports success and the queue holds what it held.
  pub put-loses :
      (current w).committed ≡ w.inner.block_size
      → suc k < length bs
      → 0 < (next_block w).stolen
      → ((put w v).0 ≡ true) × (contents (put w v).1.inner.blocks ≡ contents bs)
  put-loses full more used =
      let n : 1 - (next_block w).stolen ≡ 0 = omega arith in
      let (done, held) = put-next full more in
      (done, held ∙ ap (λ l. contents bs ++ l) (gone n) ∙ append-nil (contents bs))
    where
      gone :
          1 - (next_block w).stolen ≡ 0
          → items (record (slots_write (next_block w) 0 v) { committed = 1 }) ≡ []
      gone n =
          unfold slots_write in
          ap (window (set (next_block w).slots 0 (some v)) (next_block w).stolen) n

  -- A full queue rejects the value and stays as it is.
  pub put-full :
      (current w).committed ≡ w.inner.block_size → suc k ≡ length bs → put w v ≡ (false, w)
  unfolding put
  put-full full last = ground arith
