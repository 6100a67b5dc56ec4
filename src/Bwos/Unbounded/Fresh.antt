-- ===== src/Bwos/Unbounded/Fresh.antt =====
-- src/bwos.rs, `unbounded`: what a fresh block does to the chain. The blocks behind the one that it is linked
-- from leave the chain.
use ws_deque.Base.{
  ℕ, zero, suc, ◌+◌, ◌≤◌, ◌<◌, ◌≡◌, ◌≢◌, ◌⊎◌, inl, inr, refl, sym, ◌∙◌, ap, none, some, List, [],
  ◌∷◌, ◌++◌, append-nil, append_assoc, arith, length, length-set, length-append, get_elem?,
  get_elem?-bound,
}
use mathlib.Core.Path.{ap₂}
use native.Mathlib.Decide.{ℕ_discrete}
use ws_deque.Bwos
use ws_deque.Bwos.Put.{items, contents, DrainedAfter, AllSized, IsSized, contents-drained}
use ws_deque.Bwos.Unbounded.{Block, Inner, new_block, block_at, set_block, link_fresh}
use ws_deque.Bwos.Unbounded.Chain.{
  plain, view, before, Chained, view-same, block_at-set_self, block_at-set_ne,
}

-- The entries up to index `j`, and `x` after them.
abbrev pub cut_after {ℓ} : {B : Type ℓ} → List B → ℕ → B → List B
cut_after [] j x = []
cut_after (b ∷ bs) zero x = b ∷ x ∷ []
cut_after (b ∷ bs) (suc j) x = b ∷ cut_after bs j x

module _ {ℓ} {B : Type ℓ} where
  cut_after-keeps :
      (bs : List B) (j i : ℕ) (x : B) → i ≤ j → get_elem? (cut_after bs j x) i ≡ get_elem? bs i
  cut_after-keeps [] j i x h = refl
  cut_after-keeps (b ∷ bs) zero zero x h = refl
  cut_after-keeps (b ∷ bs) zero (suc i) x h = absurd (omega arith)
  cut_after-keeps (b ∷ bs) (suc j) zero x h = refl
  cut_after-keeps (b ∷ bs) (suc j) (suc i) x h = cut_after-keeps bs j i x (omega arith)

  pub cut_after-end :
      (bs : List B) (j : ℕ) (x : B) → j < length bs → get_elem? (cut_after bs j x) (suc j) ≡ some x
  cut_after-end [] j x h = absurd (omega arith)
  cut_after-end (b ∷ bs) zero x h = refl
  cut_after-end (b ∷ bs) (suc j) x h = cut_after-end bs j x (omega arith)

  cut_after-past :
      (bs : List B) (j i : ℕ) (x : B) → suc j < i → get_elem? (cut_after bs j x) i ≡ none
  cut_after-past [] j i x h = refl
  cut_after-past (b ∷ bs) zero zero x h = absurd (omega arith)
  cut_after-past (b ∷ bs) zero (suc zero) x h = absurd (omega arith)
  cut_after-past (b ∷ bs) zero (suc (suc i)) x h = refl
  cut_after-past (b ∷ bs) (suc j) zero x h = absurd (omega arith)
  cut_after-past (b ∷ bs) (suc j) (suc i) x h = cut_after-past bs j i x (omega arith)

  -- An entry was there before, or is the new one.
  cut_after-cases :
      (bs : List B) (j i : ℕ) (x b : B)
      → j < length bs
      → get_elem? (cut_after bs j x) i ≡ some b
      → ((i ≤ j) × (get_elem? bs i ≡ some b)) ⊎ ((i ≡ suc j) × (b ≡ x))
  cut_after-cases [] j i x b h q = absurd (cc)
  cut_after-cases (c ∷ bs) zero zero x b h q = inl (omega arith, q)
  cut_after-cases (c ∷ bs) zero (suc zero) x b h q = inr (refl, cc)
  cut_after-cases (c ∷ bs) zero (suc (suc i)) x b h q = absurd (cc)
  cut_after-cases (c ∷ bs) (suc j) zero x b h q = inl (omega arith, q)
  cut_after-cases (c ∷ bs) (suc j) (suc i) x b h q =
      elim (cut_after-cases bs j i x b (omega arith) q) [
        | inl (le, r) ↦ inl (omega arith, r)
        | inr (e, r) ↦ inr (ap suc e, r)
      ]

  pub length-cut_after :
      (bs : List B) (j : ℕ) (x : B) → j < length bs → length (cut_after bs j x) ≡ suc (suc j)
  length-cut_after [] j x h = absurd (omega arith)
  length-cut_after (b ∷ bs) zero x h = refl
  length-cut_after (b ∷ bs) (suc j) x h = ap suc (length-cut_after bs j x (omega arith))

before-cut_after :
    (bs : List ℕ) (j i : ℕ) (x : ℕ) → i ≤ suc j → before (cut_after bs j x) i ≡ before bs i
before-cut_after bs j zero x h = refl
before-cut_after bs j (suc i) x h = cut_after-keeps bs j i x (omega arith)

module _ {ℓ} {A : Type ℓ} where
  -- What the queue holds when the blocks behind index `j` are replaced by one.
  pub contents-cut_after :
      (bs : List (Bwos.Block A)) (j : ℕ) (b : Bwos.Block A)
      → j < length bs
      → DrainedAfter j bs
      → contents (cut_after bs j b) ≡ contents bs ++ items b
  unfolding contents
  contents-cut_after [] j b h d = absurd (omega arith)
  contents-cut_after (c ∷ bs) zero b h d =
      ap₂ ◌++◌ (sym (append-nil (items c)) ∙ ap (λ l. items c ++ l) (sym (contents-drained bs d)))
        (append-nil (items b))
  contents-cut_after (c ∷ bs) (suc j) b h d =
      ap (λ l. items c ++ l) (contents-cut_after bs j b (omega arith) d)
      ∙ sym (append_assoc (items c) (contents bs) (items b))

  pub DrainedAfter-cut_after :
      (bs : List (Bwos.Block A)) (j : ℕ) (b : Bwos.Block A)
      → DrainedAfter (suc j) (cut_after bs j b)
  DrainedAfter-cut_after [] j b = tt
  DrainedAfter-cut_after (c ∷ bs) zero b = tt
  DrainedAfter-cut_after (c ∷ bs) (suc j) b = DrainedAfter-cut_after bs j b

  pub AllSized-cut_after :
      (size : ℕ) (bs : List (Bwos.Block A)) (j : ℕ) (b : Bwos.Block A)
      → AllSized size bs
      → IsSized size b
      → AllSized size (cut_after bs j b)
  AllSized-cut_after size [] j b h s = tt
  AllSized-cut_after size (c ∷ bs) zero b h s = (h.0, (s, tt))
  AllSized-cut_after size (c ∷ bs) (suc j) b h s = (h.0, AllSized-cut_after size bs j b h.1 s)

  view-cut_after :
      (h : List (Block A)) (chain : List ℕ) (j a : ℕ)
      → view h (cut_after chain j a) ≡ cut_after (view h chain) j (plain (block_at h a))
  unfolding view
  view-cut_after h [] j a = refl
  view-cut_after h (c ∷ chain) zero a = refl
  view-cut_after h (c ∷ chain) (suc j) a =
      ap (λ l. plain (block_at h c) ∷ l) (view-cut_after h chain j a)

  block_at-append_left :
      (h : List (Block A)) (x : Block A) (a : ℕ)
      → a < length h
      → block_at (h ++ x ∷ []) a ≡ block_at h a
  unfolding block_at
  block_at-append_left [] x a lt = absurd (omega arith)
  block_at-append_left (b ∷ h) x zero lt = refl
  block_at-append_left (b ∷ h) x (suc a) lt = block_at-append_left h x a (omega arith)

  block_at-append_end : (h : List (Block A)) (x : Block A) → block_at (h ++ x ∷ []) (length h) ≡ x
  unfolding block_at
  block_at-append_end [] x = refl
  block_at-append_end (b ∷ h) x = block_at-append_end h x

module _ {ℓ} {A : Type ℓ} (inner : Inner A) (blk : ℕ) (known : blk < length inner.memory) where
  abbrev h : List (Block A)
  h = inner.memory

  abbrev linked : List (Block A)
  linked = (link_fresh inner blk).memory

  pub length-link_fresh : length linked ≡ length h + 1
  unfolding link_fresh set_block
  length-link_fresh = length-set (h ++ _ ∷ []) blk _ ∙ length-append h _

  -- The fresh block, the block before it, and every other one.
  pub fresh_block : block_at linked (length h) ≡ new_block inner.block_size (some blk)
  unfolding link_fresh set_block
  fresh_block =
      block_at-set_ne (h ++ _ ∷ []) blk (length h) _ (λ e. omega arith)
      ∙ block_at-append_end h (new_block inner.block_size (some blk))

  linked_block : block_at linked blk ≡ record (block_at h blk) { next = some (length h) }
  unfolding link_fresh set_block
  linked_block =
      block_at-set_self (h ++ new_block inner.block_size (some blk) ∷ []) blk _
        (omega (arith, length-append h (new_block inner.block_size (some blk) ∷ [])))
      ∙ ap {A = Block A} (λ b. record b { next = some (length h) })
          (block_at-append_left h (new_block inner.block_size (some blk)) blk known)

  other_block : (a : ℕ) → a < length h → blk ≢ a → block_at linked a ≡ block_at h a
  unfolding link_fresh set_block
  other_block a lt n =
      block_at-set_ne (h ++ _ ∷ []) blk a _ n
      ∙ block_at-append_left h (new_block inner.block_size (some blk)) a lt

  linked_plain : (a : ℕ) → a < length h → plain (block_at linked a) ≡ plain (block_at h a)
  linked_plain a lt = elim (ℕ_discrete blk a) [
    | yes e ↦
        ap (λ i. plain (block_at linked i)) (sym e)
        ∙ ap plain linked_block
        ∙ ap (λ i. plain (block_at h i)) e
    | no n ↦ ap plain (other_block a lt n)
  ]

  linked_prev : (a : ℕ) → a < length h → (block_at linked a).prev ≡ (block_at h a).prev
  linked_prev a lt = elim (ℕ_discrete blk a) [
    | yes e ↦
        ap (λ i. (block_at linked i).prev) (sym e)
        ∙ ap (λ (b : Block A). b.prev) linked_block
        ∙ ap (λ i. (block_at h i).prev) e
    | no n ↦ ap (λ (b : Block A). b.prev) (other_block a lt n)
  ]

  module _ (chain : List ℕ) (j : ℕ) (k : Chained h chain)
      (here : get_elem? chain j ≡ some blk) where
    pub view-link_fresh :
        view linked (cut_after chain j (length h))
        ≡ cut_after (view h chain) j (plain (new_block inner.block_size (some blk)))
    view-link_fresh =
        view-cut_after linked chain j (length h)
        ∙ ap₂ (λ l b. cut_after l j b)
            (view-same h linked chain (λ i a q. linked_plain a (k.allocated i a q)))
            (ap plain fresh_block)

    in_chain : j < length chain
    in_chain = get_elem?-bound chain j blk here

    -- The entries of the new chain.
    abbrev Entry : ℕ → ℕ → Type 0
    Entry i a = ((i ≤ j) × (get_elem? chain i ≡ some a)) ⊎ ((i ≡ suc j) × (a ≡ length h))

    entry : (i a : ℕ) → get_elem? (cut_after chain j (length h)) i ≡ some a → Entry i a
    entry i a q = cut_after-cases chain j i (length h) a in_chain q

    next-linked :
        (i a : ℕ)
        → Entry i a
        → (block_at linked a).next ≡ get_elem? (cut_after chain j (length h)) (suc i)
    unfolding new_block
    next-linked i a (inr (e, f)) =
        rw (e, f)
          (ap (λ (b : Block A). b.next) fresh_block
            ∙ sym (cut_after-past chain j (suc (suc j)) (length h) (omega arith)))
    next-linked i a (inl (le, q)) = elim (ℕ_discrete i j) [
      | yes e ↦
          let same : blk ≡ a = cc in
          ap (λ c. (block_at linked c).next) (sym same)
          ∙ ap (λ (b : Block A). b.next) linked_block
          ∙ sym (cut_after-end chain j (length h) in_chain)
          ∙ ap (λ c. get_elem? (cut_after chain j (length h)) (suc c)) (sym e)
      | no n ↦
          let far : blk ≢ a = λ f. n (k.distinct i j a q (here ∙ ap some f)) in
          ap (λ (b : Block A). b.next) (other_block a (k.allocated i a q) far)
          ∙ k.forward i a q
          ∙ sym (cut_after-keeps chain j (suc i) (length h) (omega arith))
    ]

    prev-linked :
        (i a : ℕ) → Entry i a → (block_at linked a).prev ≡ before (cut_after chain j (length h)) i
    unfolding new_block
    prev-linked i a (inr (e, f)) =
        rw (e, f)
          (ap (λ (b : Block A). b.prev) fresh_block
            ∙ sym here
            ∙ sym (cut_after-keeps chain j j (length h) (omega arith)))
    prev-linked i a (inl (le, q)) =
        linked_prev a (k.allocated i a q)
        ∙ k.backward i a q
        ∙ sym (before-cut_after chain j i (length h) (omega arith))

    pub Chained-link_fresh : Chained linked (cut_after chain j (length h))
    Chained-link_fresh = record {
      allocated = λ i a q. elim (entry i a q) [
        | inl (le, r) ↦ omega (arith, length-link_fresh, k.allocated i a r)
        | inr (e, r) ↦ omega (arith, length-link_fresh)
      ];
      distinct = λ i i' a q q'. same i i' a (entry i a q) (entry i' a q');
      ordered = λ i a q. elim (entry i a q) [
        | inl (le, r) ↦ k.ordered i a r
        | inr (e, r) ↦ omega (arith, k.ordered j blk here)
      ];
      forward = λ i a q. next-linked i a (entry i a q);
      backward = λ i a q. prev-linked i a (entry i a q);
    }
      where
        same : (i i' a : ℕ) → Entry i a → Entry i' a → i ≡ i'
        same i i' a (inl (le, r)) (inl (le', r')) = k.distinct i i' a r r'
        same i i' a (inl (le, r)) (inr (e', f')) = absurd (omega (arith, k.allocated i a r))
        same i i' a (inr (e, f)) (inl (le', r')) = absurd (omega (arith, k.allocated i' a r'))
        same i i' a (inr (e, f)) (inr (e', f')) = omega arith

pub first-cut_after {ℓ} :
    {B : Type ℓ} (bs : List B) (j : ℕ) (x : B) → get_elem? (cut_after bs j x) 0 ≡ get_elem? bs 0
first-cut_after bs j x = cut_after-keeps bs j 0 x (omega arith)
