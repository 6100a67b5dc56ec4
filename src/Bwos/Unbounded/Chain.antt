-- ===== src/Bwos/Unbounded/Chain.antt =====
-- src/bwos.rs, `unbounded`: the blocks that are linked from the head on, as a list, and what a store to a
-- block does to it.
use ws_deque.Base.{
  ℕ, zero, suc, ◌≤◌, ◌<◌, ◌≡◌, ◌≢◌, refl, sym, ◌∙◌, ap, Option, none, some, List, [], ◌∷◌, arith,
  length, length-set, get_or, get_elem?, set, get_or-set_self, get_or-set_ne,
}
use mathlib.Core.Path.{ap₂}
use native.Mathlib.Decide.{ℕ_discrete}
use ws_deque.Bwos
use ws_deque.Bwos.Unbounded.{Block, block_at}

-- The entry before index `i`.
abbrev pub before : List ℕ → ℕ → Option ℕ
before chain zero = none
before chain (suc i) = get_elem? chain i

only_entry : (i a : ℕ) → get_elem? (0 ∷ []) i ≡ some a → (i ≡ 0) × (a ≡ 0)
only_entry zero a q = (refl, cc)
only_entry (suc i) a q = absurd (cc)

module _ {ℓ} {A : Type ℓ} where
  -- A block without its links.
  abbrev pub plain : Block A → Bwos.Block A
  plain b = record { slots = b.slots; committed = b.committed; stolen = b.stolen }

  -- The blocks at the addresses of `chain`.
  unfoldable pub view : List (Block A) → List ℕ → List (Bwos.Block A)
  view h [] = []
  view h (a ∷ chain) = plain (block_at h a) ∷ view h chain

  -- The blocks at the addresses of `chain` are linked in this order, both ways, to the last.
  pub record Chained (h : List (Block A)) (chain : List ℕ) : Type 0 where
    pub allocated : (i a : ℕ) → get_elem? chain i ≡ some a → a < length h
    pub distinct : (i k a : ℕ) → get_elem? chain i ≡ some a → get_elem? chain k ≡ some a → i ≡ k
    pub ordered : (i a : ℕ) → get_elem? chain i ≡ some a → i ≤ a
    pub forward :
        (i a : ℕ) → get_elem? chain i ≡ some a → (block_at h a).next ≡ get_elem? chain (suc i)
    pub backward : (i a : ℕ) → get_elem? chain i ≡ some a → (block_at h a).prev ≡ before chain i

  pub length-view : (h : List (Block A)) (chain : List ℕ) → length (view h chain) ≡ length chain
  unfolding view
  length-view h [] = refl
  length-view h (a ∷ chain) = ap suc (length-view h chain)

  pub get_or-view :
      (h : List (Block A)) (chain : List ℕ) (i a : ℕ) (d : Bwos.Block A)
      → get_elem? chain i ≡ some a
      → get_or (view h chain) i d ≡ plain (block_at h a)
  unfolding view
  get_or-view h [] i a d q = absurd (cc)
  get_or-view h (c ∷ chain) zero a d q =
      let same : c ≡ a = cc in ap (λ i. plain (block_at h i)) same
  get_or-view h (c ∷ chain) (suc i) a d q = get_or-view h chain i a d q

  -- Blocks that differ in their links only.
  pub view-same :
      (h h' : List (Block A)) (chain : List ℕ)
      → ((i a : ℕ) → get_elem? chain i ≡ some a → plain (block_at h' a) ≡ plain (block_at h a))
      → view h' chain ≡ view h chain
  unfolding view
  view-same h h' [] e = refl
  view-same h h' (a ∷ chain) e =
      ap₂ ◌∷◌ (e 0 a refl) (view-same h h' chain (λ i b q. e (suc i) b q))

  pub block_at-set_self :
      (h : List (Block A)) (a : ℕ) (b : Block A) → a < length h → block_at (set h a b) a ≡ b
  unfolding block_at
  block_at-set_self h a b lt = get_or-set_self h a b _ lt

  pub block_at-set_ne :
      (h : List (Block A)) (a c : ℕ) (b : Block A) → a ≢ c → block_at (set h a b) c ≡ block_at h c
  unfolding block_at
  block_at-set_ne h a c b n = get_or-set_ne h a c b _ n

  -- A store to the block at index `j` of the chain.
  pub view-set :
      (h : List (Block A)) (chain : List ℕ) (j a : ℕ) (b : Block A)
      → get_elem? chain j ≡ some a
      → ((i : ℕ) → get_elem? chain i ≡ some a → i ≡ j)
      → a < length h
      → view (set h a b) chain ≡ set (view h chain) j (plain b)
  unfolding view
  view-set h [] j a b q one lt = absurd (cc)
  view-set h (c ∷ chain) zero a b q one lt =
      let same : a ≡ c = cc in
      ap₂ ◌∷◌ (ap plain (ap (block_at (set h a b)) (sym same) ∙ block_at-set_self h a b lt)) (
        view-same h (set h a b) chain (λ i e r. ap plain (
          block_at-set_ne h a e b
            (λ f. let here : suc i ≡ 0 = one (suc i) (r ∙ ap some (sym f)) in omega arith))))
  view-set h (c ∷ chain) (suc j) a b q one lt =
      let far : a ≢ c = λ f. let here : 0 ≡ suc j = one 0 (ap some (sym f)) in omega arith in
      ap₂ ◌∷◌ (ap plain (block_at-set_ne h a c b far)) (
        view-set h chain j a b q (λ i r. let here : suc i ≡ suc j = one (suc i) r in omega arith)
          lt)

  -- A store that keeps the block's links keeps the chain.
  pub Chained-set :
      {h : List (Block A)} {chain : List ℕ} (a : ℕ) (b : Block A)
      → Chained h chain
      → a < length h
      → b.next ≡ (block_at h a).next
      → b.prev ≡ (block_at h a).prev
      → Chained (set h a b) chain
  Chained-set {h} {chain} a b k lt n p = record {
    allocated = λ i c q. omega (arith, k.allocated i c q, length-set h a b);
    distinct = k.distinct;
    ordered = k.ordered;
    forward = λ i c q. (link c).0 ∙ k.forward i c q;
    backward = λ i c q. (link c).1 ∙ k.backward i c q;
  }
    where
      link :
          (c : ℕ)
          → ((block_at (set h a b) c).next ≡ (block_at h c).next)
            × ((block_at (set h a b) c).prev ≡ (block_at h c).prev)
      link c = elim (ℕ_discrete a c) [
        | yes e ↦
            let at : block_at (set h a b) c ≡ b =
              ap (block_at (set h a b)) (sym e) ∙ block_at-set_self h a b lt in
            (
              ap (λ (x : Block A). x.next) at ∙ n ∙ ap (λ i. (block_at h i).next) e,
              ap (λ (x : Block A). x.prev) at ∙ p ∙ ap (λ i. (block_at h i).prev) e,
            )
        | no f ↦
            let at = block_at-set_ne h a c b f in
            (ap (λ (x : Block A). x.next) at, ap (λ (x : Block A). x.prev) at)
      ]

  -- A chain has no more blocks than were allocated.
  pub Chained-le : {h : List (Block A)} {chain : List ℕ} → Chained h chain → length chain ≤ length h
  Chained-le {h} {chain} k = at_most chain refl
    where
      at_most : (c : List ℕ) → c ≡ chain → length chain ≤ length h
      at_most [] e = omega (arith, ap length e)
      at_most (a ∷ c) e =
          let (b, q) = last_entry a c in
          let q' : get_elem? chain (length c) ≡ some b =
            ap (λ l. get_elem? l (length c)) (sym e) ∙ q in
          omega (arith, ap length e, k.ordered (length c) b q', k.allocated (length c) b q')
        where
          last_entry : (a : ℕ) (c : List ℕ) → (b : ℕ) × (get_elem? (a ∷ c) (length c) ≡ some b)
          last_entry a [] = (a, refl)
          last_entry a (x ∷ c) = last_entry x c

  -- One block that is linked to no other.
  pub Chained-one : (b : Block A) → b.next ≡ none → b.prev ≡ none → Chained (b ∷ []) (0 ∷ [])
  unfolding block_at
  Chained-one b n p = record {
    allocated = λ i a q. omega (arith, only_entry i a q);
    distinct = λ i k a q r. omega (arith, only_entry i a q, only_entry k a r);
    ordered = λ i a q. omega (arith, only_entry i a q);
    forward = λ i a q. rw ((only_entry i a q).1) n;
    backward = λ i a q. rw ((only_entry i a q).0, (only_entry i a q).1) p;
  }
