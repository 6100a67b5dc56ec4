-- ===== src/Bwos/Held.antt =====
-- src/bwos.rs: the first and the last of the values in a queue of blocks, each in a slot that was written.
use ws_deque.Base.{◌≡◌, ◌≢◌, inl, inr, refl, sym, ◌∙◌, ap, Option, some, List, [], ◌∷◌, ◌++◌, map}
use mathlib.Core.List.{map-append}
use mathlib.Core.Path.{ap₂}
use ws_deque.Deque.Steal
use ws_deque.Deque.Steal.{empty, success}
use ws_deque.Deque.Stealer.{taken}
use ws_deque.Deque.Spec.{pop_back, pop_front}
use ws_deque.Deque.Refine.{pop_back-cases}

module _ {ℓ} {A : Type ℓ} where
  snoc_inj : (xs ys : List A) (x y : A) → xs ++ x ∷ [] ≡ ys ++ y ∷ [] → (xs ≡ ys) × (x ≡ y)
  snoc_inj [] [] x y e = (refl, cc)
  snoc_inj [] (b ∷ []) x y e = absurd (cc)
  snoc_inj [] (b ∷ c ∷ ys) x y e = absurd (cc)
  snoc_inj (a ∷ []) [] x y e = absurd (cc)
  snoc_inj (a ∷ c ∷ xs) [] x y e = absurd (cc)
  snoc_inj (a ∷ xs) (b ∷ ys) x y e =
      let t : xs ++ x ∷ [] ≡ ys ++ y ∷ [] = cc in
      let (p, q) = snoc_inj xs ys x y t in let h : a ≡ b = cc in (ap₂ ◌∷◌ h p, q)

  snoc-nonempty : (xs : List A) (x : A) → [] ≢ xs ++ x ∷ []
  snoc-nonempty [] x e = cc
  snoc-nonempty (y ∷ xs) x e = cc

module _ {ℓ} {A : Type ℓ} where
  pub map_nil : (xs : List A) → map some xs ≡ [] → xs ≡ []
  map_nil [] e = refl
  map_nil (x ∷ xs) e = absurd (cc)

  -- The last of the values that a queue holds.
  pub held_last :
      (xs : List A) (cs : List (Option A)) (x : Option A)
      → map some xs ≡ cs ++ x ∷ []
      → (x ≡ (pop_back xs).0) × (cs ≡ map some (pop_back xs).1)
  held_last xs cs x e = elim (pop_back-cases xs) [
    | inl n ↦ absurd (snoc-nonempty cs x (sym (ap (map some) n) ∙ e))
    | inr (ys, y, n, f) ↦
        let (p, q) =
          snoc_inj (map some ys) cs (some y) x
            (sym (map-append some ys (y ∷ [])) ∙ sym (ap (map some) n) ∙ e) in
        rw f (sym q, sym p)
  ]

  -- What a thief that finds the oldest value is told.
  abbrev pub oldest : List A → Steal.Steal A
  oldest [] = empty
  oldest (x ∷ xs) = success x

  pub held_first :
      (xs : List A) (x : Option A) (cs : List (Option A))
      → map some xs ≡ x ∷ cs
      → (taken x ≡ oldest xs) × (cs ≡ map some (pop_front xs).1)
  unfolding taken pop_front
  held_first [] x cs e = absurd (cc)
  held_first (y ∷ xs) x cs e =
      let h : x ≡ some y = cc in let t : cs ≡ map some xs = cc in (ap taken h, t)
