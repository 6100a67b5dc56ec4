-- ===== src/Jiffy/Flat.antt =====
-- The chain of buffers of src/jiffy.rs as one sequence of slots, indexed by the claimed indices.
use ws_deque.Base.{
  ℕ, zero, suc, ◌+◌, ◌≤◌, ◌<◌, ◌≡◌, refl, sym, ap, ◌∙◌, List, [], ◌∷◌, ◌++◌, arith, length, get_or,
  set, replicate, length-append, length-set, length-replicate, append-nil,
}
use ws_deque.Jiffy.{Slot, Buffer, empty_slot, new_buffer}

-- The first index of buffer `k`.
abbrev pub start_of : ℕ → ℕ → ℕ
start_of buffer_size zero = 0
start_of buffer_size (suc k) = buffer_size + start_of buffer_size k

pub start_of_mono : (n j k : ℕ) → j ≤ k → start_of n j ≤ start_of n k
start_of_mono n zero k h = omega arith
start_of_mono n (suc j) zero h = absurd (omega arith)
start_of_mono n (suc j) (suc k) h = omega (arith, start_of_mono n j k (omega arith))

pub start_of_suc : (n k : ℕ) → start_of n (k + 1) ≡ start_of n k + n
start_of_suc n k = let e : k + 1 ≡ suc k = omega arith in ap (start_of n) e ∙ omega arith

module _ {ℓ} {A : Type ℓ} where
  set-append_left :
      (xs ys : List A) (i : ℕ) (v : A) → i < length xs → set (xs ++ ys) i v ≡ set xs i v ++ ys
  set-append_left [] ys i v h = absurd (omega arith)
  set-append_left (x ∷ xs) ys zero v h = refl
  set-append_left (x ∷ xs) ys (suc i) v h =
      ap (λ l. x ∷ l) (set-append_left xs ys i v (omega arith))

  set-append_right :
      (xs ys : List A) (m i : ℕ) (v : A) → m ≡ length xs + i → set (xs ++ ys) m v ≡ xs ++ set ys i v
  set-append_right [] ys m i v e = ap (λ k. set ys k v) (e ∙ omega arith)
  set-append_right (x ∷ xs) ys zero i v e = absurd (omega arith)
  set-append_right (x ∷ xs) ys (suc m) i v e =
      ap (λ l. x ∷ l) (set-append_right xs ys m i v (omega arith))

  get_or-append_left :
      (xs ys : List A) (i : ℕ) (d : A) → i < length xs → get_or (xs ++ ys) i d ≡ get_or xs i d
  get_or-append_left [] ys i d h = absurd (omega arith)
  get_or-append_left (x ∷ xs) ys zero d h = refl
  get_or-append_left (x ∷ xs) ys (suc i) d h = get_or-append_left xs ys i d (omega arith)

  get_or-append_right :
      (xs ys : List A) (m i : ℕ) (d : A) → m ≡ length xs + i → get_or (xs ++ ys) m d ≡ get_or ys i d
  get_or-append_right [] ys m i d e = ap (λ k. get_or ys k d) (e ∙ omega arith)
  get_or-append_right (x ∷ xs) ys zero i d e = absurd (omega arith)
  get_or-append_right (x ∷ xs) ys (suc m) i d e = get_or-append_right xs ys m i d (omega arith)

  get_or-append_same :
      (xs ys zs : List A) (i : ℕ) (d : A)
      → ((j : ℕ) → get_or ys j d ≡ get_or zs j d)
      → get_or (xs ++ ys) i d ≡ get_or (xs ++ zs) i d
  get_or-append_same [] ys zs i d h = h i
  get_or-append_same (x ∷ xs) ys zs zero d h = refl
  get_or-append_same (x ∷ xs) ys zs (suc i) d h = get_or-append_same xs ys zs i d h

  pub get_or-end : (xs : List A) (i : ℕ) (d : A) → length xs ≤ i → get_or xs i d ≡ d
  get_or-end [] i d h = refl
  get_or-end (x ∷ xs) zero d h = absurd (omega arith)
  get_or-end (x ∷ xs) (suc i) d h = get_or-end xs i d (omega arith)

  get_or-replicate : (n i : ℕ) (d : A) → get_or (replicate n d) i d ≡ d
  get_or-replicate zero i d = refl
  get_or-replicate (suc n) zero d = refl
  get_or-replicate (suc n) (suc i) d = get_or-replicate n i d

module _ {ℓ} {A : Type ℓ} (buffer_size : ℕ) where
  abbrev pub flat : List (Buffer A) → List (Slot A)
  flat [] = []
  flat (b ∷ buffers) = b.slots ++ flat buffers

  -- The buffers have their size and stand one behind the other from index `base` on.
  abbrev pub Shape : ℕ → List (Buffer A) → Type 0
  Shape base [] = Unit
  Shape base (b ∷ buffers) =
      (b.base ≡ base) × (length b.slots ≡ buffer_size) × Shape (base + buffer_size) buffers

  pub Shape-at :
      (base : ℕ) (buffers : List (Buffer A)) (k : ℕ) (d : Buffer A)
      → Shape base buffers
      → k < length buffers
      → ((get_or buffers k d).base ≡ base + start_of buffer_size k)
        × (length (get_or buffers k d).slots ≡ buffer_size)
  Shape-at base [] k d s h = absurd (omega arith)
  Shape-at base (b ∷ buffers) zero d s h = (s.0 ∙ omega arith, s.1)
  Shape-at base (b ∷ buffers) (suc k) d s h =
      let (e, n) = Shape-at (base + buffer_size) buffers k d s.2 (omega arith) in
      (e ∙ omega arith, n)

  pub flat-at :
      (base : ℕ) (buffers : List (Buffer A)) (k offset : ℕ) (d : Buffer A)
      → Shape base buffers
      → k < length buffers
      → offset < buffer_size
      → get_or (get_or buffers k d).slots offset empty_slot
        ≡ get_or (flat buffers) (start_of buffer_size k + offset) empty_slot
  flat-at base [] k offset d s h o = absurd (omega arith)
  flat-at base (b ∷ buffers) zero offset d s h o =
      let z : 0 + offset ≡ offset = omega arith in
      sym (
        ap (λ i. get_or (b.slots ++ flat buffers) i empty_slot) z
        ∙ get_or-append_left b.slots (flat buffers) offset empty_slot (omega (arith, s.1)))
  flat-at base (b ∷ buffers) (suc k) offset d s h o =
      flat-at (base + buffer_size) buffers k offset d s.2 (omega arith) o
      ∙ sym (
          get_or-append_right b.slots (flat buffers) (start_of buffer_size (suc k) + offset)
            (start_of buffer_size k + offset) empty_slot (omega (arith, s.1)))

  -- A write to a slot of buffer `k`.
  pub flat-set :
      (base : ℕ) (buffers : List (Buffer A)) (k offset : ℕ) (d : Buffer A) (slot : Slot A)
      → Shape base buffers
      → k < length buffers
      → offset < buffer_size
      → let b = get_or buffers k d in
        let buffers' = set buffers k (record b { slots = set b.slots offset slot }) in
        (flat buffers' ≡ set (flat buffers) (start_of buffer_size k + offset) slot)
        × Shape base buffers'
  flat-set base [] k offset d slot s h o = absurd (omega arith)
  flat-set base (b ∷ buffers) zero offset d slot s h o =
      let z : 0 + offset ≡ offset = omega arith in
      (
        sym (
            ap (λ i. set (b.slots ++ flat buffers) i slot) z
            ∙ set-append_left b.slots (flat buffers) offset slot (omega (arith, s.1))),
        (s.0, length-set b.slots offset slot ∙ s.1, s.2),
      )
  flat-set base (b ∷ buffers) (suc k) offset d slot s h o =
      let (e, t) = flat-set (base + buffer_size) buffers k offset d slot s.2 (omega arith) o in
      (
        ap (λ l. b.slots ++ l) e
            ∙ sym (
                set-append_right b.slots (flat buffers) (start_of buffer_size (suc k) + offset)
                  (start_of buffer_size k + offset) slot (omega (arith, s.1))),
        (s.0, s.1, t),
      )

  -- A new buffer at the end adds empty slots.
  pub flat-linked :
      (buffers : List (Buffer A)) (base i : ℕ)
      → get_or (flat (buffers ++ new_buffer buffer_size base ∷ [])) i empty_slot
        ≡ get_or (flat buffers) i empty_slot
  unfolding new_buffer
  flat-linked [] base i =
      get_or-append_same (replicate buffer_size empty_slot) [] [] i empty_slot (λ j. refl)
      ∙ ap (λ l. get_or l i empty_slot) (append-nil (replicate buffer_size empty_slot))
      ∙ get_or-replicate buffer_size i empty_slot
  flat-linked (b ∷ buffers) base i =
      get_or-append_same b.slots (flat (buffers ++ new_buffer buffer_size base ∷ [])) (flat buffers)
        i empty_slot (λ j. flat-linked buffers base j)

  pub Shape-linked :
      (base : ℕ) (buffers : List (Buffer A)) (end : ℕ)
      → Shape base buffers
      → end ≡ base + start_of buffer_size (length buffers)
      → Shape base (buffers ++ new_buffer buffer_size end ∷ [])
  unfolding new_buffer
  Shape-linked base [] end s e = (e ∙ omega arith, length-replicate buffer_size empty_slot, tt)
  Shape-linked base (b ∷ buffers) end s e =
      (s.0, s.1, Shape-linked (base + buffer_size) buffers end s.2 (e ∙ omega arith))

  pub length-flat :
      (base : ℕ) (buffers : List (Buffer A))
      → Shape base buffers
      → length (flat buffers) ≡ start_of buffer_size (length buffers)
  length-flat base [] s = refl
  length-flat base (b ∷ buffers) s = omega (
    arith,
    length-append b.slots (flat buffers),
    s.1,
    length-flat (base + buffer_size) buffers s.2,
  )
