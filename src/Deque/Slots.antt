-- ===== src/Deque/Slots.antt =====
-- The cells of a buffer whose capacity is a power of two: which logical indices share a cell, and
-- what a write and the copy loop of `resized` leave in each.
use native.Mathlib.Nat.{mod-lt, mod-add-mod, mod-eq_of_lt, mod-eq-sub-mod, mod-mod_of_dvd}
use native.Mathlib.Decide.{dec_lt}
use ws_deque.Base.{
  ℕ, zero, suc, ◌+◌, ◌-◌, ◌%◌, ◌≤◌, ◌<◌, ◌∣◌, ◌≡◌, ◌≢◌, refl, sym, ◌∙◌, ap, Option, none, arith,
  length, get_or-set_self, get_or-set_ne, length-set, word, wrapping_add,
}
use ws_deque.Deque.Buffer.{Buffer, cell, read, write, copy_cells}

-- Fewer than `cap` steps round a buffer do not come back to the same cell.
add-mod-ne : (x d c : ℕ) → 0 < d → d < c → (x + d) % c ≢ x % c
add-mod-ne x d c pos lt e = elim (dec_lt (x % c + d) c) [
  | yes p ↦ omega (arith, mod-eq_of_lt p, mod-add-mod x c d)
  | no p ↦ omega (
    arith,
    mod-add-mod x c d,
    mod-eq-sub-mod {n = x % c + d} {m = c} (omega arith),
    mod-lt x {m = c} (omega arith),
    mod-eq_of_lt {n = x % c + d - c} {m = c} (omega (arith, mod-lt x {m = c} (omega arith))),
  )
]

module _ {ℓ} {A : Type ℓ} where
  pub read-write_self :
      (buf : Buffer A) (i : ℕ) (v : Option A)
      → 0 < buf.cap
      → length buf.cells ≡ buf.cap
      → read (write buf i v) i ≡ v
  unfolding read write cell
  read-write_self buf i v pos e =
      get_or-set_self buf.cells (i % buf.cap) v none (omega (arith, mod-lt i pos))

  pub read-write_ne :
      (buf : Buffer A) (i j : ℕ) (v : Option A)
      → cell buf i ≢ cell buf j
      → read (write buf i v) j ≡ read buf j
  unfolding read write cell
  read-write_ne buf i j v h = get_or-set_ne buf.cells (i % buf.cap) (j % buf.cap) v none h

  -- The wrap of the index at `2 ^ 64` is not seen by the cells.
  pub cell-wrapping_add :
      (buf : Buffer A) (t j : ℕ) → buf.cap ∣ word → cell buf (wrapping_add t j) ≡ (t + j) % buf.cap
  unfolding cell
  cell-wrapping_add buf t j dvd = mod-mod_of_dvd buf.cap (t + j) dvd

  pub cell-ne :
      (buf : Buffer A) (t i j : ℕ)
      → buf.cap ∣ word
      → i < j
      → j < i + buf.cap
      → cell buf (wrapping_add t i) ≢ cell buf (wrapping_add t j)
  cell-ne buf t i j dvd lt near e = add-mod-ne (t + i) (j - i) buf.cap (omega arith) (omega arith) (
      ap (λ k. k % buf.cap) shift
      ∙ sym (cell-wrapping_add buf t j dvd)
      ∙ sym e
      ∙ cell-wrapping_add buf t i dvd)
    where
      shift : t + i + (j - i) ≡ t + j
      shift = omega arith

  module _ (top : ℕ) (src : Buffer A) where
    pub cap-copy_cells : (n k : ℕ) (o : Buffer A) → (copy_cells n k top src o).cap ≡ o.cap
    unfolding copy_cells write
    cap-copy_cells zero k o = refl
    cap-copy_cells (suc n) k o = cap-copy_cells n (k + 1) (write o _ _)

    pub length-copy_cells :
        (n k : ℕ) (o : Buffer A) → length (copy_cells n k top src o).cells ≡ length o.cells
    unfolding copy_cells write
    length-copy_cells zero k o = refl
    length-copy_cells (suc n) k o =
        length-copy_cells n (k + 1) (write o _ _) ∙ length-set o.cells _ _

    -- The rounds from `k` on leave the cells of the earlier indices alone.
    read-copy_cells_below :
        (n k j : ℕ) (o : Buffer A)
        → o.cap ∣ word
        → j < k
        → k + n ≤ j + o.cap
        → read (copy_cells n k top src o) (wrapping_add top j) ≡ read o (wrapping_add top j)
    unfolding copy_cells
    read-copy_cells_below zero k j o dvd lt near = refl
    read-copy_cells_below (suc n) k j o dvd lt near =
        let o' = write o (wrapping_add top k) (read src (wrapping_add top k)) in
        read-copy_cells_below n (k + 1) j o' (unfold write in dvd) (omega arith)
          (unfold write in omega arith)
        ∙ read-write_ne o _ _ _ (λ e. cell-ne o top j k dvd lt (omega arith) (sym e))

    -- Each index that the loop reaches is copied.
    pub read-copy_cells :
        (n k j : ℕ) (o : Buffer A)
        → o.cap ∣ word
        → 0 < o.cap
        → length o.cells ≡ o.cap
        → n ≤ o.cap
        → k ≤ j
        → j < k + n
        → read (copy_cells n k top src o) (wrapping_add top j) ≡ read src (wrapping_add top j)
    unfolding copy_cells
    read-copy_cells zero k j o dvd pos e room le lt = absurd (omega arith)
    read-copy_cells (suc n) k j o dvd pos e room le lt =
        let o' = write o (wrapping_add top k) (read src (wrapping_add top k)) in
        elim (dec_lt k j) [
          | yes later ↦
              read-copy_cells n (k + 1) j o' (unfold write in dvd) (unfold write in pos)
                (unfold write in length-set o.cells _ _ ∙ e) (unfold write in omega arith)
                (omega arith) (omega arith)
          | no now ↦
              let here : j ≡ k = omega arith in
              rw here (
                read-copy_cells_below n (k + 1) k o' (unfold write in dvd) (omega arith)
                  (unfold write in omega arith)
                ∙ read-write_self o _ _ pos e)
        ]
