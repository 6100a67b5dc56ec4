-- ===== src/Deque/Buffer.antt =====
-- src/lib.rs, `Buffer`: a power-of-two-sized cyclic buffer of cells. A cell holds the boxed element
-- that its pointer leads to, or `none` for a null pointer.
use ws_deque.Base.{
  ℕ, zero, suc, ◌*◌, ◌+◌, ◌%◌, Option, none, List, get_or, set, replicate, wrapping_add,
  wrapping_sub, max_zero,
}

pub record Buffer {ℓ} (A : Type ℓ) : Type ℓ where
  pub cells : List (Option A)
  pub cap : ℕ

module _ {ℓ} {A : Type ℓ} where
  unfoldable pub alloc : ℕ → Buffer A
  alloc cap = record { cells = replicate cap none; cap = cap }

  -- `index as usize & self.mask()`: `mask()` is `cap - 1` and `cap` a power of two, so this is the
  -- remainder by `cap`.
  unfoldable pub cell : Buffer A → ℕ → ℕ
  cell buf index = index % buf.cap

  unfoldable pub write : Buffer A → ℕ → Option A → Buffer A
  unfolding cell
  write buf index boxed = record buf { cells = set buf.cells (cell buf index) boxed }

  unfoldable pub read : Buffer A → ℕ → Option A
  unfolding cell
  read buf index = get_or buf.cells (cell buf index) none

  -- The rounds `k, k + 1, …` of the copy loop of `resized`, `n` of them.
  unfoldable pub copy_cells : ℕ → ℕ → ℕ → Buffer A → Buffer A → Buffer A
  copy_cells zero k top src other = other
  copy_cells (suc n) k top src other =
      let i = wrapping_add top k in copy_cells n (k + 1) top src (write other i (read src i))

  -- A negative `count` gives the empty range `0..count`.
  unfoldable pub resized : Buffer A → ℕ → ℕ → ℕ → Buffer A
  unfolding alloc copy_cells
  resized buf new_cap bottom top =
      copy_cells (max_zero (wrapping_sub bottom top)) 0 top buf (alloc new_cap)

  unfoldable pub grow : Buffer A → ℕ → ℕ → Buffer A
  unfolding resized
  grow buf bottom top = resized buf (buf.cap * 2) bottom top
