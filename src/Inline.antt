-- ===== src/Inline.antt =====
-- src/inline.rs: the Chase-Lev deque that keeps small `Copy` values in the cells of its buffer. The
-- state and the operations of the owner (`InlineWorker`) and of the thieves (`InlineStealer`); the
-- packing of a value into a cell stands in `Bits`.
use ws_deque.Base.{
  ℕ, zero, suc, ◌*◌, ◌+◌, ◌/◌, ◌%◌, ◌^◌, max, Bool, ◌&&◌, Option, none, some, List, [], ◌∷◌, get_or,
  set, replicate, if◌then◌else◌, ◌==◌, ltb, is_negative, isize_le, max_zero, wrapping_add,
  wrapping_sub,
}
use ws_deque.Deque.Steal.{Steal, empty, retry, success}
use ws_deque.Deque.Worker.{compare_exchange}
pub mod Bits
use Bits.{Layout, to_bits, from_bits}
mod Encode
pub mod Refine
mod Tests

abbrev pub min_capacity : ℕ
min_capacity = 16

abbrev pub shrink_factor : ℕ
shrink_factor = 3

-- The cells hold the bits of the values; `0` is in a cell that was never written.
pub record Buffer : Type 0 where
  pub cells : List ℕ
  pub cap : ℕ

unfoldable pub alloc : ℕ → Buffer
alloc cap = record { cells = replicate cap 0; cap = cap }

-- `index as usize & self.mask()`, with `mask()` one less than a power of two.
unfoldable pub cell : Buffer → ℕ → ℕ
cell buf index = index % buf.cap

unfoldable pub store : Buffer → ℕ → ℕ → Buffer
unfolding cell
store buf index bits = record buf { cells = set buf.cells (cell buf index) bits }

unfoldable pub load : Buffer → ℕ → ℕ
unfolding cell
load buf index = get_or buf.cells (cell buf index) 0

-- The rounds `k, k + 1, …` of the copy loop of `resized`, `n` of them.
unfoldable pub copy_cells : ℕ → ℕ → ℕ → Buffer → Buffer → Buffer
copy_cells zero k top src other = other
copy_cells (suc n) k top src other =
    let i = wrapping_add top k in copy_cells n (k + 1) top src (store other i (load src i))

unfoldable pub resized : Buffer → ℕ → ℕ → ℕ → Buffer
resized buf new_cap bottom top =
    copy_cells (max_zero (wrapping_sub bottom top)) 0 top buf (alloc new_cap)

-- The list of retired buffers, its newest first.
pub record Inner : Type 0 where
  pub bottom : ℕ
  pub top : ℕ
  pub buffer : Buffer
  pub retired : List Buffer

-- `Inner::new`
unfoldable pub create_inner : ℕ → Inner
unfolding alloc
create_inner log_cap = record { bottom = 0; top = 0; buffer = alloc (2 ^ log_cap); retired = [] }

unfoldable pub retire : Inner → Buffer → Inner
retire inner old = record inner { retired = old ∷ inner.retired }

-- `Drop for Inner`: the buffers that it frees, in order. The values need no destructor.
unfoldable pub drop_inner : Inner → List Buffer
drop_inner inner = inner.buffer ∷ inner.retired

pub record InlineWorker : Type 0 where
  pub inner : Inner
  pub cached_top : ℕ

unfoldable pub with_log_capacity : ℕ → InlineWorker
unfolding create_inner
with_log_capacity log_cap = record { inner = create_inner log_cap; cached_top = 0 }

-- `InlineWorker::new`
unfoldable pub create : InlineWorker
unfolding with_log_capacity
create = with_log_capacity 5

unfoldable pub len : InlineWorker → ℕ
len w = max_zero (wrapping_sub w.inner.bottom w.inner.top)

unfoldable pub is_empty : InlineWorker → Bool
unfolding len
is_empty w = len w == 0

unfoldable pub capacity : InlineWorker → ℕ
capacity w = w.inner.buffer.cap

-- Install a buffer and retire the old one, which stays allocated.
unfoldable pub replace_buffer : Inner → Buffer → Inner
unfolding retire
replace_buffer inner fresh = retire (record inner { buffer = fresh }) inner.buffer

unfoldable pub perhaps_shrink : Inner → ℕ → ℕ → Inner
perhaps_shrink inner bottom top =
    let cap = inner.buffer.cap in
    let size = max_zero (wrapping_sub bottom top) in
    if ltb min_capacity cap && ltb size (cap / shrink_factor)
    then replace_buffer inner (resized inner.buffer (max (cap / 2) min_capacity) bottom top)
    else inner

-- The lower bound of `top` that `push` uses: the cached one, or the shared `top` if the buffer might
-- be full.
unfoldable pub refresh_top : InlineWorker → ℕ
refresh_top w =
    if isize_le (wrapping_sub w.inner.buffer.cap 1) (wrapping_sub w.inner.bottom w.cached_top)
    then w.inner.top
    else w.cached_top

unfoldable pub ensure_room : Inner → ℕ → Inner
ensure_room inner t =
    if isize_le (wrapping_sub inner.buffer.cap 1) (wrapping_sub inner.bottom t)
    then replace_buffer inner
        (resized inner.buffer (max (inner.buffer.cap * 2) min_capacity) inner.bottom t)
    else inner

module _ {ℓ} {T : Type ℓ} (layout : Layout T) where
  unfoldable pub push : InlineWorker → T → InlineWorker
  push w value =
      let b = w.inner.bottom in
      let t = refresh_top w in
      let inner = ensure_room w.inner t in
      record w {
        inner = record inner {
          buffer = store inner.buffer b (to_bits layout value);
          bottom = wrapping_add b 1;
        };
        cached_top = t;
      }

  -- The last element: race the thieves for it.
  unfoldable pub pop_last : (Inner → Inner) → Inner → ℕ → ℕ → Option T × Inner
  pop_last others inner t bits =
      let inner' = others inner in
      let won = compare_exchange inner'.top t in
      (
        if won then some (from_bits layout bits) else none,
        record inner' {
          top = if won then wrapping_add t 1 else inner'.top;
          bottom = wrapping_add t 1;
        },
      )

  -- `others` is what other threads do to the shared state between the last load and the
  -- compare-exchange.
  unfoldable pub pop : (Inner → Inner) → InlineWorker → Option T × InlineWorker
  pop others w =
      let b = wrapping_sub w.inner.bottom 1 in
      let buf = w.inner.buffer in
      let inner = record w.inner { bottom = b } in
      let t = inner.top in
      let size = wrapping_sub b t in
      if is_negative size
      then (none, record w { inner = record inner { bottom = t } })
      else let bits = load buf b in
        if ltb 0 size
        then (some (from_bits layout bits), record w { inner = perhaps_shrink inner b t })
        else (let (out, inner') = pop_last others inner t bits in
            (out, record w { inner = inner' }))

  -- `InlineStealer::steal`
  unfoldable pub steal : (Inner → Inner) → Inner → Steal T × Inner
  steal others inner =
      let t = inner.top in
      let b = inner.bottom in
      if isize_le (wrapping_sub b t) 0
      then (empty, inner)
      else let bits = load inner.buffer t in
        let left = others inner in
        if compare_exchange left.top t
        then (success (from_bits layout bits), record left { top = wrapping_add t 1 })
        else (retry, left)
