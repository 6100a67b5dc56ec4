-- ===== src/Deque/Worker.antt =====
-- src/lib.rs, `Worker` and `steal_from`: the owner's operations, and the top-steal that the owner's
-- FIFO pop shares with the thieves. `others` is what other threads do to the shared state between the
-- last load and the compare-exchange; without interference it is the identity.
use ws_deque.Base.{
  ℕ, ◌/◌, max, Bool, true, false, ◌&&◌, Option, none, some, if◌then◌else◌, ◌==◌, ltb, is_negative,
  isize_le, max_zero, wrapping_add, wrapping_sub,
}
use ws_deque.Deque.Buffer
use ws_deque.Deque.Buffer.{Buffer}
use ws_deque.Deque.Inner
use ws_deque.Deque.Inner.{Inner}

abbrev pub min_capacity : ℕ
min_capacity = 16

abbrev pub shrink_factor : ℕ
shrink_factor = 3

-- Whether `compare_exchange(expected, _)` wins on a cell that holds `current`.
abbrev pub compare_exchange : ℕ → ℕ → Bool
compare_exchange current expected = current == expected

pub record Worker {ℓ} (A : Type ℓ) : Type ℓ where
  pub inner : Inner A
  pub fifo : Bool
  pub cached_top : ℕ

module _ {ℓ} {A : Type ℓ} where
  unfoldable pub with_log_capacity : ℕ → Worker A
  unfolding Inner.create
  with_log_capacity log_initial_cap = record {
    inner = Inner.create log_initial_cap;
    fifo = false;
    cached_top = 0;
  }

  -- `Worker::new`
  unfoldable pub create : Worker A
  unfolding with_log_capacity
  create = with_log_capacity 5

  unfoldable pub new_fifo : Worker A
  unfolding with_log_capacity
  new_fifo = record (with_log_capacity 5) { fifo = true }

  -- The constructor of the tests that seeds both indices.
  unfoldable pub with_start_index : ℕ → ℕ → Worker A
  unfolding with_log_capacity
  with_start_index log_initial_cap start =
      let w = with_log_capacity log_initial_cap in
      record w { inner = record w.inner { top = start; bottom = start }; cached_top = start }

  unfoldable pub len : Worker A → ℕ
  len w = max_zero (wrapping_sub w.inner.bottom w.inner.top)

  unfoldable pub is_empty : Worker A → Bool
  unfolding len
  is_empty w = len w == 0

  unfoldable pub capacity : Worker A → ℕ
  capacity w = w.inner.buffer.cap

  -- Install a buffer, retire the old one, and reclaim what no thief can hold.
  unfoldable pub replace_buffer : Inner A → Buffer A → Inner A
  unfolding Inner.retire Inner.try_reclaim
  replace_buffer inner fresh =
      Inner.try_reclaim (Inner.retire (record inner { buffer = fresh }) inner.buffer)

  -- `bottom` and `top` are the values that `pop` has read.
  unfoldable pub perhaps_shrink : Inner A → ℕ → ℕ → Inner A
  unfolding replace_buffer Buffer.resized
  perhaps_shrink inner bottom top =
      let cap = inner.buffer.cap in
      let size = max_zero (wrapping_sub bottom top) in
      if ltb min_capacity cap && ltb size (cap / shrink_factor)
      then replace_buffer inner
          (Buffer.resized inner.buffer (max (cap / 2) min_capacity) bottom top)
      else inner

  -- The lower bound of `top` that `push` uses: the cached one, or the shared `top` if the buffer might
  -- be full.
  unfoldable pub refresh_top : Worker A → ℕ
  refresh_top w =
      if isize_le (wrapping_sub w.inner.buffer.cap 1) (wrapping_sub w.inner.bottom w.cached_top)
      then w.inner.top
      else w.cached_top

  unfoldable pub ensure_room : Inner A → ℕ → Inner A
  unfolding replace_buffer Buffer.grow
  ensure_room inner t =
      if isize_le (wrapping_sub inner.buffer.cap 1) (wrapping_sub inner.bottom t)
      then replace_buffer inner (Buffer.grow inner.buffer inner.bottom t)
      else inner

  unfoldable pub push : Worker A → A → Worker A
  push w value =
      let b = w.inner.bottom in
      let t = refresh_top w in
      let inner = ensure_room w.inner t in
      record w {
        inner = record inner {
          buffer = Buffer.write inner.buffer b (some value);
          bottom = wrapping_add b 1;
        };
        cached_top = t;
      }

  -- The last element: race the thieves for it.
  unfoldable pub pop_last : (Inner A → Inner A) → Inner A → ℕ → Option A → Option A × Inner A
  pop_last others inner t boxed =
      let inner' = others inner in
      let won = compare_exchange inner'.top t in
      (
        if won then boxed else none,
        record inner' {
          top = if won then wrapping_add t 1 else inner'.top;
          bottom = wrapping_add t 1;
        },
      )

  unfoldable pub pop_lifo : (Inner A → Inner A) → Worker A → Option A × Worker A
  pop_lifo others w =
      let b = wrapping_sub w.inner.bottom 1 in
      let buf = w.inner.buffer in
      let inner = record w.inner { bottom = b } in
      let t = inner.top in
      let size = wrapping_sub b t in
      if is_negative size
      then (none, record w { inner = record inner { bottom = t } })
      else let boxed = Buffer.read buf b in
        if size == 0
        then (let (out, inner') = pop_last others inner t boxed in
            (out, record w { inner = inner' }))
        else (boxed, record w { inner = perhaps_shrink inner b t })
