-- ===== src/Deque/Rep.antt =====
-- The queue that a deque stands for: the elements from `top` to `bottom`, oldest first.
use ws_deque.Base.{
  ℕ, ◌^◌, ◌≤◌, ◌<◌, ◌≡◌, refl, ◌∙◌, ap, none, List, arith, length, get_elem?, length-replicate,
  word, wrapping_add, wrapping_sub, max_zero,
}
use ws_deque.Deque.Buffer.{Buffer, alloc, read, copy_cells, resized}
use ws_deque.Deque.Inner.{Inner}
use ws_deque.Deque.Worker.{Worker, replace_buffer}
use ws_deque.Deque.Pow.{IsCapacity, IsCapacity-dvd, IsCapacity-pos, IsCapacity-le}
use ws_deque.Deque.Slots.{cap-copy_cells, length-copy_cells, read-copy_cells}

-- The shared state holds the elements `xs`.
pub record Rep {ℓ} {A : Type ℓ} (d : Inner A) (xs : List A) : Type ℓ where
  pub capacity : IsCapacity d.buffer.cap
  pub storage : length d.buffer.cells ≡ d.buffer.cap
  pub bottom_in : d.bottom < word
  pub top_in : d.top < word
  pub count : wrapping_sub d.bottom d.top ≡ length xs
  pub room : length xs < d.buffer.cap
  pub held : (j : ℕ) → j < length xs → read d.buffer (wrapping_add d.top j) ≡ get_elem? xs j

-- The owner's cached `top` lies at or before the shared one, and not too far back.
pub record Owns {ℓ} {A : Type ℓ} (w : Worker A) (xs : List A) : Type ℓ where
  pub rep : Rep w.inner xs
  pub cached_in : w.cached_top < word
  pub behind : length xs ≤ wrapping_sub w.inner.bottom w.cached_top
  pub near : wrapping_sub w.inner.bottom w.cached_top ≤ 2 ^ 62

module _ {ℓ} {A : Type ℓ} (d : Inner A) (buf : Buffer A) where
  pub buffer-replace_buffer : (replace_buffer d buf).buffer ≡ buf
  unfolding replace_buffer
  buffer-replace_buffer = ground arith

  pub top-replace_buffer : (replace_buffer d buf).top ≡ d.top
  unfolding replace_buffer
  top-replace_buffer = ground arith

  pub bottom-replace_buffer : (replace_buffer d buf).bottom ≡ d.bottom
  unfolding replace_buffer
  bottom-replace_buffer = ground arith

module _ {ℓ} {A : Type ℓ} {d : Inner A} {xs : List A} (r : Rep d xs) where
  -- The copy loop runs once for each element.
  pub max_zero-count : max_zero (wrapping_sub d.bottom d.top) ≡ length xs
  max_zero-count = ground (arith, r.count, r.room, IsCapacity-le r.capacity)

  pub bottom-eq : d.bottom ≡ wrapping_add d.top (length xs)
  bottom-eq = omega (arith, r.count, r.bottom_in, r.top_in, r.room, IsCapacity-le r.capacity)

  -- A state with the same indices, whose buffer has the same live cells, holds the same elements.
  pub Rep-moved :
      (d' : Inner A)
      → d'.bottom ≡ d.bottom
      → d'.top ≡ d.top
      → IsCapacity d'.buffer.cap
      → length d'.buffer.cells ≡ d'.buffer.cap
      → length xs < d'.buffer.cap
      → ((j : ℕ)
          → j < length xs
          → read d'.buffer (wrapping_add d.top j) ≡ read d.buffer (wrapping_add d.top j))
      → Rep d' xs
  Rep-moved d' eb et p e lt same = record {
    capacity = p;
    storage = e;
    bottom_in = rw eb r.bottom_in;
    top_in = rw et r.top_in;
    count = rw (eb, et) r.count;
    room = lt;
    held = λ j h. ap (λ t. read d'.buffer (wrapping_add t j)) et ∙ same j h ∙ r.held j h;
  }

  module _ (c : ℕ) (p : IsCapacity c) (lt : length xs < c) where
    resized-copied :
        resized d.buffer c d.bottom d.top ≡ copy_cells (length xs) 0 d.top d.buffer (alloc c)
    unfolding resized
    resized-copied = ap (λ n. copy_cells n 0 d.top d.buffer (alloc c)) max_zero-count

    pub cap-resized : (resized d.buffer c d.bottom d.top).cap ≡ c
    cap-resized =
        ap (λ (b : Buffer A). b.cap) resized-copied
        ∙ cap-copy_cells d.top d.buffer (length xs) 0 (alloc c)
        ∙ unfold alloc in refl

    length-resized : length (resized d.buffer c d.bottom d.top).cells ≡ c
    length-resized =
        ap (λ (b : Buffer A). length b.cells) resized-copied
        ∙ length-copy_cells d.top d.buffer (length xs) 0 (alloc c)
        ∙ unfold alloc in length-replicate c none

    read-resized :
        (j : ℕ)
        → j < length xs
        → read (resized d.buffer c d.bottom d.top) (wrapping_add d.top j)
          ≡ read d.buffer (wrapping_add d.top j)
    read-resized j h =
        ap (λ b. read b (wrapping_add d.top j)) resized-copied
        ∙ read-copy_cells d.top d.buffer (length xs) 0 j (alloc c)
            (unfold alloc in IsCapacity-dvd p) (unfold alloc in IsCapacity-pos p)
            (unfold alloc in length-replicate c none) (unfold alloc in omega arith) (omega arith)
            (omega arith)

  -- Moving to a buffer of another capacity keeps every element, in order.
  pub replace_buffer-Rep :
      (c : ℕ)
      → IsCapacity c
      → length xs < c
      → Rep (replace_buffer d (resized d.buffer c d.bottom d.top)) xs
  replace_buffer-Rep c p lt =
      let buf : Buffer A = resized d.buffer c d.bottom d.top in
      let d' : Inner A = replace_buffer d buf in
      let eb : d'.buffer ≡ buf = buffer-replace_buffer d buf in
      Rep-moved d' (bottom-replace_buffer d buf) (top-replace_buffer d buf)
        (rw (eb, cap-resized c p lt) p) (rw (eb, cap-resized c p lt) (length-resized c p lt))
        (rw (eb, cap-resized c p lt) lt)
        (λ j h. ap (λ b. read b (wrapping_add d.top j)) eb ∙ read-resized c p lt j h)
