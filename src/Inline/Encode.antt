-- ===== src/Inline/Encode.antt =====
-- The inline deque as an encoding of the boxed one: the same indices and the same capacity, with the bits
-- of each value in place of its box. Each step on the buffer commutes with the encoding.
use ws_deque.Base.{
  ℕ, zero, suc, ◌+◌, ◌/◌, ◌%◌, ◌≡◌, refl, sym, ◌∙◌, ap, Bool, ◌&&◌, inl, inr, Bool-cases, Option,
  none, some, List, [], ◌∷◌, map, get_or, set, replicate, ltb, max, max_zero, wrapping_add,
  wrapping_sub,
}
use ws_deque.Deque.Buffer
use ws_deque.Deque.Inner
use ws_deque.Deque.Worker
use ws_deque.Deque.Rep.{bottom-replace_buffer, top-replace_buffer, buffer-replace_buffer}
use ws_deque.Inline.{
  Buffer, alloc, cell, store, load, copy_cells, resized, Inner, InlineWorker, replace_buffer,
  perhaps_shrink, min_capacity, shrink_factor, retire,
}
use ws_deque.Inline.Bits.{Layout, to_bits, from_bits, from_bits-to_bits}

module _ {ℓ} {T : Type ℓ} (layout : Layout T) where
  unfoldable pub encode_cell : Option T → ℕ
  encode_cell none = 0
  encode_cell (some v) = to_bits layout v

  unfoldable pub encode_buffer : Buffer.Buffer T → Buffer
  encode_buffer buf = record { cells = map encode_cell buf.cells; cap = buf.cap }

  -- The retired buffers are forgotten: the boxed deque frees its own earlier.
  unfoldable pub encode_inner : List Buffer → Inner.Inner T → Inner
  encode_inner retired inner = record {
    bottom = inner.bottom;
    top = inner.top;
    buffer = encode_buffer inner.buffer;
    retired = retired;
  }

  unfoldable pub encode : List Buffer → Worker.Worker T → InlineWorker
  encode retired w = record { inner = encode_inner retired w.inner; cached_top = w.cached_top }

  get_or-map :
      (cells : List (Option T)) (i : ℕ)
      → get_or (map encode_cell cells) i 0 ≡ encode_cell (get_or cells i none)
  unfolding encode_cell
  get_or-map [] i = refl
  get_or-map (x ∷ cells) zero = refl
  get_or-map (x ∷ cells) (suc i) = get_or-map cells i

  set-map :
      (cells : List (Option T)) (i : ℕ) (v : Option T)
      → set (map encode_cell cells) i (encode_cell v) ≡ map encode_cell (set cells i v)
  set-map [] i v = refl
  set-map (x ∷ cells) zero v = refl
  set-map (x ∷ cells) (suc i) v = ap (λ l. encode_cell x ∷ l) (set-map cells i v)

  replicate-map : (n : ℕ) → replicate n 0 ≡ map encode_cell (replicate n none)
  unfolding encode_cell
  replicate-map zero = refl
  replicate-map (suc n) = ap (λ l. 0 ∷ l) (replicate-map n)

  pub load-encode :
      (buf : Buffer.Buffer T) (i : ℕ) → load (encode_buffer buf) i ≡ encode_cell (Buffer.read buf i)
  unfolding load cell encode_buffer Buffer.read Buffer.cell
  load-encode buf i = get_or-map buf.cells (i % buf.cap)

  pub store-encode :
      (buf : Buffer.Buffer T) (i : ℕ) (v : Option T)
      → store (encode_buffer buf) i (encode_cell v) ≡ encode_buffer (Buffer.write buf i v)
  unfolding store cell encode_buffer Buffer.write Buffer.cell
  store-encode buf i v =
      ap (λ c. record { cells = c; cap = buf.cap }) (set-map buf.cells (i % buf.cap) v)

  pub alloc-encode : (n : ℕ) → alloc n ≡ encode_buffer (Buffer.alloc n)
  unfolding alloc encode_buffer Buffer.alloc
  alloc-encode n = ap (λ c. record { cells = c; cap = n }) (replicate-map n)

  copy_cells-encode :
      (n k top : ℕ) (src other : Buffer.Buffer T)
      → copy_cells n k top (encode_buffer src) (encode_buffer other)
        ≡ encode_buffer (Buffer.copy_cells n k top src other)
  unfolding copy_cells Buffer.copy_cells
  copy_cells-encode zero k top src other = refl
  copy_cells-encode (suc n) k top src other =
      let i = wrapping_add top k in
      ap (λ v. copy_cells n (k + 1) top (encode_buffer src) (store (encode_buffer other) i v))
        (load-encode src i)
      ∙ ap (copy_cells n (k + 1) top (encode_buffer src)) (store-encode other i (Buffer.read src i))
      ∙ copy_cells-encode n (k + 1) top src (Buffer.write other i (Buffer.read src i))

  pub resized-encode :
      (buf : Buffer.Buffer T) (c bottom top : ℕ)
      → resized (encode_buffer buf) c bottom top ≡ encode_buffer (Buffer.resized buf c bottom top)
  unfolding resized Buffer.resized
  resized-encode buf c bottom top =
      let n = max_zero (wrapping_sub bottom top) in
      ap (copy_cells n 0 top (encode_buffer buf)) (alloc-encode c)
      ∙ copy_cells-encode n 0 top buf (Buffer.alloc c)

  encode_inner-cong :
      (retired : List Buffer) (d : Inner.Inner T) {b t : ℕ} {fresh : Buffer}
      → d.bottom ≡ b
      → d.top ≡ t
      → fresh ≡ encode_buffer d.buffer
      → record { bottom = b; top = t; buffer = fresh; retired = retired } ≡ encode_inner retired d
  unfolding encode_inner
  encode_inner-cong retired d eb et ef i = record {
    bottom = sym eb i;
    top = sym et i;
    buffer = ef i;
    retired = retired;
  }

  pub replace_buffer-encode :
      (retired : List Buffer) (inner : Inner.Inner T) (c bottom top : ℕ)
      → replace_buffer
          (encode_inner retired inner)
          (resized (encode_buffer inner.buffer) c bottom top)
        ≡ encode_inner
            (encode_buffer inner.buffer ∷ retired)
            (Worker.replace_buffer inner (Buffer.resized inner.buffer c bottom top))
  unfolding encode_inner replace_buffer retire
  replace_buffer-encode retired inner c bottom top =
      let fresh = Buffer.resized inner.buffer c bottom top in
      encode_inner-cong (encode_buffer inner.buffer ∷ retired) (Worker.replace_buffer inner fresh)
        (bottom-replace_buffer inner fresh) (top-replace_buffer inner fresh)
        (resized-encode inner.buffer c bottom top
          ∙ ap encode_buffer (sym (buffer-replace_buffer inner fresh)))

  -- The value of a cell that was filled reads back.
  pub from_bits-encode_cell :
      (c : Option T) (v : T) → c ≡ some v → from_bits layout (encode_cell c) ≡ v
  unfolding encode_cell
  from_bits-encode_cell c v e =
      ap (λ o. from_bits layout (encode_cell o)) e ∙ (from_bits-to_bits layout v).1

  pub perhaps_shrink-encode :
      (retired : List Buffer) (inner : Inner.Inner T) (b t : ℕ)
      → (kept : List Buffer) × (perhaps_shrink (encode_inner retired inner) b t
          ≡ encode_inner kept (Worker.perhaps_shrink inner b t))
  unfolding perhaps_shrink Worker.perhaps_shrink encode_inner encode_buffer replace_buffer
  perhaps_shrink-encode retired inner b t = elim (Bool-cases big) [
    | inl e ↦ rw e (
      encode_buffer inner.buffer ∷ retired,
      replace_buffer-encode retired inner (max (inner.buffer.cap / 2) min_capacity) b t,
    )
    | inr e ↦ rw e (retired, refl)
  ]
    where
      big : Bool
      big =
          ltb min_capacity inner.buffer.cap
          && ltb (max_zero (wrapping_sub b t)) (inner.buffer.cap / shrink_factor)
