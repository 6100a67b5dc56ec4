-- ===== src/Deque/Push.antt =====
-- `Worker::push` appends at the bottom, on each of its paths: with the cached `top`, with the shared
-- one, and with a buffer that has to grow.
use ws_deque.Base.{
  ℕ, ◌+◌, ◌*◌, ◌^◌, ◌≤◌, ◌<◌, ◌≡◌, ◌⊎◌, inl, inr, refl, sym, ◌∙◌, ap, true, false, some, List, [],
  ◌∷◌, ◌++◌, arith, Bool-cases, length, get_elem?, length-append, length-set, isize_le,
  get_elem?-append_left, get_elem?-append_end, word, wrapping_add, wrapping_sub,
}
use mathlib.Core.Path.{subst}
use native.Mathlib.Decide.{dec_lt}
use ws_deque.Deque.Buffer.{read, write, grow, resized}
use ws_deque.Deque.Inner.{Inner}
use ws_deque.Deque.Worker.{Worker, push, refresh_top, ensure_room, replace_buffer}
use ws_deque.Deque.Pow.{
  IsCapacity, IsCapacity-dvd, IsCapacity-pos, IsCapacity-le, IsCapacity-double,
}
use ws_deque.Deque.Slots.{read-write_self, read-write_ne, cell-ne}
use ws_deque.Deque.Rep.{
  Rep, Owns, bottom-eq, replace_buffer-Rep, bottom-replace_buffer, buffer-replace_buffer,
  cap-resized,
}

module _ {ℓ} {A : Type ℓ} where
  held-append :
      {d : Inner A} {xs : List A} (v : A)
      → Rep d xs
      → length xs + 1 < d.buffer.cap
      → (j : ℕ) → j < length (xs ++ v ∷ [])
      → read (write d.buffer d.bottom (some v)) (wrapping_add d.top j) ≡ get_elem? (xs ++ v ∷ []) j
  held-append {d} {xs} v r lt j h =
      ap (λ b. read (write d.buffer b (some v)) (wrapping_add d.top j)) (bottom-eq r) ∙ cells
    where
      cells :
          read (write d.buffer (wrapping_add d.top (length xs)) (some v)) (wrapping_add d.top j)
          ≡ get_elem? (xs ++ v ∷ []) j
      cells = elim (dec_lt j (length xs)) [
        | yes p ↦
            read-write_ne d.buffer _ _ _ (λ e.
              cell-ne d.buffer d.top j (length xs) (IsCapacity-dvd r.capacity) p (omega arith)
                (sym e))
            ∙ r.held j p
            ∙ sym (get_elem?-append_left xs (v ∷ []) j p)
        | no p ↦
            let e : j ≡ length xs = omega (arith, length-append xs (v ∷ [])) in
            rw e (
              read-write_self d.buffer _ _ (IsCapacity-pos r.capacity) r.storage
              ∙ sym (get_elem?-append_end xs v))
      ]

  -- Writing the cell at `bottom` and advancing `bottom` appends an element.
  append-Rep :
      {d : Inner A} {xs : List A} (v : A)
      → Rep d xs
      → length xs + 1 < d.buffer.cap
      → Rep
          (record d { buffer = write d.buffer d.bottom (some v); bottom = wrapping_add d.bottom 1 })
          (xs ++ v ∷ [])
  append-Rep {d} {xs} v r lt = record {
    capacity = unfold write in r.capacity;
    storage = unfold write in length-set d.buffer.cells _ _ ∙ r.storage;
    bottom_in = omega arith;
    top_in = r.top_in;
    count = omega (
      arith,
      r.count,
      r.bottom_in,
      r.top_in,
      lt,
      IsCapacity-le r.capacity,
      length-append xs (v ∷ []),
    );
    room = unfold write in omega (arith, length-append xs (v ∷ []));
    held = held-append v r lt;
  }

  append-Rep_at :
      {d : Inner A} {xs : List A} (v : A) (b : ℕ)
      → d.bottom ≡ b
      → Rep d xs
      → length xs + 1 < d.buffer.cap
      → Rep
          (record d { buffer = write d.buffer b (some v); bottom = wrapping_add b 1 })
          (xs ++ v ∷ [])
  append-Rep_at {d} {xs} v b e r lt =
      subst
        (λ k.
          Rep (record d { buffer = write d.buffer k (some v); bottom = wrapping_add k 1 })
            (xs ++ v ∷ []))
        e (append-Rep v r lt)

  -- What the size test of `push` finds: the buffer is full and `top` was read, or one cell is left.
  pub record Room (w : Worker A) (xs : List A) : Type ℓ where
    t_in : refresh_top w < word
    behind : length xs ≤ wrapping_sub w.inner.bottom (refresh_top w)
    near : wrapping_sub w.inner.bottom (refresh_top w) < 2 ^ 62
    room :
        (refresh_top w ≡ w.inner.top)
        ⊎ (wrapping_sub w.inner.bottom (refresh_top w) + 1 < w.inner.buffer.cap)

  pub refresh_top-Room : {w : Worker A} {xs : List A} → Owns w xs → Room w xs
  unfolding refresh_top
  refresh_top-Room {w} {xs} o =
      ground (arith, IsCapacity-le o.rep.capacity, IsCapacity-pos o.rep.capacity)

  -- After the size test the buffer has room for one more element than it holds.
  pub record Ready (d e : Inner A) (xs : List A) : Type ℓ where
    rep : Rep e xs
    room : length xs + 1 < e.buffer.cap
    bottom_same : e.bottom ≡ d.bottom

  pub resized-Ready :
      {d : Inner A} {xs : List A} (c : ℕ)
      → Rep d xs
      → IsCapacity c
      → length xs + 1 < c
      → Ready d (replace_buffer d (resized d.buffer c d.bottom d.top)) xs
  resized-Ready {d} {xs} c r p more =
      let lt : length xs < c = omega arith in
      record {
        rep = replace_buffer-Rep r c p lt;
        room = rw (buffer-replace_buffer, cap-resized r c p lt) more;
        bottom_same = bottom-replace_buffer d _;
      }

  -- The two outcomes of the size test: a full buffer, with the shared `top` read, or a free cell.
  pub full-cases :
      {w : Worker A} {xs : List A}
      → Owns w xs
      → let full =
          isize_le
            (wrapping_sub w.inner.buffer.cap 1)
            (wrapping_sub w.inner.bottom (refresh_top w)) in
        ((full ≡ true) × (refresh_top w ≡ w.inner.top) × (w.inner.buffer.cap ≤ length xs + 1))
        ⊎ ((full ≡ false) × Ready w.inner w.inner xs)
  full-cases {w} {xs} o =
      let f : Room w xs = refresh_top-Room o in
      elim (Bool-cases (
        isize_le (wrapping_sub w.inner.buffer.cap 1)
          (wrapping_sub w.inner.bottom (refresh_top w)))) [
            | inl full ↦ elim f.room [
              | inl e ↦ inl (full, e, full_size e full)
              | inr lt ↦ absurd (ground (arith, cap_le, cap_pos))
            ]
            | inr space ↦ inr (
              space,
              record {
                rep = o.rep;
                room = ground (arith, cap_le, cap_pos, f.behind);
                bottom_same = refl;
              },
            )
          ]
    where
      cap_le : w.inner.buffer.cap ≤ 2 ^ 62
      cap_le = IsCapacity-le o.rep.capacity

      cap_pos : 0 < w.inner.buffer.cap
      cap_pos = IsCapacity-pos o.rep.capacity

      full_size :
          refresh_top w ≡ w.inner.top
          → isize_le
              (wrapping_sub w.inner.buffer.cap 1)
              (wrapping_sub w.inner.bottom (refresh_top w))
            ≡ true
          → w.inner.buffer.cap ≤ length xs + 1
      full_size e full =
          let n : wrapping_sub w.inner.bottom (refresh_top w) ≡ length xs =
            ap (λ t. wrapping_sub w.inner.bottom t) e ∙ o.rep.count in
          ground (arith, cap_le, cap_pos)

  ensure_room-Ready :
      {w : Worker A} {xs : List A}
      → Owns w xs
      → length xs < 2 ^ 61
      → Ready w.inner (ensure_room w.inner (refresh_top w)) xs
  unfolding ensure_room grow
  ensure_room-Ready {w} {xs} o small = elim (full-cases o) [
    | inl (full, e, size) ↦
        let pos : 0 < w.inner.buffer.cap = IsCapacity-pos o.rep.capacity in
        let lt : length xs < w.inner.buffer.cap = o.rep.room in
        rw full (
          rw e (
            resized-Ready (w.inner.buffer.cap * 2) o.rep
              (IsCapacity-double o.rep.capacity (omega arith)) (omega arith)))
    | inr (space, ready) ↦ rw space ready
  ]

  -- Writing the element into a buffer that is ready for it appends it.
  pub push_into-Owns :
      {w : Worker A} {xs : List A} (v : A) (e : Inner A)
      → Owns w xs
      → Ready w.inner e xs
      → Owns
          (record w {
            inner = record e {
              buffer = write e.buffer w.inner.bottom (some v);
              bottom = wrapping_add w.inner.bottom 1;
            };
            cached_top = refresh_top w;
          })
          (xs ++ v ∷ [])
  push_into-Owns {w} {xs} v e o ready =
      let f : Room w xs = refresh_top-Room o in
      record {
        rep = append-Rep_at v w.inner.bottom ready.bottom_same ready.rep ready.room;
        cached_in = f.t_in;
        behind = omega (arith, length-append xs (v ∷ []), f.behind, f.near);
        near = omega (arith, f.near);
      }

  -- `push` appends the element, if fewer than `2 ^ 61` are held.
  pub push-Owns :
      {w : Worker A} {xs : List A} (v : A)
      → Owns w xs
      → length xs < 2 ^ 61
      → Owns (push w v) (xs ++ v ∷ [])
  unfolding push
  push-Owns {w} {xs} v o small =
      push_into-Owns v (ensure_room w.inner (refresh_top w)) o (ensure_room-Ready o small)
