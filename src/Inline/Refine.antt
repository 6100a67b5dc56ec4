-- ===== src/Inline/Refine.antt =====
-- The inline deque and the boxed one give the same results, call by call, though they free their old
-- buffers at different times and a small inline buffer grows to sixteen cells at once.
use native.Mathlib.Decide.{dec_le}
use ws_deque.Base.{
  ℕ, ◌+◌, ◌*◌, ◌^◌, ◌≤◌, ◌<◌, ◌≡◌, inl, inr, refl, sym, ◌∙◌, ap, true, false, Option, none, some,
  List, [], ◌∷◌, ◌++◌, arith, length, length-append, ltb, ◌==◌, max, is_negative, isize_le,
  wrapping_add, wrapping_sub, word,
}
use mathlib.Core.Path.{subst, ap₂}
use ws_deque.Deque.Buffer
use ws_deque.Deque.Inner
use ws_deque.Deque.Steal
use ws_deque.Deque.Steal.{Steal, empty, success}
use ws_deque.Deque.Worker
use ws_deque.Deque.Worker.{compare_exchange}
use ws_deque.Deque.Pow.{IsCapacity, IsCapacity-le, IsCapacity-pos, IsCapacity-double}
use ws_deque.Deque.Rep.{Rep, Owns}
use ws_deque.Deque.Push.{Ready, full-cases, resized-Ready, push_into-Owns}
use ws_deque.Deque.Take.{
  pop_last-won, pop_lifo-nil, pop_lifo-append, read-last, read-first, Rep-tail, size-pop,
}
use ws_deque.Deque.Spec
use ws_deque.Deque.Spec.{Op, pop_back, pop_front, run_list}
use ws_deque.Deque.Refine.{
  pop_back-cases, length-pop_back, length-pop_front, with_start_index-Owns, run_refines,
}
use ws_deque.Inline.{
  Buffer, store, load, Inner, InlineWorker, with_log_capacity, create_inner, refresh_top,
  ensure_room, replace_buffer, push, pop, pop_last, steal, min_capacity,
}
use ws_deque.Inline.Bits.{Layout, to_bits, from_bits}
use ws_deque.Inline.Encode.{
  encode, encode_inner, encode_buffer, encode_cell, alloc-encode, load-encode, store-encode,
  replace_buffer-encode, perhaps_shrink-encode, from_bits-encode_cell,
}

abbrev with_inner : Inner → ℕ → InlineWorker
with_inner inner t = record { inner = inner; cached_top = t }

-- The state that the owner's pop of the last value leaves.
abbrev emptied : Inner → Inner
emptied inner = record inner { top = wrapping_add inner.top 1; bottom = wrapping_add inner.top 1 }

-- The state that `push` leaves.
abbrev pushed : Inner → Buffer → ℕ → ℕ → InlineWorker
pushed inner buf b t = record {
  inner = record inner { buffer = buf; bottom = wrapping_add b 1 };
  cached_top = t;
}

module _ {ℓ} {T : Type ℓ} (layout : Layout T) where
  -- The inline deque holds the values `xs`: it encodes a boxed deque that does.
  abbrev pub Holds : InlineWorker → List T → Type ℓ
  Holds w xs =
      (d : Worker.Worker T) × (retired : List Buffer) × Owns d xs × (w ≡ encode layout retired d)

  grown-IsCapacity : {c : ℕ} → IsCapacity c → c ≤ 2 ^ 61 → IsCapacity (max (c * 2) min_capacity)
  grown-IsCapacity {c} p small = elim (dec_le 16 (c * 2)) [
    | yes h ↦ let e : max (c * 2) 16 ≡ c * 2 = omega arith in rw e (IsCapacity-double p small)
    | no h ↦ let e : max (c * 2) 16 ≡ 16 = omega arith in rw e (4, refl, omega arith)
  ]

  -- The size test of `push` and the growth after it, on the encoding.
  ensure_room-encode :
      (d : Worker.Worker T) (retired : List Buffer) (xs : List T)
      → Owns d xs
      → length xs < 2 ^ 61
      → (i : Inner.Inner T) × (kept : List Buffer) × Ready d.inner i xs
        × (ensure_room (encode_inner layout retired d.inner) (Worker.refresh_top d)
            ≡ encode_inner layout kept i)
  unfolding ensure_room encode_inner encode_buffer replace_buffer
  ensure_room-encode d retired xs o small = elim (full-cases o) [
    | inl (full, e, size) ↦
        let c = max (d.inner.buffer.cap * 2) min_capacity in
        let pos : 0 < d.inner.buffer.cap = IsCapacity-pos o.rep.capacity in
        let lt : length xs < d.inner.buffer.cap = o.rep.room in
        (
          Worker.replace_buffer d.inner
              (Buffer.resized d.inner.buffer c d.inner.bottom d.inner.top),
          encode_buffer layout d.inner.buffer ∷ retired,
          resized-Ready c o.rep (grown-IsCapacity o.rep.capacity (omega arith)) (omega arith),
          rw (full, e) (replace_buffer-encode layout retired d.inner c d.inner.bottom d.inner.top),
        )
    | inr (space, ready) ↦ (d.inner, retired, ready, rw space refl)
  ]

  push-encode :
      (d : Worker.Worker T) (retired kept : List Buffer) (i : Inner.Inner T) (v : T)
      → ensure_room (encode_inner layout retired d.inner) (Worker.refresh_top d)
        ≡ encode_inner layout kept i
      → push layout (encode layout retired d) v
        ≡ encode layout kept (record d {
          inner = record i {
            buffer = Buffer.write i.buffer d.inner.bottom (some v);
            bottom = wrapping_add d.inner.bottom 1;
          };
          cached_top = Worker.refresh_top d;
        })
  unfolding push encode encode_inner encode_buffer encode_cell refresh_top Worker.refresh_top
  push-encode d retired kept i v q =
      let b = d.inner.bottom in
      let t = Worker.refresh_top d in
      ap (λ n. pushed n (store n.buffer b (to_bits layout v)) b t) q
      ∙ ap (λ buf. pushed (encode_inner layout kept i) buf b t)
          (store-encode layout i.buffer b (some v))

  push-Holds :
      {w : InlineWorker} (xs : List T) (v : T)
      → Holds w xs
      → length xs < 2 ^ 61
      → Holds (push layout w v) (xs ++ v ∷ [])
  push-Holds {w} xs v (d, retired, o, e) small =
      let (i, kept, ready, q) = ensure_room-encode d retired xs o small in
      (
        record d {
          inner = record i {
            buffer = Buffer.write i.buffer d.inner.bottom (some v);
            bottom = wrapping_add d.inner.bottom 1;
          };
          cached_top = Worker.refresh_top d;
        },
        kept,
        push_into-Owns v i o ready,
        ap (λ u. push layout u v) e ∙ push-encode d retired kept i v q,
      )

  from_bits-load :
      (buf : Buffer.Buffer T) (i : ℕ) (v : T)
      → Buffer.read buf i ≡ some v
      → from_bits layout (load (encode_buffer layout buf) i) ≡ v
  from_bits-load buf i v e =
      ap (from_bits layout) (load-encode layout buf i)
      ∙ from_bits-encode_cell layout (Buffer.read buf i) v e

  -- The compare-exchange for the last element wins if no other thread moves `top`.
  inline_last-won :
      (d : Inner) (t bits : ℕ)
      → d.top ≡ t
      → pop_last layout (λ i. i) d t bits ≡ (
        some (from_bits layout bits),
        record d { top = wrapping_add t 1; bottom = wrapping_add t 1 },
      )
  unfolding pop_last
  inline_last-won d t bits e = ground arith

  -- A pop of the newest value, seen as the boxed deque's.
  pop-encode :
      (d : Worker.Worker T) (retired : List Buffer) (ys : List T) (y : T)
      → Owns d (ys ++ y ∷ [])
      → (kept : List Buffer) × (pop layout (λ i. i) (encode layout retired d)
          ≡ (some y, encode layout kept (Worker.pop_lifo (λ i. i) d).1))
  unfolding pop encode encode_inner Worker.pop_lifo
  pop-encode d retired [] y o =
      let s = size-pop [] y o in
      let b = wrapping_sub d.inner.bottom 1 in
      let t = d.inner.top in
      let neg : is_negative (wrapping_sub b t) ≡ false = ground (arith, s) in
      let last : ltb 0 (wrapping_sub b t) ≡ false = ground (arith, s) in
      let zero_left : (wrapping_sub b t == 0) ≡ true = ground (arith, s) in
      let boxed =
        pop_last-won (record d.inner { bottom = b }) t (Buffer.read d.inner.buffer b) refl in
      let packed =
        inline_last-won (record (encode_inner layout retired d.inner) { bottom = b }) t
          (load (encode_buffer layout d.inner.buffer) b) refl in
      rw (neg, last, zero_left, boxed, packed)
        (
          retired,
          ap
              (λ v.
                (some v, with_inner (emptied (encode_inner layout retired d.inner)) d.cached_top))
              (from_bits-load d.inner.buffer b y (read-last [] y o.rep)),
        )
  pop-encode d retired (x ∷ ys) y o =
      let s = size-pop (x ∷ ys) y o in
      let b = wrapping_sub d.inner.bottom 1 in
      let t = d.inner.top in
      let neg : is_negative (wrapping_sub b t) ≡ false = ground (arith, s) in
      let more : ltb 0 (wrapping_sub b t) ≡ true = ground (arith, s) in
      let more_left : (wrapping_sub b t == 0) ≡ false = ground (arith, s) in
      let (kept, q) = perhaps_shrink-encode layout retired (record d.inner { bottom = b }) b t in
      rw (neg, more, more_left)
        (
          kept,
          ap₂ (λ v n. (some v, with_inner n d.cached_top))
              (from_bits-load d.inner.buffer b y (read-last (x ∷ ys) y o.rep)) q,
        )

  pop-encode_nil :
      (d : Worker.Worker T) (retired : List Buffer)
      → Owns d []
      → pop layout (λ i. i) (encode layout retired d)
        ≡ (none, encode layout retired (Worker.pop_lifo (λ i. i) d).1)
  unfolding pop encode encode_inner Worker.pop_lifo
  pop-encode_nil d retired o =
      let neg : is_negative (wrapping_sub (wrapping_sub d.inner.bottom 1) d.inner.top) ≡ true =
        ground (arith, o.rep.count, o.rep.bottom_in, o.rep.top_in) in
      rw neg refl

  -- The owner's pop takes the newest value.
  pop-Holds :
      {w : InlineWorker} (xs : List T)
      → Holds w xs
      → ((pop layout (λ i. i) w).0 ≡ (pop_back xs).0)
        × Holds (pop layout (λ i. i) w).1 (pop_back xs).1
  unfolding pop_back
  pop-Holds {w} xs (d, retired, o, e) = elim (pop_back-cases xs) [
    | inl n ↦
        let o' : Owns d [] = subst (λ l. Owns d l) n o in
        let q = ap (λ u. pop layout (λ i. i) u) e ∙ pop-encode_nil d retired o' in
        rw (n, q)
          (refl, ((Worker.pop_lifo (λ i. i) d).1, retired, (pop_lifo-nil (λ i. i) o').1, refl))
    | inr (ys, y, n, f) ↦
        let o' : Owns d (ys ++ y ∷ []) = subst (λ l. Owns d l) n o in
        let (kept, p) = pop-encode d retired ys y o' in
        let q = ap (λ u. pop layout (λ i. i) u) e ∙ p in
        rw (f, q) (refl, ((Worker.pop_lifo (λ i. i) d).1, kept, (pop_lifo-append ys y o').1, refl))
  ]

  steal-encode :
      (d : Worker.Worker T) (retired : List Buffer) (x : T) (xs : List T)
      → Rep d.inner (x ∷ xs)
      → steal layout (λ i. i) (encode_inner layout retired d.inner) ≡ (
        success x,
        encode_inner layout retired (record d.inner { top = wrapping_add d.inner.top 1 }),
      )
  unfolding steal encode_inner
  steal-encode d retired x xs r =
      let more : isize_le (wrapping_sub d.inner.bottom d.inner.top) 0 ≡ false =
        ground (arith, r.count, r.room, IsCapacity-le r.capacity) in
      let same : compare_exchange d.inner.top d.inner.top ≡ true = ground arith in
      rw (more, same)
        (ap
          (λ v. (
            success v,
            encode_inner layout retired (record d.inner { top = wrapping_add d.inner.top 1 }),
          ))
          (from_bits-load d.inner.buffer d.inner.top x (read-first r)))

  steal-encode_nil :
      (d : Worker.Worker T) (retired : List Buffer)
      → Rep d.inner []
      → steal layout (λ i. i) (encode_inner layout retired d.inner)
        ≡ (empty, encode_inner layout retired d.inner)
  unfolding steal encode_inner
  steal-encode_nil d retired r = ground (arith, r.count)

  -- A thief's call, seen as a call of the deque.
  unfoldable pub steal_call : InlineWorker → Option T × InlineWorker
  steal_call w =
      let (r, inner) = steal layout (λ i. i) w.inner in (Steal.value r, record w { inner = inner })

  -- A steal takes the oldest value.
  steal-Holds :
      {w : InlineWorker} (xs : List T)
      → Holds w xs
      → ((steal_call w).0 ≡ (pop_front xs).0) × Holds (steal_call w).1 (pop_front xs).1
  unfolding pop_front steal_call Steal.value encode
  steal-Holds {w} [] (d, retired, o, e) =
      let q =
        ap (λ (u : InlineWorker). steal layout (λ i. i) u.inner) e
        ∙ steal-encode_nil d retired o.rep in
      rw q (
        refl,
        (
          d,
          retired,
          o,
          ap (λ (u : InlineWorker). with_inner (encode_inner layout retired d.inner) u.cached_top)
              e,
        ),
      )
  steal-Holds {w} (x ∷ xs) (d, retired, o, e) =
      let q =
        ap (λ (u : InlineWorker). steal layout (λ i. i) u.inner) e
        ∙ steal-encode d retired x xs o.rep in
      rw q (
        refl,
        (
          record d { inner = record d.inner { top = wrapping_add d.inner.top 1 } },
          retired,
          record {
            rep = Rep-tail o.rep;
            cached_in = o.cached_in;
            behind = omega (arith, o.behind);
            near = o.near;
          },
          ap
              (λ (u : InlineWorker).
                with_inner
                  (encode_inner layout retired
                    (record d.inner { top = wrapping_add d.inner.top 1 }))
                  u.cached_top)
              e,
        ),
      )

  -- The calls on the inline deque, one after another.
  unfoldable pub run_inline : InlineWorker → List (Op T) → List (Option T)
  run_inline w [] = []
  run_inline w (Op.push v ∷ ops) = none ∷ run_inline (push layout w v) ops
  run_inline w (Op.pop ∷ ops) = let (out, w') = pop layout (λ i. i) w in out ∷ run_inline w' ops
  run_inline w (Op.steal ∷ ops) = let (out, w') = steal_call w in out ∷ run_inline w' ops

  -- The inline deque behaves as the list of its values.
  run_inline-list :
      (ops : List (Op T)) {w : InlineWorker} (xs : List T)
      → Holds w xs
      → length xs + length ops ≤ 2 ^ 61
      → run_inline w ops ≡ run_list false xs ops
  unfolding run_inline run_list
  run_inline-list [] xs h small = refl
  run_inline-list (Op.push v ∷ ops) {w} xs h small =
      ap (λ l. none ∷ l)
        (run_inline-list ops (xs ++ v ∷ []) (push-Holds xs v h (omega arith))
          (omega (arith, length-append xs (v ∷ []))))
  run_inline-list (Op.pop ∷ ops) {w} xs h small =
      let (out, kept) = pop-Holds xs h in
      ap₂ ◌∷◌ out (run_inline-list ops (pop_back xs).1 kept (omega (arith, length-pop_back xs)))
  run_inline-list (Op.steal ∷ ops) {w} xs h small =
      let (out, kept) = steal-Holds xs h in
      ap₂ ◌∷◌ out (run_inline-list ops (pop_front xs).1 kept (omega (arith, length-pop_front xs)))

  with_log_capacity-Holds : (k : ℕ) → k ≤ 62 → Holds (with_log_capacity k) []
  unfolding with_log_capacity create_inner encode encode_inner Worker.with_start_index
  with_log_capacity-Holds k small = (
    Worker.with_start_index k 0,
    [],
    with_start_index-Owns k 0 small (omega arith),
    ap (λ b. with_inner (record { bottom = 0; top = 0; buffer = b; retired = [] }) 0)
        (alloc-encode layout (2 ^ k)),
  )

  -- A new inline deque and a new boxed one, of any initial capacities, give the same results to any
  -- `2 ^ 61` calls at most: pushes, owner's pops and steals, one after another.
  pub run_inline-boxed :
      (k k' start : ℕ) (ops : List (Op T))
      → k ≤ 62
      → k' ≤ 62
      → start < word
      → length ops ≤ 2 ^ 61
      → run_inline (with_log_capacity k) ops ≡ Spec.run (Worker.with_start_index k' start) ops
  unfolding Worker.with_start_index
  run_inline-boxed k k' start ops small small' h bound =
      run_inline-list ops [] (with_log_capacity-Holds k small) (omega arith)
      ∙ sym (run_refines ops [] (with_start_index-Owns k' start small' h) (omega arith))
