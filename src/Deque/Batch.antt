-- ===== src/Deque/Batch.antt =====
-- The batch steals move a prefix of the victim's elements into the thief's own deque, in order;
-- dropping a deque frees what it holds; and a deque that no thief is in keeps no retired buffer.
use mathlib.Core.Path.{subst}
use ws_deque.Base.{
  ℕ, zero, suc, ◌+◌, ◌-◌, ◌/◌, ◌^◌, ◌≤◌, ◌<◌, ◌≡◌, ◌≢◌, refl, sym, ◌∙◌, ap, false, some, List, [],
  ◌∷◌, ◌++◌, append-nil, append_assoc, arith, length, length-append, take, drop, get_elem?,
  wrapping_add,
}
use ws_deque.Deque.Buffer.{Buffer, read}
use ws_deque.Deque.Inner.{Inner, drop_inner, drop_cells}
use ws_deque.Deque.Steal.{success}
use ws_deque.Deque.Worker.{
  Worker, push, pop_lifo, pop_last, perhaps_shrink, ensure_room, replace_buffer,
}
use ws_deque.Deque.Stealer.{
  steal_from, take_more, move_batch, batch_size, stealer_is_empty, steal_batch, steal_batch_and_pop,
}
use ws_deque.Deque.Pow.{IsCapacity-le}
use ws_deque.Deque.Rep.{Rep, Owns, max_zero-count}
use ws_deque.Deque.Push.{push-Owns}
use ws_deque.Deque.Take.{steal_from-cons, Rep-tail}

module _ {ℓ} {A : Type ℓ} where
  -- What a batch leaves: the victim without its first `n` elements, the thief with them at its end.
  abbrev pub Moved : ℕ → List A → List A → Inner A → Worker A → Type ℓ
  Moved n xs ds victim dest = Rep victim (drop n xs) × Owns dest (ds ++ take n xs)

  Owns-cong : {w : Worker A} {xs ys : List A} → xs ≡ ys → Owns w xs → Owns w ys
  Owns-cong {w} e o = subst (λ l. Owns w l) e o

  append-one : (ds ys : List A) (x : A) → (ds ++ x ∷ []) ++ ys ≡ ds ++ x ∷ ys
  append-one ds ys x = append_assoc ds (x ∷ []) ys

  -- One round of each loop, after a steal that succeeds.
  module _ (victim rest : Inner A) {x : A} (stolen : steal_from (λ i. i) victim ≡ (success x, rest))
      (dest : Worker A) where
    take_more-suc : (n : ℕ) → take_more (suc n) victim dest ≡ take_more n rest (push dest x)
    unfolding take_more
    take_more-suc n = ground arith

    move_batch-suc :
        (n k : ℕ) → move_batch (suc n) k victim dest ≡ move_batch n (k + 1) rest (push dest x)
    unfolding move_batch
    move_batch-suc n k = ground arith

    steal_batch_and_pop-success :
        stealer_is_empty victim ≡ false
        → steal_batch_and_pop victim dest ≡ (
            let (rest', dest') = take_more (batch_size victim - 1) rest dest in
            (success x, rest', dest'))
    unfolding steal_batch_and_pop
    steal_batch_and_pop-success h = ground arith

  take_more-Moved :
      (n : ℕ) (xs ds : List A) {victim : Inner A} {dest : Worker A}
      → n ≤ length xs
      → length ds + n ≤ 2 ^ 61
      → Rep victim xs
      → Owns dest ds
      → Moved n xs ds (take_more n victim dest).0 (take_more n victim dest).1
  unfolding take_more
  take_more-Moved zero xs ds le small r o = (r, Owns-cong (sym (append-nil ds)) o)
  take_more-Moved (suc n) [] ds le small r o = absurd (omega arith)
  take_more-Moved (suc n) (x ∷ xs) ds {victim} {dest} le small r o =
      let e = steal_from-cons r in
      let r' = Rep-tail r in
      let m =
        take_more-Moved n xs (ds ++ x ∷ []) (omega arith) (omega (arith, length-append ds (x ∷ [])))
          r' (push-Owns x o (omega arith)) in
      rw (take_more-suc victim _ e dest n) (m.0, Owns-cong (append-one ds (take n xs) x) m.1)

  -- The victim's size, as the batch steals compute it.
  batch_size-length : {d : Inner A} {xs : List A} → Rep d xs → batch_size d ≡ (length xs + 1) / 2
  unfolding batch_size
  batch_size-length r = omega (arith, r.count)

  not_empty : {d : Inner A} {x : A} {xs : List A} → Rep d (x ∷ xs) → stealer_is_empty d ≡ false
  unfolding stealer_is_empty
  not_empty r = ground (arith, r.count, r.room, IsCapacity-le r.capacity)

  -- `steal_batch_and_pop` returns the oldest element, and moves the next half of what is left to the
  -- thief's own deque, in order; the victim keeps the rest.
  pub steal_batch_and_pop-Moved :
      (x : A) (xs ds : List A) {victim : Inner A} {dest : Worker A}
      → Rep victim (x ∷ xs)
      → Owns dest ds
      → length ds + length xs ≤ 2 ^ 61
      → let (r, victim', dest') = steal_batch_and_pop victim dest in
        (r ≡ success x) × Moved (length xs / 2) xs ds victim' dest'
  unfolding steal_batch_and_pop
  steal_batch_and_pop-Moved x xs ds {victim} {dest} r o small =
      let e = steal_from-cons r in
      let r' = Rep-tail r in
      let n : batch_size victim - 1 ≡ length xs / 2 = omega (arith, batch_size-length r) in
      rw (steal_batch_and_pop-success victim _ e dest (not_empty r))
        (refl, rw n (take_more-Moved (length xs / 2) xs ds (omega arith) (omega arith) r' o))

  -- The loop of `steal_batch` moves `n` elements and never stops early.
  move_batch-Moved :
      (n k : ℕ) (xs ds : List A) {victim : Inner A} {dest : Worker A}
      → n ≤ length xs
      → length ds + n ≤ 2 ^ 61
      → Rep victim xs
      → Owns dest ds
      → let (contended, moved, victim', dest') = move_batch n k victim dest in
        (contended ≡ false) × (moved ≡ k + n) × Moved n xs ds victim' dest'
  unfolding move_batch
  move_batch-Moved zero k xs ds le small r o =
      (refl, omega arith, (r, Owns-cong (sym (append-nil ds)) o))
  move_batch-Moved (suc n) k [] ds le small r o = absurd (omega arith)
  move_batch-Moved (suc n) k (x ∷ xs) ds {victim} {dest} le small r o =
      let e = steal_from-cons r in
      let r' = Rep-tail r in
      let (c, m, rest) =
        move_batch-Moved n (k + 1) xs (ds ++ x ∷ []) (omega arith)
          (omega (arith, length-append ds (x ∷ []))) r' (push-Owns x o (omega arith)) in
      rw (move_batch-suc victim _ e dest n k)
        (c, omega (arith, m), (rest.0, Owns-cong (append-one ds (take n xs) x) rest.1))

  -- `steal_batch` moves the older half of the victim's elements, rounded up.
  pub steal_batch-Moved :
      (x : A) (xs ds : List A) {victim : Inner A} {dest : Worker A}
      → Rep victim (x ∷ xs)
      → Owns dest ds
      → length ds + length xs < 2 ^ 61
      → let (r, victim', dest') = steal_batch victim dest in
        (r ≡ success tt) × Moved ((length xs + 2) / 2) (x ∷ xs) ds victim' dest'
  unfolding steal_batch
  steal_batch-Moved x xs ds {victim} {dest} r o small =
      let n : batch_size victim ≡ (length xs + 2) / 2 = omega (arith, batch_size-length r) in
      let (c, m, rest) =
        move_batch-Moved ((length xs + 2) / 2) 0 (x ∷ xs) ds (omega arith) (omega arith) r o in
      rw (not_empty r, n, c, m) (ground arith, rest)

  drop_cells-some :
      (n k top : ℕ) (buf : Buffer A) (x : A)
      → read buf (wrapping_add top k) ≡ some x
      → drop_cells (suc n) k top buf ≡ x ∷ drop_cells n (k + 1) top buf
  unfolding drop_cells
  drop_cells-some n k top buf x e = ground arith

  drop_cells-held :
      (n k : ℕ) (top : ℕ) (buf : Buffer A) (xs : List A)
      → length xs ≡ n
      → ((j : ℕ) → j < n → read buf (wrapping_add top (k + j)) ≡ get_elem? xs j)
      → drop_cells n k top buf ≡ xs
  unfolding drop_cells
  drop_cells-held zero k top buf [] e held = refl
  drop_cells-held zero k top buf (x ∷ xs) e held = absurd (omega arith)
  drop_cells-held (suc n) k top buf [] e held = absurd (omega arith)
  drop_cells-held (suc n) k top buf (x ∷ xs) e held =
      let k0 : k ≡ k + 0 = omega arith in
      let first : read buf (wrapping_add top k) ≡ some x =
        ap (λ i. read buf (wrapping_add top i)) k0 ∙ held 0 (omega arith) in
      drop_cells-some n k top buf x first
      ∙ (ap (λ l. x ∷ l)
          (drop_cells-held n (k + 1) top buf xs (omega arith) (λ j h.
            let s : k + 1 + j ≡ k + suc j = omega arith in
            ap (λ i. read buf (wrapping_add top i)) s ∙ held (suc j) (omega arith))))

  -- Dropping a deque frees exactly the elements that it holds, each once.
  pub drop_inner-Rep : {d : Inner A} {xs : List A} → Rep d xs → drop_inner d ≡ xs
  unfolding drop_inner
  drop_inner-Rep {d} {xs} r =
      ap (λ n. drop_cells n 0 d.top d.buffer) (max_zero-count r)
      ∙ drop_cells-held (length xs) 0 d.top d.buffer xs refl (λ j h.
        let z : 0 + j ≡ j = omega arith in
        ap (λ i. read d.buffer (wrapping_add d.top i)) z ∙ r.held j h)

  -- No thief is inside a steal, and no retired buffer waits to be freed.
  pub record IsQuiet (d : Inner A) : Type 0 where
    pub still : d.in_flight ≡ 0
    pub clean : (length d.retired) ≡ 0

  -- A call of the owner, or a whole steal, that starts at rest leaves no retired buffer behind.
  pub push-IsQuiet : (w : Worker A) (v : A) → IsQuiet w.inner → IsQuiet (push w v).inner
  unfolding push ensure_room replace_buffer
  push-IsQuiet w v q = ground arith

  pub pop_lifo-IsQuiet : (w : Worker A) → IsQuiet w.inner → IsQuiet (pop_lifo (λ i. i) w).1.inner
  unfolding pop_lifo pop_last perhaps_shrink replace_buffer
  pop_lifo-IsQuiet w q = ground arith

  pub steal_from-IsQuiet : (d : Inner A) → IsQuiet d → IsQuiet (steal_from (λ i. i) d).1
  unfolding steal_from
  steal_from-IsQuiet d q = ground arith

  -- While a thief is inside a steal, every buffer that is replaced is kept.
  pub replace_buffer-kept :
      (d : Inner A) (buf : Buffer A)
      → d.in_flight ≢ 0
      → (replace_buffer d buf).retired ≡ d.buffer ∷ d.retired
  unfolding replace_buffer
  replace_buffer-kept d buf busy = ground arith
