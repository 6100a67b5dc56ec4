-- ===== src/Priority/Order.antt =====
-- The highest level first: the pool behaves as the list of its levels' elements.
use ws_deque.Base.{
  ℕ, zero, suc, ◌+◌, ◌-◌, ◌^◌, ◌<◌, ◌≡◌, refl, sym, ◌∙◌, ap, min, Bool, true, false, Option, none,
  some, List, [], ◌∷◌, ◌++◌, arith, length, length-append, if◌then◌else◌,
}
use mathlib.Core.Path.{subst}
use ws_deque.Deque.Inner.{Inner}
use ws_deque.Deque.Worker
use ws_deque.Deque.Steal.{Steal, empty, retry, success}
use ws_deque.Deque.Worker.{Worker}
use ws_deque.Deque.Stealer
use ws_deque.Deque.Rep.{Owns}
use ws_deque.Deque.Push.{push-Owns}
use ws_deque.Deque.Spec.{pop_back, pop_front}
use ws_deque.Deque.Refine.{Agrees, pop-Agrees, length-pop_back}
use ws_deque.Priority.{push_at, push, pop, scan, steal}

module _ {ℓ} {A : Type ℓ} where
  -- What the highest level that holds a task yields, and what is left; `take_one` takes from a level.
  unfoldable pub first_level :
      (List A → Option A × List A) → List (List A) → Option A × List (List A)
  first_level take_one [] = (none, [])
  first_level take_one ([] ∷ ls) = let (out, rest) = first_level take_one ls in (out, [] ∷ rest)
  first_level take_one ((x ∷ xs) ∷ ls) = let (out, l) = take_one (x ∷ xs) in (out, l ∷ ls)

  -- The list of a level with a task pushed at it.
  unfoldable pub append_at : List (List A) → ℕ → A → List (List A)
  append_at [] n v = []
  append_at (l ∷ ls) zero v = (l ++ v ∷ []) ∷ ls
  append_at (l ∷ ls) (suc n) v = l ∷ append_at ls n v

-- Every element has the property.
abbrev pub All {ℓ κ} : {A : Type ℓ} → (A → Type κ) → List A → Type κ
All P [] = Unit
All P (x ∷ xs) = P x × All P xs

-- Each level's deque is a LIFO deque that holds that level's elements, fewer than `2 ^ 61`.
pub data Holds {ℓ} {A : Type ℓ} : List (Worker A) → List (List A) → Type ℓ where
  end : Holds [] []
  level :
      {w : Worker A} {l : List A} {ws : List (Worker A)} {ls : List (List A)}
      → Owns w l
      → w.fifo ≡ false
      → length l < 2 ^ 61
      → Holds ws ls
      → Holds (w ∷ ws) (l ∷ ls)

module _ {ℓ} {A : Type ℓ} where
  length-Holds : {ws : List (Worker A)} {ls : List (List A)} → Holds ws ls → length ws ≡ length ls
  length-Holds end = refl
  length-Holds (level o f s h) = ap suc (length-Holds h)

  -- One level's pop.
  level_pop :
      {w : Worker A} (l : List A)
      → Owns w l
      → w.fifo ≡ false
      → Agrees (Stealer.pop w) (pop_back l) false
  level_pop {w} l o f =
      let p : (if w.fifo then pop_front l else pop_back l) ≡ pop_back l = ground arith in
      let (out, kept, same) = pop-Agrees l o in
      (
        out ∙ ap (λ q. q.0) p,
        subst (λ q. Owns (Stealer.pop w).1 q) (ap (λ q. q.1) p) kept,
        same ∙ f,
      )

  pop_back-some : (x : A) (xs : List A) → (z : A) × ((pop_back (x ∷ xs)).0 ≡ some z)
  unfolding pop_back
  pop_back-some x [] = (x, refl)
  pop_back-some x (y ∷ ys) = pop_back-some y ys

  pop-skip :
      (w : Worker A) (ws : List (Worker A))
      → (Stealer.pop w).0 ≡ none
      → pop (w ∷ ws) ≡ ((pop ws).0, (Stealer.pop w).1 ∷ (pop ws).1)
  unfolding pop
  pop-skip w ws e = ground arith

  pop-take :
      (w : Worker A) (ws : List (Worker A)) (z : A)
      → (Stealer.pop w).0 ≡ some z
      → pop (w ∷ ws) ≡ (some z, (Stealer.pop w).1 ∷ ws)
  unfolding pop
  pop-take w ws z e = ground arith

  -- `pop` takes the newest task of the highest level that holds one, and leaves the other levels alone.
  pub pop-Holds :
      {ws : List (Worker A)} {ls : List (List A)}
      → Holds ws ls
      → ((pop ws).0 ≡ (first_level pop_back ls).0) × Holds (pop ws).1 (first_level pop_back ls).1
  unfolding first_level
  pop-Holds end = unfold pop in (refl, end)
  pop-Holds (level {w = w} {l = []} {ws = ws} o f s h) =
      let (out, kept, same) = level_pop [] o f in
      let kept' : Owns (Stealer.pop w).1 [] = unfold pop_back in kept in
      let (later, rest) = pop-Holds h in
      rw (pop-skip w ws (unfold pop_back in out)) (later, level kept' same s rest)
  pop-Holds (level {w = w} {l = x ∷ xs} {ws = ws} o f s h) =
      let (out, kept, same) = level_pop (x ∷ xs) o f in
      let (z, e) = pop_back-some x xs in
      rw (pop-take w ws z (out ∙ e))
        (sym e, level kept same (omega (arith, length-pop_back (x ∷ xs))) h)

  push_at-Holds :
      {ws : List (Worker A)} {ls : List (List A)} (n : ℕ) (v : A)
      → Holds ws ls
      → All (λ l. length l + 1 < 2 ^ 61) ls
      → Holds (push_at ws n v) (append_at ls n v)
  unfolding push_at append_at
  push_at-Holds n v end small = end
  push_at-Holds zero v (level {w = w} {l = l} o f s h) small =
      level (push-Owns v o s) (unfold Worker.push in f)
        (omega (arith, length-append l (v ∷ []), small.0)) h
  push_at-Holds (suc n) v (level o f s h) small = level o f s (push_at-Holds n v h small.1)

  -- `push` appends to the level asked for, or to the lowest one if there are fewer, and keeps every
  -- level's invariant, as long as each level holds fewer than 2 ^ 61 - 1 tasks before.
  pub push-Holds :
      {ws : List (Worker A)} {ls : List (List A)} (v : A) (n : ℕ)
      → Holds ws ls
      → All (λ l. length l + 1 < 2 ^ 61) ls
      → Holds (push ws v n) (append_at ls (min n (length ls - 1)) v)
  unfolding push
  push-Holds v n h small = rw (length-Holds h) (push_at-Holds _ v h small)

-- What a thief meets at each level.
unfoldable pub outcomes {ℓ} :
    {A : Type ℓ} → (ℕ → Inner A → Inner A) → List (Inner A) → List (Steal A)
outcomes others [] = []
outcomes others (d ∷ ds) = (Stealer.steal_from (others (length ds)) d).0 ∷ outcomes others ds

-- The first success among the outcomes; failing that `retry` if a level was contended.
unfoldable pub best {ℓ} : {A : Type ℓ} → List (Steal A) → Steal A
best [] = empty
best (success v ∷ rest) = success v
best (empty ∷ rest) = best rest
best (retry ∷ rest) = let later = best rest in elim later [ success v ↦ success v | _ ↦ retry ]

module _ {ℓ} {A : Type ℓ} (others : ℕ → Inner A → Inner A) where
  -- With a contended level behind it, the scan never reports the pool empty.
  abbrev contended : Bool → Steal A → Steal A
  contended saw (success v) = success v
  contended saw empty = if saw then retry else empty
  contended saw retry = retry

  scan-best :
      (saw : Bool) (ds : List (Inner A))
      → (scan others saw ds).0 ≡ contended saw (best (outcomes others ds))
  unfolding scan outcomes best
  scan-best saw [] = refl
  scan-best saw (d ∷ ds) = ground (arith, scan-best saw ds, scan-best true ds)

  -- A thief gets the task of the highest level that yields one; contention at a level above does not
  -- stop it, and is reported only if no level yields a task.
  pub steal-best : (ds : List (Inner A)) → (steal others ds).0 ≡ best (outcomes others ds)
  unfolding steal
  steal-best ds = ground (arith, scan-best false ds)
