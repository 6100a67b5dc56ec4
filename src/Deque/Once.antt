-- ===== src/Deque/Once.antt =====
-- src/lib.rs, threads at work at once: every element is returned once, and no freed buffer is read, however
-- the steps of the owner and of the thieves follow one another.
use ws_deque.Base.{
  ℕ, ◌+◌, ◌-◌, ◌^◌, ◌≤◌, ◌<◌, ◌≡◌, refl, ◌∙◌, ap, Option, some, List, [], ◌∷◌, get_elem?, length,
  arith, word,
}
use ws_deque.Distributed.Weight.{total}
use ws_deque.Deque.Buffer.{Buffer}
use ws_deque.Deque.Worker.{with_start_index}
use ws_deque.Deque.Refine.{with_start_index-Owns}
use ws_deque.Deque.Threads.{
  System, idle, loaded, holding, Action, pointed, steal_step, act_all, start,
}
use ws_deque.Deque.Shared.{OwnerSound, Sound}
use ws_deque.Deque.Acts.{holds_first, claim_returns, act_all-Sound, pushed-act_all, IsSound}

module _ {ℓ} {A : Type ℓ} where
  start-Sound :
      (k first : ℕ) → k ≤ 62 → first < word → Sound (start (with_start_index {A = A} k first)) []
  unfolding start
  start-Sound k first small h = record {
    owner = with_start_index-Owns k first small h;
    flow = λ f. refl;
    counted = unfold with_start_index in refl;
    each = λ i p q. absurd (cc);
  }

  -- The state that the threads reach from a new deque, whose indices start anywhere.
  unfoldable pub reached : ℕ → ℕ → List (Action A) → System A
  reached k first actions = act_all (start (with_start_index k first)) actions

  reached-Sound :
      (k first : ℕ) (actions : List (Action A))
      → k ≤ 62
      → first < word
      → length actions ≤ 2 ^ 61
      → IsSound (reached k first actions)
  unfolding reached start
  reached-Sound k first actions small h few =
      act_all-Sound actions (start (with_start_index k first)) [] (start-Sound k first small h)
        (omega (arith, few))

  pushed-reached :
      (k first : ℕ) (actions : List (Action A))
      → length (reached k first actions).pushed ≤ length actions
  unfolding reached start
  pushed-reached k first actions =
      omega (arith, pushed-act_all actions (start (with_start_index k first)))

  -- However the owner and the thieves follow one another, each element that was pushed was returned once
  -- or is still in the deque: for some list `xs`, any weight of the elements pushed is that of the elements
  -- returned plus that of `xs`, and the deque as its owner sees it holds `xs`. The number of steps is at
  -- most 2 ^ 61.
  pub reached-once :
      (k first : ℕ) (actions : List (Action A))
      → k ≤ 62
      → first < word
      → length actions ≤ 2 ^ 61
      → let s = reached k first actions in
        (xs : List A) × ((f : A → ℕ) → total f s.pushed ≡ total f s.returned + total f xs)
        × OwnerSound s.worker s.owner xs
  reached-once k first actions small h few =
      let (xs, o) = reached-Sound k first actions small h few in (xs, o.flow, o.owner)

  -- However they follow one another, in at most 2 ^ 61 steps, the buffer that a thief is about to read was
  -- not freed.
  pub reached-live :
      (k first i t j : ℕ) (actions : List (Action A))
      → k ≤ 62
      → first < word
      → length actions ≤ 2 ^ 61
      → get_elem? (reached k first actions).thieves i ≡ some (loaded t j)
      → let s = reached k first actions in
        (buf : Buffer A) × (pointed s.worker.inner (s.serial - j) ≡ some buf)
  reached-live k first i t j actions small h few q =
      let (xs, o) = reached-Sound k first actions small h few in
      let (lt, (buf, e, ticket)) = o.each i (loaded t j) q in (buf, e)

  -- However they follow one another, in at most 2 ^ 61 steps, a thief whose compare-exchange is to succeed
  -- has read an element, and its step returns that element once, leaving the rest in the deque.
  pub reached-claims :
      (k first i t : ℕ) (boxed : Option A) (actions : List (Action A))
      → k ≤ 62
      → first < word
      → length actions ≤ 2 ^ 61
      → get_elem? (reached k first actions).thieves i ≡ some (holding t boxed)
      → (reached k first actions).worker.inner.top ≡ t
      → let s = reached k first actions in
        (x : A) × (boxed ≡ some x)
        × ((steal_step s i).returned ≡ x ∷ s.returned)
        × (get_elem? (steal_step s i).thieves i ≡ some idle)
  reached-claims k first i t boxed actions small h few q at =
      let s = reached k first actions in
      let (xs, o) = reached-Sound k first actions small h few in
      let (x, rest, n, same) =
        holds_first i t boxed q o (omega (arith, few, pushed-reached k first actions)) at in
      let (back, left) = claim_returns s i t x (q ∙ ap (λ b. some (holding t b)) same) at in
      (x, same, back, left)
