-- ===== src/Distributed/Weight.antt =====
-- Sums over the nodes of src/distributed.rs: what a write to one node and a message to one add to them.
use ws_deque.Base.{
  ℕ, zero, suc, ◌+◌, ◌≤◌, ◌≡◌, refl, ap, true, false, none, some, List, [], ◌∷◌, ◌++◌, arith,
  if◌then◌else◌, leb, length, length-set, ◌<◌, ◌≢◌, ◌⊎◌, get_elem?, get_elem?-none,
  get_elem?-set_ne, set, take, drop, Option-cases, Bool-cases, inl, inr,
}
use ws_deque.Distributed.{Message, steal_request, work, Node, Pc, running, is_alive, send, vec_pop}

abbrev pub past : ℕ → ℕ → ℕ
past k from = if leb k from then 1 else 0

-- The sum of a weight over a list.
abbrev pub total {ℓ} : {A : Type ℓ} → (A → ℕ) → List A → ℕ
total f [] = 0
total f (x ∷ xs) = f x + total f xs

module _ {ℓ} {A : Type ℓ} where
  pub total-append : (f : A → ℕ) (xs ys : List A) → total f (xs ++ ys) ≡ total f xs + total f ys
  total-append f [] ys = omega arith
  total-append f (x ∷ xs) ys = omega (arith, total-append f xs ys)

  pub total-take-drop :
      (f : A → ℕ) (n : ℕ) (xs : List A) → total f (take n xs) + total f (drop n xs) ≡ total f xs
  total-take-drop f zero xs = omega arith
  total-take-drop f (suc n) [] = omega arith
  total-take-drop f (suc n) (x ∷ xs) = omega (arith, total-take-drop f n xs)

  pub total-member :
      (f : A → ℕ) (xs : List A) (i : ℕ) (x : A) → get_elem? xs i ≡ some x → f x ≤ total f xs
  total-member f [] i x e = absurd (cc)
  total-member f (z ∷ xs) zero x e = let same : z ≡ x = cc in omega (arith, ap f same)
  total-member f (z ∷ xs) (suc i) x e = omega (arith, total-member f xs i x e)

  pub total-set :
      (f : A → ℕ) (xs : List A) (i : ℕ) (x y : A)
      → get_elem? xs i ≡ some x
      → total f (set xs i y) + f x ≡ total f xs + f y
  total-set f [] i x y e = absurd (cc)
  total-set f (z ∷ xs) zero x y e = let same : z ≡ x = cc in omega (arith, ap f same)
  total-set f (z ∷ xs) (suc i) x y e = omega (arith, total-set f xs i x y e)

module _ {ℓ} {A : Type ℓ} where
  vec_pop-none : (xs : List A) → vec_pop xs ≡ none → xs ≡ []
  unfolding vec_pop
  vec_pop-none [] e = refl
  vec_pop-none (x ∷ xs) e = ground arith

  pub total-vec_pop :
      (f : A → ℕ) (xs ys : List A) (y : A)
      → vec_pop xs ≡ some (y, ys)
      → total f xs ≡ f y + total f ys
  unfolding vec_pop
  total-vec_pop f [] ys y e = absurd (cc)
  total-vec_pop f (x ∷ xs) ys y e = elim (Option-cases (vec_pop xs)) [
    | inl n ↦ ground (arith, ap (total f), ap f, vec_pop-none xs n)
    | inr ((z, zs), p) ↦
        let h = total-vec_pop f xs zs z p in
        let q : (z ≡ y) × (x ∷ zs ≡ ys) = ground arith in
        omega (arith, h, ap f q.0, ap (total f) q.1)
  ]

  -- The tasks in a message, and the requests in it from nodes past the `k`-th.
  abbrev pub carried : (A → ℕ) → Message A → ℕ
  carried f (steal_request from) = 0
  carried f (work batch) = total f batch

  abbrev pub stranger : ℕ → Message A → ℕ
  stranger k (steal_request from) = past k from
  stranger k (work batch) = 0

  -- The tasks in a node's pool and mailbox.
  abbrev pub held : (A → ℕ) → Node A → ℕ
  held f node = total f node.local + total (carried f) node.rx

  abbrev pub strangers : ℕ → Node A → ℕ
  strangers k node = total (stranger k) node.rx

  -- A node that runs a task.
  abbrev pub busy_pc : Pc A → ℕ
  busy_pc (running _ _) = 1
  busy_pc _ = 0

  abbrev pub busy : Node A → ℕ
  busy node = busy_pc node.pc

  abbrev pub gone : Node A → ℕ
  gone node = if is_alive node.pc then 0 else 1

-- A weight of one each.
abbrev pub one {ℓ} : {A : Type ℓ} → A → ℕ
one _ = 1

module _ {ℓ} {A : Type ℓ} where
  -- Where there is no task, no weight of tasks is either.
  pub total-none : (f : A → ℕ) (xs : List A) → total one xs ≡ 0 → total f xs ≡ 0
  total-none f [] e = refl
  total-none f (x ∷ xs) e = absurd (omega arith)

  carried-none :
      (f : A → ℕ) (ms : List (Message A)) → total (carried one) ms ≡ 0 → total (carried f) ms ≡ 0
  carried-none f [] e = refl
  carried-none f (steal_request from ∷ ms) e = omega (arith, carried-none f ms (omega (arith, e)))
  carried-none f (work batch ∷ ms) e =
      omega (arith, e, total-none f batch (omega (arith, e)), carried-none f ms (omega (arith, e)))

  pub held-none : (f : A → ℕ) (node : Node A) → held one node ≡ 0 → held f node ≡ 0
  held-none f node e =
      omega (
        arith,
        total-none f node.local (omega (arith, e)),
        carried-none f node.rx (omega (arith, e)),
      )

module _ {ℓ} {A : Type ℓ} (nodes : List (Node A)) (to : ℕ) (m : Message A) where
  pub send-set :
      (peer : Node A)
      → get_elem? nodes to ≡ some peer
      → is_alive peer.pc ≡ true
      → send nodes to m ≡ (true, set nodes to (record peer { rx = peer.rx ++ m ∷ [] }))
  unfolding send
  send-set peer e a = ground arith

  -- A message is lost if it is sent to no node or to one that has returned; no node changes then.
  pub send-cases :
      ((peer : Node A) × (get_elem? nodes to ≡ some peer)
        × (send nodes to m ≡ (true, set nodes to (record peer { rx = peer.rx ++ m ∷ [] }))))
      ⊎ ((send nodes to m ≡ (false, nodes)) × ((length nodes ≤ to) ⊎ (0 < total gone nodes)))
  unfolding send
  send-cases = elim (Option-cases (get_elem? nodes to)) [
    | inl e ↦ inr (ground arith, inl (get_elem?-none nodes to e))
    | inr (peer, e) ↦ elim (Bool-cases (is_alive peer.pc)) [
      | inl a ↦ inl (peer, e, send-set peer e a)
      | inr a ↦
          let g : gone peer ≡ 1 = ground arith in
          inr (ground arith, inr (omega (arith, g, total-member gone nodes to peer e)))
    ]
  ]

  pub length-send : length (send nodes to m).1 ≡ length nodes
  length-send = elim send-cases [
    | inl (peer, e, q) ↦ rw q (length-set nodes to (record peer { rx = peer.rx ++ m ∷ [] }))
    | inr (q, _) ↦ rw q refl
  ]

  pub send-other : (id : ℕ) → to ≢ id → get_elem? (send nodes to m).1 id ≡ get_elem? nodes id
  send-other id n = elim send-cases [
    | inl (peer, e, q) ↦
        rw q (get_elem?-set_ne nodes to id (record peer { rx = peer.rx ++ m ∷ [] }) n)
    | inr (q, _) ↦ rw q refl
  ]
