-- ===== src/Distributed/Conserve.antt =====
-- The tasks of src/distributed.rs in any order of the nodes' steps: none is lost or run twice, and the
-- counter of outstanding tasks counts them.
use ws_deque.Base.{
  ℕ, ◌+◌, ◌≤◌, ◌<◌, ◌%◌, ◌≡◌, refl, ap, ◌∙◌, some, List, [], ◌∷◌, ◌++◌, arith, if◌then◌else◌, ◌==◌,
  length, get_elem?, set, Option-cases, Bool-cases, inl, inr, word, length-set,
}
use ws_deque.Distributed.{
  Node, System, Pc, draining, popping, running, checking, starving, returned, is_alive, vec_pop,
  pop_local, spawn, finish, check_done,
}
use ws_deque.Distributed.Weight.{
  total, total-append, total-set, total-member, total-vec_pop, held, strangers, busy, busy_pc, gone,
  one, held-none,
}

-- The pc's part of `gone`.
abbrev pub gone_pc {ℓ} : {A : Type ℓ} → Pc A → ℕ
gone_pc p = if is_alive p then 0 else 1

module _ {ℓ} {A : Type ℓ} where
  -- The tasks in pools and mailboxes, and the tasks that are being run.
  abbrev pub waiting : System A → ℕ
  waiting s = total (held one) s.nodes

  abbrev pub in_hand : System A → ℕ
  in_hand s = total busy s.nodes

  abbrev pub alive_tasks : System A → ℕ
  alive_tasks s = waiting s + in_hand s

  pub record Conserved (s : System A) : Type ℓ where
    pub conserved : (f : A → ℕ) → total f s.emitted ≡ total f s.executed + total (held f) s.nodes
    pub counted : s.global.outstanding ≡ alive_tasks s % word
    pub known : total (strangers (length s.nodes)) s.nodes ≡ 0
    pub quiet : 0 < total gone s.nodes → alive_tasks s ≡ 0

  abbrev pub size : Node A → ℕ
  size node = held one node + busy node

  -- A step that writes one node keeps the invariant if what it adds to the node it adds to the tasks
  -- that were emitted, less those that were executed, and to the counter.
  pub set-Conserved :
      {s s' : System A} (id : ℕ) {node : Node A} (out : Node A)
      → Conserved s
      → get_elem? s.nodes id ≡ some node
      → s'.nodes ≡ set s.nodes id out
      → ((f : A → ℕ)
          → total f s'.emitted + total f s.executed + held f node
            ≡ total f s.emitted + total f s'.executed + held f out)
      → ((t t' : ℕ)
          → s.global.outstanding ≡ t % word
          → t' + size node ≡ t + size out
          → s'.global.outstanding ≡ t' % word)
      → strangers (length s.nodes) out ≤ strangers (length s.nodes) node
      → gone out ≡ gone node
      → (size node ≡ 0 → size out ≡ 0)
      → Conserved s'
  set-Conserved {s} {s'} id {node} out c at e balance count few same empty =
      let n : length s'.nodes ≡ length s.nodes = ap length e ∙ length-set s.nodes id out in
      let h = λ (f : A → ℕ). ap (total (held f)) e in
      let b = ap (total busy) e in
      let hs = total-set (held one) s.nodes id node out at in
      let bs = total-set busy s.nodes id node out at in
      let t : alive_tasks s' + size node ≡ alive_tasks s + size out =
        omega (arith, h one, b, hs, bs) in
      record {
        conserved = λ f.
            omega (arith, c.conserved f, h f, balance f, total-set (held f) s.nodes id node out at);
        counted = count (alive_tasks s) (alive_tasks s') c.counted t;
        known =
            ap (λ k. total (strangers k) s'.nodes) n
            ∙ ap (total (strangers (length s.nodes))) e
            ∙ omega (
              arith,
              c.known,
              few,
              total-set (strangers (length s.nodes)) s.nodes id node out at,
            );
        quiet = λ some_gone.
            let g = ap (total gone) e in
            let gs = total-set gone s.nodes id node out at in
            let before : 0 < total gone s.nodes = omega arith in
            let z = c.quiet before in
            let none_here : size node ≡ 0 = omega (
              arith,
              z,
              total-member (held one) s.nodes id node at,
              total-member busy s.nodes id node at,
            ) in
            omega (arith, z, t, empty none_here);
      }

  module _ (s : System A) (id : ℕ) (node : Node A) (c : Conserved s)
      (at : get_elem? s.nodes id ≡ some node) where
    pub finish-Conserved : (task : A) → node.pc ≡ running task [] → Conserved (finish s id node)
    unfolding finish
    finish-Conserved task p =
        let b : busy node ≡ 1 = ap busy_pc p in
        let g : gone node ≡ 0 = ap gone_pc p in
        set-Conserved id (record node { pc = draining }) c at refl (λ f. omega arith)
          (λ t t' e h. omega (arith, b, e, h)) (omega arith) (omega (arith, g))
          (λ z. omega (arith, b, z))

    pub spawn-Conserved :
        (task child : A) (rest : List A)
        → node.pc ≡ running task (child ∷ rest)
        → Conserved (spawn s id node task child rest)
    unfolding spawn
    spawn-Conserved task child rest p =
        let b : busy node ≡ 1 = ap busy_pc p in
        let g : gone node ≡ 0 = ap gone_pc p in
        let out = record node { local = node.local ++ child ∷ []; pc = running task rest } in
        set-Conserved id out c at refl (λ f. omega (arith, total-append f node.local (child ∷ [])))
          (λ t t' e h. omega (arith, b, e, h, total-append one node.local (child ∷ [])))
          (omega arith) (omega (arith, g)) (λ z. omega (arith, b, z))

    pub pop_local-Conserved :
        (children : A → List A) → node.pc ≡ popping → Conserved (pop_local children s id node)
    unfolding pop_local
    pop_local-Conserved children p =
        let b : busy node ≡ 0 = ap busy_pc p in
        let g : gone node ≡ 0 = ap gone_pc p in
        elim (Option-cases (vec_pop node.local)) [
          | inl e ↦
              let q : pop_local children s id node
                  ≡ record s { nodes = set s.nodes id (record node { pc = checking }) } =
                ground arith in
              rw q (
                set-Conserved id (record node { pc = checking }) c at refl (λ f. omega arith)
                  (λ t t' e h. omega (arith, b, e, h)) (omega arith) (omega (arith, g))
                  (λ z. omega (arith, b, z)))
          | inr ((task, rest), e) ↦
              let out = record node { local = rest; pc = running task (children task) } in
              let w = λ (f : A → ℕ). total-vec_pop f node.local rest task e in
              let q : pop_local children s id node
                  ≡ record s { nodes = set s.nodes id out; executed = task ∷ s.executed } =
                ground arith in
              rw q (
                set-Conserved id out c at refl (λ f. omega (arith, w f))
                  (λ t t' e h. omega (arith, b, e, h, w one)) (omega arith) (omega (arith, g))
                  (λ z. omega (arith, b, z, w one)))
        ]

    -- A node that returns drops its mailbox, which holds no task by then.
    returned-Conserved :
        busy node ≡ 0
        → gone node ≡ 0
        → alive_tasks s ≡ 0
        → Conserved (record s { nodes = set s.nodes id (record node { rx = []; pc = returned }) })
    returned-Conserved b g none_alive =
        let out = record node { rx = []; pc = returned } in
        let n = length-set s.nodes id out in
        let h : held one node ≡ 0 =
          omega (arith, none_alive, total-member (held one) s.nodes id node at) in
        let hs = total-set (held one) s.nodes id node out at in
        let bs = total-set busy s.nodes id node out at in
        let after : total (held one) (set s.nodes id out) + total busy (set s.nodes id out) ≡ 0 =
          omega (arith, none_alive, h, hs, bs) in
        record {
          conserved = λ f.
              omega (
                arith,
                c.conserved f,
                held-none f node h,
                total-set (held f) s.nodes id node out at,
              );
          counted = omega (arith, c.counted, none_alive, after);
          known =
              ap (λ k. total (strangers k) (set s.nodes id out)) n
              ∙ omega
                  (arith, c.known, total-set (strangers (length s.nodes)) s.nodes id node out at);
          quiet = λ _. after;
        }

    pub check_done-Conserved :
        node.pc ≡ checking → alive_tasks s < word → Conserved (check_done s id node)
    unfolding check_done
    check_done-Conserved p small =
        let b : busy node ≡ 0 = ap busy_pc p in
        let g : gone node ≡ 0 = ap gone_pc p in
        elim (Bool-cases (s.global.outstanding == 0)) [
          | inl e ↦
              let zero_count : s.global.outstanding ≡ 0 = ground arith in
              let none_alive : alive_tasks s ≡ 0 = omega (arith, c.counted, zero_count) in
              rw e (returned-Conserved b g none_alive)
          | inr e ↦ rw e (
              set-Conserved id (record node { pc = starving }) c at refl (λ f. omega arith)
                (λ t t' e h. omega (arith, b, e, h)) (omega arith) (omega (arith, g))
                (λ z. omega (arith, b, z)))
        ]
