-- ===== src/Distributed/Messages.antt =====
-- The messages of src/distributed.rs: requests, answers and their receipt keep the invariant, and so does
-- every step of a node.
use ws_deque.Base.{
  ℕ, ◌+◌, ◌-◌, ◌≤◌, ◌<◌, ◌%◌, ◌≡◌, refl, sym, ap, ◌∙◌, ◌≢◌, false, not, ◌&&◌, some, List, [], ◌∷◌,
  ◌++◌, arith, ltb, ◌==◌, length, get_elem?, get_elem?-bound, set, take, drop, Option-cases,
  Bool-cases, inl, inr, word, length-set,
}
use ws_deque.Distributed.{
  Message, steal_request, work, Node, System, Pc, draining, popping, running, checking, starving,
  returned, send, give_count, answer, drain_mailbox, request, advance_node, advance, xorshift,
}
use ws_deque.Distributed.Weight.{
  past, total, total-append, total-take-drop, total-set, total-member, carried, stranger, held,
  strangers, busy, busy_pc, gone, one, total-none, send-cases, send-other,
}
use ws_deque.Distributed.Conserve.{
  gone_pc, alive_tasks, Conserved, set-Conserved, finish-Conserved, spawn-Conserved,
  pop_local-Conserved, check_done-Conserved,
}

module _ {ℓ} {A : Type ℓ} where
  -- A message that carries no task, from a node that there is.
  send-Conserved :
      {s : System A} (to from : ℕ)
      → Conserved s
      → from < length s.nodes
      → Conserved (record s { nodes = (send s.nodes to (steal_request from)).1 })
  send-Conserved {s} to from c h = elim (send-cases s.nodes to (steal_request from)) [
    | inr (q, _) ↦ rw q c
    | inl (peer, e, q) ↦
        let out = record peer { rx = peer.rx ++ steal_request from ∷ [] } in
        let w = λ (f : A → ℕ). total-append (carried f) peer.rx (steal_request from ∷ []) in
        let n : past (length s.nodes) from ≡ 0 = ground arith in
        rw q (
          set-Conserved to out c e refl (λ f. omega (arith, w f))
            (λ t t' k h. omega (arith, k, h, w one))
            (omega (
              arith,
              n,
              total-append (stranger (length s.nodes)) peer.rx (steal_request from ∷ []),
            ))
            refl (λ z. omega (arith, z, w one)))
  ]

  module _ (s : System A) (id : ℕ) (node : Node A) (c : Conserved s)
      (at : get_elem? s.nodes id ≡ some node) where
    request-Conserved : node.pc ≡ starving → Conserved (request s id node)
    unfolding request
    request-Conserved p =
        let b : busy node ≡ 0 = ap busy_pc p in
        let g : gone node ≡ 0 = ap gone_pc p in
        let victim = xorshift node.rng % s.global.n_nodes in
        elim (Bool-cases (not node.pending_request && ltb 1 s.global.n_nodes)) [
          | inr e ↦ rw e (idle b g node.rng)
          | inl e ↦ elim (Bool-cases (victim == id)) [
            | inl v ↦ rw (e, v) (idle b g (xorshift node.rng))
            | inr v ↦
                let c2 = send-Conserved victim id c (get_elem?-bound s.nodes id node at) in
                let apart : victim ≢ id = ground arith in
                let at2 = send-other s.nodes victim (steal_request id) id apart ∙ at in
                let out = record node {
                  rng = xorshift node.rng;
                  pending_request = (send s.nodes victim (steal_request id)).0;
                  pc = draining;
                } in
                rw (e, v)
                  (set-Conserved id out c2 at2 refl (λ f. omega arith)
                    (λ t t' k h. omega (arith, b, k, h)) (omega arith) (omega (arith, g))
                    (λ z. omega (arith, b, z)))
          ]
        ]
      where
        idle :
            busy node ≡ 0
            → gone node ≡ 0
            → (r : ℕ)
            → Conserved
                (record s { nodes = set s.nodes id (record node { rng = r; pc = draining }) })
        idle b g r =
            set-Conserved id (record node { rng = r; pc = draining }) c at refl (λ f. omega arith)
              (λ t t' e h. omega (arith, b, e, h)) (omega arith) (omega (arith, g))
              (λ z. omega (arith, b, z))

    -- A node `out` that gave `batch` away, which arrives at a peer.
    module _ (out : Node A) (batch : List A)
        (w : (f : A → ℕ) → held f node ≡ held f out + total f batch) (b : busy node ≡ 0)
        (b' : busy out ≡ 0) (g : gone out ≡ gone node)
        (k : strangers (length s.nodes) out ≤ strangers (length s.nodes) node) where
      set_out : (f : Node A → ℕ) → total f (set s.nodes id out) + f node ≡ total f s.nodes + f out
      set_out f = total-set f s.nodes id node out at

      delivered-Conserved :
          (n : ℕ) (from : ℕ) (peer : Node A)
          → get_elem? (set s.nodes id out) from ≡ some peer
          → Conserved (record s {
            nodes = set (set s.nodes id out) from (record peer { rx = peer.rx ++ work batch ∷ [] });
            global = record s.global { migrated = n };
          })
      delivered-Conserved n from peer e =
          let got = record peer { rx = peer.rx ++ work batch ∷ [] } in
          let x = λ (f : Node A → ℕ). total-set f (set s.nodes id out) from peer got e in
          let y = λ (f : A → ℕ). total-append (carried f) peer.rx (work batch ∷ []) in
          let len = length-set (set s.nodes id out) from got ∙ length-set s.nodes id out in
          let sum = set_out (held one) in
          let t : total (held one) (set (set s.nodes id out) from got)
                + total busy (set (set s.nodes id out) from got)
              ≡ alive_tasks s =
            omega (arith, x (held one), x busy, sum, set_out busy, w one, b, b', y one) in
          record {
            conserved = λ f. omega (arith, c.conserved f, x (held f), set_out (held f), w f, y f);
            counted = omega (arith, c.counted, t);
            known =
                ap (λ l. total (strangers l) (set (set s.nodes id out) from got)) len
                ∙ omega (
                  arith,
                  c.known,
                  k,
                  x (strangers (length s.nodes)),
                  set_out (strangers (length s.nodes)),
                  total-append (stranger (length s.nodes)) peer.rx (work batch ∷ []),
                );
            quiet = λ h.
                let before : 0 < total gone s.nodes = omega (arith, h, x gone, set_out gone, g) in
                omega (arith, t, c.quiet before);
          }

      -- A thief that has returned, or that there is not, gets nothing: the batch is empty.
      lost-Conserved : total one batch ≡ 0 → Conserved (record s { nodes = set s.nodes id out })
      lost-Conserved none_lost =
          set-Conserved id out c at refl (λ f. omega (arith, w f, total-none f batch none_lost))
            (λ t t' e h. omega (arith, b, b', w one, none_lost, e, h)) k g
            (λ z. omega (arith, b', z, w one))

    -- The batch leaves the victim's pool and arrives in the thief's mailbox. It can be lost only if the
    -- thief has returned, and then it is empty.
    answer-Conserved :
        (rest : List (Message A)) (from : ℕ)
        → node.pc ≡ draining
        → node.rx ≡ steal_request from ∷ rest
        → Conserved (answer s id (record node { rx = rest }) from)
    unfolding answer
    answer-Conserved rest from p r =
        let keep = length node.local - give_count node.local in
        let batch = drop keep node.local in
        let out = record node { rx = rest; local = take keep node.local } in
        let b : busy node ≡ 0 = ap busy_pc p in
        let g : gone node ≡ 0 = ap gone_pc p in
        let w = λ (f : A → ℕ). move f keep rest from r in
        let k : past (length s.nodes) from + strangers (length s.nodes) out
            ≡ strangers (length s.nodes) node =
          sym (ap (total (stranger (length s.nodes))) r) in
        elim (send-cases (set s.nodes id out) from (work batch)) [
          | inl (peer, e, q) ↦
              rw q (delivered-Conserved out batch w b b refl (omega (arith, k)) _ from peer e)
          | inr (q, why) ↦
              let empty : total one batch ≡ 0 = elim why [
                | inl far ↦
                    let f : past (length s.nodes) from ≡ 1 =
                      ground (arith, length-set s.nodes id out) in
                    absurd (
                      omega (
                        arith,
                        k,
                        f,
                        c.known,
                        total-member (strangers (length s.nodes)) s.nodes id node at,
                      ))
                | inr returned_some ↦
                    let before : 0 < total gone s.nodes =
                      omega (arith, total-set gone s.nodes id node out at) in
                    omega (arith, w one, c.quiet before, total-member (held one) s.nodes id node at)
              ] in
              rw q (lost-Conserved out batch w b b refl (omega (arith, k)) empty)
        ]
      where
        move :
            (f : A → ℕ) (keep : ℕ) (rest : List (Message A)) (from : ℕ)
            → node.rx ≡ steal_request from ∷ rest
            → held f node
              ≡ total f (take keep node.local)
                + total (carried f) rest
                + total f (drop keep node.local)
        move f keep rest from r =
            omega (arith, total-take-drop f keep node.local, ap (total (carried f)) r)

    drain_mailbox-Conserved : node.pc ≡ draining → Conserved (drain_mailbox s id node)
    unfolding drain_mailbox
    drain_mailbox-Conserved p = by_rx node.rx refl
      where
        b : busy node ≡ 0
        b = ap busy_pc p

        by_rx : (rx : List (Message A)) → node.rx ≡ rx → Conserved (drain_mailbox s id node)
        by_rx [] r =
            let q : drain_mailbox s id node
                ≡ record s { nodes = set s.nodes id (record node { pc = popping }) } =
              ground arith in
            let g : gone node ≡ 0 = ap gone_pc p in
            rw q (
              set-Conserved id (record node { pc = popping }) c at refl (λ f. omega arith)
                (λ t t' e h. omega (arith, b, e, h)) (omega arith) (omega (arith, g))
                (λ z. omega (arith, b, z)))
        by_rx (steal_request from ∷ rest) r =
            let q : drain_mailbox s id node ≡ answer s id (record node { rx = rest }) from =
              ground arith in
            rw q (answer-Conserved rest from p r)
        by_rx (work batch ∷ rest) r =
            let out = record node {
              rx = rest;
              local = node.local ++ batch;
              pending_request = false;
            } in
            let q : drain_mailbox s id node ≡ record s { nodes = set s.nodes id out } =
              ground arith in
            let w = λ (f : A → ℕ). moved f batch rest r in
            let k : strangers (length s.nodes) node ≡ 0 + total (stranger (length s.nodes)) rest =
              ap (total (stranger (length s.nodes))) r in
            rw q (
              set-Conserved id out c at refl (λ f. omega (arith, w f))
                (λ t t' e h. omega (arith, b, e, h, w one)) (omega (arith, k)) refl
                (λ z. omega (arith, b, z, w one)))
          where
            moved :
                (f : A → ℕ) (batch : List A) (rest : List (Message A))
                → node.rx ≡ work batch ∷ rest
                → held f node ≡ total f (node.local ++ batch) + total (carried f) rest
            moved f batch rest r =
                omega (arith, total-append f node.local batch, ap (total (carried f)) r)

    -- Every step of a node keeps the invariant; for the test of the counter fewer than `2 ^ 64` tasks may
    -- be there.
    advance_node-Conserved :
        (children : A → List A) (pc : Pc A)
        → node.pc ≡ pc
        → alive_tasks s < word
        → Conserved (advance_node children s id node pc)
    unfolding advance_node
    advance_node-Conserved children draining p small = drain_mailbox-Conserved p
    advance_node-Conserved children popping p small = pop_local-Conserved s id node c at children p
    advance_node-Conserved children (running task []) p small =
        finish-Conserved s id node c at task p
    advance_node-Conserved children (running task (child ∷ rest)) p small =
        spawn-Conserved s id node c at task child rest p
    advance_node-Conserved children checking p small = check_done-Conserved s id node c at p small
    advance_node-Conserved children starving p small = request-Conserved p
    advance_node-Conserved children returned p small = c

  pub advance-Conserved :
      (children : A → List A) {s : System A} (id : ℕ)
      → Conserved s
      → alive_tasks s < word
      → Conserved (advance children s id)
  unfolding advance
  advance-Conserved children {s} id c small = elim (Option-cases (get_elem? s.nodes id)) [
    | inl e ↦ let q : advance children s id ≡ s = ground arith in rw q c
    | inr (node, e) ↦
        let q : advance children s id ≡ advance_node children s id node node.pc = ground arith in
        rw q (advance_node-Conserved s id node c e children node.pc refl small)
  ]
