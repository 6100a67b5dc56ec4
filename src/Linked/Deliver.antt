-- ===== src/Linked/Deliver.antt =====
-- src/linked.rs: each step of the threads keeps what holds, and what the consumers hand out.
use ws_deque.Base.{
  ℕ, ◌<◌, ◌≡◌, inl, inr, refl, sym, ◌∙◌, Option-cases, none, some, List, [], ◌∷◌, ◌++◌, get_elem?,
  set, arith, get_elem?-bound, get_elem?-append_left, get_elem?-set_self,
}
use mathlib.Core.Path.{subst}
use native.Mathlib.Decide.{dec_lt}
use ws_deque.Linked.{Inner, LinkedWorker, create, put, fetch_max, stealer}
use ws_deque.Linked.Stored.{Holds, create-Stored, put-Stored_node}
use ws_deque.Linked.Look.{Cached, seen, look-seen, look_from-seen}
use ws_deque.Linked.Threads.{
  Consumer, System, fresh_consumer, look_by, hand_out, Reach, start, puts, clones, looks, hands,
  Falling, Handed, Delivered,
}
use ws_deque.Linked.Sound.{
  Good, Sound, Good-later, set-each, set-Delivered, append-each, look_by-Good, taken-look_by,
  look_by-owner, look_by-thief,
}

module _ {ℓ} {A : Type ℓ} where
  hand_out-Sound :
      {sys : System A} {ps : List A} (i : ℕ) (c : Consumer A) (h : ℕ) (v : A)
      → Sound sys ps
      → get_elem? sys.consumers i ≡ some c
      → c.looked ≡ some (h, v)
      → Sound (hand_out sys i c h v) ps
  unfolding hand_out fetch_max
  hand_out-Sound {sys} {ps} i c h v s q e =
      let inner' = fetch_max sys.worker.inner h in
      let c' : Consumer A = record c { looked = none; taken = (h, v) ∷ c.taken } in
      let g = s.each i c q in
      let (le, put_there, fall) = g.pending h v e in
      let later : (k : ℕ) (d : Consumer A) → get_elem? sys.consumers k ≡ some d → Good inner' ps d =
        λ k d t. Good-later (omega arith) (omega arith) (λ j x p. p) (s.each k d t) in
      record {
        stored = record {
          holds = record {
            chain = s.stored.holds.chain;
            tail_puts = s.stored.holds.tail_puts;
            room = s.stored.holds.room;
            held = s.stored.holds.held;
          };
          same_tail = s.stored.same_tail;
          node_low = s.stored.node_low;
          last_node = s.stored.last_node;
        };
        each = set-each {P = Good inner' ps} sys.consumers i c c' q later (record {
          cached = (later i c q).cached;
          order = unfold Falling in (omega arith, put_there, fall);
          pending = λ k x none_left. absurd (cc);
        });
        delivered = λ j lt. elim (dec_lt j sys.worker.inner.head) [
          | yes old ↦ set-Delivered i c c' q (λ d. unfold Handed in inr d) (s.delivered j old)
          | no new ↦ record {
            who = i;
            consumer = c';
            there = get_elem?-set_self sys.consumers i c c' q;
            handed = unfold Handed in inl (omega arith);
          }
        ];
      }

  start-Sound : Sound (record { worker = create; consumers = fresh_consumer {A = A} none ∷ [] }) []
  unfolding create
  start-Sound = record {
    stored = create-Stored;
    each =
        append-each {P = Good (create {A = A}).inner []} [] (fresh_consumer none)
          (λ k d e. absurd (cc))
          (record {
            cached = λ s e. absurd (cc);
            order = unfold Falling in tt;
            pending = λ h v e. absurd (cc);
          });
    delivered = λ j lt. absurd (omega arith);
  }

  put-Sound :
      {sys : System A} {ps : List A} (v : A) (w : LinkedWorker A)
      → Sound sys ps
      → put sys.worker v ≡ some w
      → Sound (record sys { worker = w }) (ps ++ v ∷ [])
  put-Sound {sys} {ps} v w s e =
      let (w', q, stored, head, nodes) = put-Stored_node v s.stored in
      let same : w' ≡ w = cc in
      let sound : Sound (record sys { worker = w' }) (ps ++ v ∷ []) = record {
        stored = stored;
        each = λ i c t.
            Good-later (omega (arith, head)) nodes
              (λ j x p. get_elem?-append_left ps (v ∷ []) j (get_elem?-bound ps j x p) ∙ p)
              (s.each i c t);
        delivered = λ j lt. s.delivered j (omega (arith, head));
      } in
      subst (λ x. Sound (record sys { worker = x }) (ps ++ v ∷ [])) same sound

  clone-Sound :
      {sys : System A} {ps : List A}
      → Sound sys ps
      → Sound (record sys { consumers = sys.consumers ++ fresh_consumer (some stealer) ∷ [] }) ps
  unfolding stealer
  clone-Sound {sys} {ps} s = record {
    stored = s.stored;
    each =
        append-each {P = Good sys.worker.inner ps} sys.consumers (fresh_consumer (some stealer))
          s.each
          (record {
            cached = λ t e.
                let same : stealer ≡ t = cc in
                subst (Cached sys.worker.inner) same (record {
                  base = refl;
                  behind = omega arith;
                  linked = omega (arith, s.stored.last_node);
                });
            order = unfold Falling in tt;
            pending = λ h v e. absurd (cc);
          });
    delivered = λ j lt.
        let d = s.delivered j lt in
        record {
          who = d.who;
          consumer = d.consumer;
          there =
              get_elem?-append_left sys.consumers _ d.who
                (get_elem?-bound sys.consumers d.who d.consumer d.there)
              ∙ d.there;
          handed = d.handed;
        };
  }

  look-Sound :
      {sys : System A} {ps : List A} (i : ℕ) (c : Consumer A)
      → Sound sys ps
      → get_elem? sys.consumers i ≡ some c
      → Sound (record sys { consumers = set sys.consumers i (look_by sys.worker.inner c) }) ps
  look-Sound {sys} {ps} i c s q =
      let inner = sys.worker.inner in
      record {
        stored = s.stored;
        each =
            set-each {P = Good inner ps} sys.consumers i c (look_by inner c) q s.each
              (look_by-Good s.stored.holds (s.each i c q));
        delivered = λ j lt.
            set-Delivered i c (look_by inner c) q
              (λ d. subst (Handed j) (sym (taken-look_by inner c)) d) (s.delivered j lt);
      }

  Reach-Sound : {sys : System A} {ps : List A} → Reach sys ps → Sound sys ps
  Reach-Sound start = start-Sound
  Reach-Sound (puts v w r e) = put-Sound v w (Reach-Sound r) e
  Reach-Sound (clones r) = clone-Sound (Reach-Sound r)
  Reach-Sound (looks i c r q idle) = look-Sound i c (Reach-Sound r) q
  Reach-Sound (hands i c h v r q e) = hand_out-Sound i c h v (Reach-Sound r) q e

  -- However the owner and the thieves interleave, each task before the head was handed out by one of
  -- them at least.
  pub reach-Delivered :
      {sys : System A} {ps : List A} (j : ℕ)
      → Reach sys ps
      → j < sys.worker.inner.head
      → Delivered sys.consumers j
  reach-Delivered j r lt = (Reach-Sound r).delivered j lt

  -- However they interleave, what one consumer hands out are tasks that were put, each at an index
  -- before the head, in the order in which they were put and none twice.
  pub reach-Falling :
      {sys : System A} {ps : List A} (i : ℕ) (c : Consumer A)
      → Reach sys ps
      → get_elem? sys.consumers i ≡ some c
      → Falling ps sys.worker.inner.head c.taken
  reach-Falling i c r q = ((Reach-Sound r).each i c q).order

  looked-seen :
      {inner : Inner A} {ps : List A} {c : Consumer A}
      → Holds inner ps
      → Good inner ps c
      → (look_by inner c).looked ≡ seen ps inner.head
  looked-seen {inner} {ps} {c} o g = elim (Option-cases c.cursor) [
    | inl e ↦ rw (look_by-owner inner c e) (look-seen o)
    | inr (s, e) ↦ rw (look_by-thief inner c s e) (look_from-seen o (g.cached s e)).0
  ]

  -- In every state that is reached, whoever looks sees the task at the head, if one is left there, and
  -- nothing if all were taken: no consumer is turned away while a task waits, wherever its cached node.
  pub reach-look_by :
      {sys : System A} {ps : List A} (i : ℕ) (c : Consumer A)
      → Reach sys ps
      → get_elem? sys.consumers i ≡ some c
      → (look_by sys.worker.inner c).looked ≡ seen ps sys.worker.inner.head
  reach-look_by i c r q = let s = Reach-Sound r in looked-seen s.stored.holds (s.each i c q)
