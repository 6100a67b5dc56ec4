-- ===== src/Idempotent/Fifo.antt =====
-- The operations of src/idempotent.rs one after another: whichever way tasks are taken, the queue is
-- first in, first out, and hands out each task once.
use ws_deque.Base.{
  ℕ, ◌+◌, ◌≤◌, ◌<◌, ◌≡◌, refl, sym, ap, ◌∙◌, Bool, true, false, ◌&&◌, none, some, List, [], ◌∷◌,
  ◌++◌, if◌then◌else◌, leb, get_elem?, length, arith, Bool-cases, inl, inr, length-append,
  append_assoc,
}
use mathlib.Core.Path.{subst, ap₂}
use ws_deque.Idempotent.{IdempotentWorker, Take, empty, got, put}
use ws_deque.Idempotent.Wrote.{Wrote, full, put-refused, Stored, put-Stored}
use ws_deque.Idempotent.Calls.{Way, call, allowed, Answered, call-next, call-empty, call-panics}

-- What a caller may ask for, and what it hears.
pub data Op {ℓ} (A : Type ℓ) : Type ℓ where
  put_op : A → Op A
  take_op : Way → Op A

pub data Reply {ℓ} (A : Type ℓ) : Type ℓ where
  accepted : Bool → Reply A
  taken : Take A → Reply A
  panicked : Reply A

module _ {ℓ} {A : Type ℓ} where
  -- A panic ends the run.
  unfoldable pub run : IdempotentWorker A → ℕ → List (Op A) → List (Reply A)
  run w r [] = []
  run w r (put_op v ∷ ops) = let (done, w') = put w v in accepted done ∷ run w' r ops
  run w r (take_op way ∷ ops) = elim (call way w r) [
    | none ↦ panicked ∷ []
    | some (t, r', w') ↦ taken t ∷ run w' r' ops
  ]

  -- The queue that the callers see: it holds `xs`, took `n` tasks in all, and takes at most `cap` if it
  -- is bounded; one that is not panics at an exclusive steal.
  unfoldable pub run_fifo : Bool → ℕ → ℕ → List A → List (Op A) → List (Reply A)
  run_fifo bounded cap n xs [] = []
  run_fifo bounded cap n xs (put_op v ∷ ops) =
      let refused = run_fifo bounded cap n xs ops in
      let grown = run_fifo bounded cap (n + 1) (xs ++ v ∷ []) ops in
      if bounded && leb cap n then accepted false ∷ refused else accepted true ∷ grown
  run_fifo bounded cap n [] (take_op way ∷ ops) =
      let later = run_fifo bounded cap n [] ops in
      if allowed bounded way then taken empty ∷ later else panicked ∷ []
  run_fifo bounded cap n (x ∷ xs) (take_op way ∷ ops) =
      let later = run_fifo bounded cap n xs ops in
      if allowed bounded way then taken (got x) ∷ later else panicked ∷ []

  -- The tasks taken so far are the first ones put, and the rest wait.
  pub record Waiting (w : IdempotentWorker A) (r : ℕ) (past xs : List A) : Type ℓ where
    pub wrote : Wrote w (past ++ xs)
    pub head : w.inner.head ≡ length past
    pub register : r ≤ w.inner.head

  get_elem?-past :
      (past : List A) (x : A) (xs : List A) → get_elem? (past ++ x ∷ xs) (length past) ≡ some x
  get_elem?-past [] x xs = refl
  get_elem?-past (p ∷ past) x xs = get_elem?-past past x xs

  call-Waiting :
      (way : Way) {w : IdempotentWorker A} {r : ℕ} (past : List A) (x : A) (xs : List A)
      → Waiting w r past (x ∷ xs)
      → allowed w.inner.bounded way ≡ true
      → Answered w (past ++ x ∷ xs) (got x) (w.inner.head + 1) (call way w r)
  call-Waiting way {w} past x xs k b =
      let o = k.wrote in
      let more : w.inner.head < w.tail =
        omega (arith, o.tail_puts, k.head, length-append past (x ∷ xs)) in
      call-next way o k.register more
        (ap (get_elem? (past ++ x ∷ xs)) k.head ∙ get_elem?-past past x xs) b

  none-Waiting :
      (way : Way) {w : IdempotentWorker A} {r : ℕ} (past : List A)
      → Waiting w r past []
      → allowed w.inner.bounded way ≡ true
      → Answered w (past ++ []) empty w.inner.head (call way w r)
  none-Waiting way {w} past k b =
      let o = k.wrote in
      call-empty way o k.register (omega (arith, o.tail_puts, k.head, length-append past [])) b

  run_fifo-same :
      {b b' : Bool} {c c' n n' : ℕ}
      → b ≡ b'
      → c ≡ c'
      → n ≡ n'
      → (xs : List A) (ops : List (Op A)) → run_fifo b c n xs ops ≡ run_fifo b' c' n' xs ops
  run_fifo-same p q s xs ops = λ i. run_fifo (p i) (q i) (s i) xs ops

  module _ {w w' : IdempotentWorker A} {r : ℕ} {past xs : List A} (v : A) (k : Waiting w r past xs)
      (s : Stored w ((past ++ xs) ++ v ∷ []) w') where
    stored-Waiting : Waiting w' r past (xs ++ v ∷ [])
    stored-Waiting = record {
      wrote = subst (Wrote w') (append_assoc past xs (v ∷ [])) s.wrote;
      head = s.same_head ∙ k.head;
      register = omega (arith, s.same_head, k.register);
    }

    stored-tail : w'.tail ≡ w.tail + 1
    stored-tail =
        omega (arith, s.wrote.tail_puts, k.wrote.tail_puts, length-append (past ++ xs) (v ∷ []))

  run-answered :
      (way : Way) (w : IdempotentWorker A) (r : ℕ) (ops : List (Op A))
      {out : Take A × ℕ × IdempotentWorker A}
      → call way w r ≡ some out
      → run w r (take_op way ∷ ops) ≡ taken out.0 ∷ run out.2 out.1 ops
  unfolding run
  run-answered way w r ops e = rw (e, run) refl

  run-panicked :
      (way : Way) (w : IdempotentWorker A) (r : ℕ) (ops : List (Op A))
      → call way w r ≡ none
      → run w r (take_op way ∷ ops) ≡ panicked ∷ []
  unfolding run
  run-panicked way w r ops e = rw (e, run) refl

  -- Whatever is put and in whichever ways tasks are taken, one call after another, the callers see a
  -- queue that is first in, first out: each task comes out once and in order, through every growth, and
  -- a bounded queue accepts as many tasks in all as its capacity. An exclusive steal from a queue that may
  -- grow panics, by the debug assertion, and ends the run. The queue may start anywhere: with tasks `past` taken, `xs` waiting, and a weak thief that is not ahead of the head.
  pub run-fifo :
      (ops : List (Op A)) {w : IdempotentWorker A} {r : ℕ} (past xs : List A)
      → Waiting w r past xs
      → run w r ops ≡ run_fifo w.inner.bounded w.cap w.tail xs ops
  unfolding run run_fifo
  run-fifo [] past xs k = refl
  run-fifo (put_op v ∷ ops) {w} {r} past xs k = elim (Bool-cases (full w)) [
    | inl f ↦
        let e : put w v ≡ (false, w) = put-refused v f in
        rw (e, f) (ap (λ l. accepted false ∷ l) (run-fifo ops past xs k))
    | inr f ↦
        let (done, s) = put-Stored v k.wrote f in
        rw f (
          ap₂ (λ b l. accepted b ∷ l) done
            (run-fifo ops past (xs ++ v ∷ []) (stored-Waiting v k s)
              ∙ run_fifo-same s.same_bounded s.same_cap (stored-tail v k s) (xs ++ v ∷ []) ops))
  ]
  run-fifo (take_op way ∷ ops) {w} {r} past [] k = elim (Bool-cases (allowed w.inner.bounded way)) [
    | inr b ↦ run-panicked way w r ops (call-panics way w r b) ∙ rw b refl
    | inl b ↦
        let a = none-Waiting way past k b in
        let s = a.served in
        let same_tail = s.wrote.tail_puts ∙ sym k.wrote.tail_puts in
        let k' : Waiting a.out.2 a.out.1 past [] = record {
          wrote = s.wrote;
          head = s.head ∙ k.head;
          register = omega (arith, s.register, s.head);
        } in
        run-answered way w r ops a.same
        ∙ rw b (
            ap₂ (λ t l. taken t ∷ l) s.reply
              (run-fifo ops past [] k' ∙ run_fifo-same s.same_bounded s.same_cap same_tail [] ops))
  ]
  run-fifo (take_op way ∷ ops) {w} {r} past (x ∷ xs) k =
      elim (Bool-cases (allowed w.inner.bounded way)) [
        | inr b ↦ run-panicked way w r ops (call-panics way w r b) ∙ rw b refl
        | inl b ↦
            let a = call-Waiting way past x xs k b in
            let s = a.served in
            let same_tail = s.wrote.tail_puts ∙ sym k.wrote.tail_puts in
            let k' : Waiting a.out.2 a.out.1 (past ++ x ∷ []) xs = record {
              wrote = subst (Wrote a.out.2) (sym (append_assoc past (x ∷ []) xs)) s.wrote;
              head = omega (arith, s.head, k.head, length-append past (x ∷ []));
              register = omega (arith, s.register, s.head);
            } in
            run-answered way w r ops a.same
            ∙ rw b (
                ap₂ (λ t l. taken t ∷ l) s.reply
                  (run-fifo ops (past ++ x ∷ []) xs k'
                    ∙ run_fifo-same s.same_bounded s.same_cap same_tail xs ops))
      ]
