-- ===== src/Idempotent/Wrote.antt =====
-- `put` of src/idempotent.rs: what the array holds after any number of puts, growth included.
use ws_deque.Base.{
  ℕ, suc, ◌+◌, ◌*◌, ◌≤◌, ◌<◌, ◌≡◌, refl, sym, ap, ◌∙◌, Bool, true, false, ◌&&◌, Option, none, some,
  List, [], ◌∷◌, ◌++◌, if◌then◌else◌, leb, ltb, get_or, get_elem?, set, replicate, length, arith,
  length-set, length-append, length-replicate, get_elem?_of_ge,
}
use mathlib.Core.Path.{ap₂}
use native.Mathlib.Decide.{dec_lt}
use ws_deque.Idempotent.{Inner, IdempotentWorker, with_len, grow, put, make, drop_cells, drop_inner}
use ws_deque.Idempotent.Copy.{
  get_or-replicate, replicate-false, length-copy_tasks, copy_tasks-at, written-held,
}

module _ {ℓ} {A : Type ℓ} where
  -- The array holds the tasks put so far, each in its cell for ever, and every other cell is empty.
  pub record Wrote (w : IdempotentWorker A) (puts : List A) : Type ℓ where
    pub tail_puts : w.tail ≡ length puts
    pub head_tail : w.inner.head ≤ w.tail
    pub room : w.tail < w.inner.tasks.tasks_len
    pub cells_len : length w.inner.tasks.cells ≡ w.inner.tasks.tasks_len
    pub claimed_len : length w.inner.tasks.claimed ≡ w.inner.tasks.tasks_len
    pub bound : w.inner.bounded ≡ true → w.cap + 2 ≤ w.inner.tasks.tasks_len
    pub held : (i : ℕ) → get_or w.inner.tasks.cells i none ≡ get_elem? puts i
    pub unclaimed :
        (i : ℕ)
        → w.inner.head ≤ i
        → i < w.inner.tasks.tasks_len
        → get_or w.inner.tasks.claimed i true ≡ false

  -- A larger array holds the same tasks.
  grow-held :
      {w : IdempotentWorker A} {puts : List A}
      → Wrote w puts
      → (i : ℕ) → get_or (grow w.inner).tasks.cells i none ≡ get_elem? puts i
  unfolding grow with_len
  grow-held {w} {puts} o i =
      let n = w.inner.tasks.tasks_len in
      let old = w.inner.tasks.cells in
      let room : 0 + n ≤ length (replicate {A = Option A} (n * 2) none) =
        omega (arith, length-replicate {A = Option A} (n * 2) none) in
      copy_tasks-at n 0 old (replicate (n * 2) none) i room ∙ elim (dec_lt i n) [
        | yes inside ↦ let e : (leb 0 i && ltb i (0 + n)) ≡ true = ground arith in rw e (o.held i)
        | no outside ↦
            let e : (leb 0 i && ltb i (0 + n)) ≡ false = ground arith in
            rw e (
              get_or-replicate {A = Option A} (n * 2) i none
              ∙ sym (get_elem?_of_ge puts i (omega (arith, o.tail_puts, o.room))))
      ]

  -- The array that `put` writes to.
  abbrev ready : IdempotentWorker A → Inner A
  ready w = if leb w.inner.tasks.tasks_len (w.tail + 1) then grow w.inner else w.inner

  -- What holds of the state between the growth and the writes.
  record Ready (w : IdempotentWorker A) (inner : Inner A) (puts : List A) : Type ℓ where
    same_head : inner.head ≡ w.inner.head
    same_bounded : inner.bounded ≡ w.inner.bounded
    wide : w.tail + 1 < inner.tasks.tasks_len
    cells_len : length inner.tasks.cells ≡ inner.tasks.tasks_len
    claimed_len : length inner.tasks.claimed ≡ inner.tasks.tasks_len
    bound : inner.bounded ≡ true → w.cap + 2 ≤ inner.tasks.tasks_len
    held : (i : ℕ) → get_or inner.tasks.cells i none ≡ get_elem? puts i
    unclaimed :
        (i : ℕ)
        → inner.head ≤ i
        → i < inner.tasks.tasks_len
        → get_or inner.tasks.claimed i true ≡ false

  grow-Ready :
      {w : IdempotentWorker A} {puts : List A}
      → Wrote w puts
      → w.inner.tasks.tasks_len ≤ w.tail + 1
      → Ready w (grow w.inner) puts
  unfolding grow with_len
  grow-Ready {w} {puts} o narrow =
      let n = w.inner.tasks.tasks_len in
      record {
        same_head = refl;
        same_bounded = refl;
        wide = omega (arith, o.room);
        cells_len =
            length-copy_tasks n 0 w.inner.tasks.cells (replicate (n * 2) none)
            ∙ length-replicate (n * 2) none;
        claimed_len = length-replicate (n * 2) false;
        bound = λ b. omega (arith, o.bound b);
        held = grow-held o;
        unclaimed = λ i _ h. replicate-false (n * 2) i h;
      }

  ready-Ready : {w : IdempotentWorker A} {puts : List A} → Wrote w puts → Ready w (ready w) puts
  ready-Ready {w} {puts} o = elim (dec_lt (w.tail + 1) w.inner.tasks.tasks_len) [
    | yes wide ↦
        let e : ready w ≡ w.inner = ground arith in
        rw e (record {
          same_head = refl;
          same_bounded = refl;
          wide = wide;
          cells_len = o.cells_len;
          claimed_len = o.claimed_len;
          bound = o.bound;
          held = o.held;
          unclaimed = o.unclaimed;
        })
    | no narrow ↦ let e : ready w ≡ grow w.inner = ground arith in rw e (grow-Ready o (omega arith))
  ]

  abbrev pub full : IdempotentWorker A → Bool
  full w = w.inner.bounded && leb w.cap w.tail

  pub put-refused : {w : IdempotentWorker A} (v : A) → full w ≡ true → put w v ≡ (false, w)
  unfolding put
  put-refused v f = rw f refl

  -- What `put` leaves: the array with `puts`, and the rest as it was.
  pub record Stored (w : IdempotentWorker A) (puts : List A) (w' : IdempotentWorker A)
      : Type ℓ where
    pub wrote : Wrote w' puts
    pub same_head : w'.inner.head ≡ w.inner.head
    pub same_bounded : w'.inner.bounded ≡ w.inner.bounded
    pub same_cap : w'.cap ≡ w.cap

  -- A `put` that the bound does not refuse accepts the task and appends it, growing the array if it has
  -- to, and leaves the head, the bound and the capacity alone.
  pub put-Stored :
      {w : IdempotentWorker A} {puts : List A} (v : A)
      → Wrote w puts
      → full w ≡ false
      → ((put w v).0 ≡ true) × Stored w (puts ++ v ∷ []) (put w v).1
  unfolding put
  put-Stored {w} {puts} v o f = rw f (
    refl,
    record {
      wrote = appended;
      same_head = r.same_head;
      same_bounded = r.same_bounded;
      same_cap = refl;
    },
  )
    where
      r : Ready w (ready w) puts
      r = ready-Ready o

      appended :
          Wrote
            (record w {
              inner = record (ready w) {
                tasks = record (ready w).tasks {
                  cells = set (set (ready w).tasks.cells w.tail (some v)) (w.tail + 1) none;
                };
              };
              tail = w.tail + 1;
            })
            (puts ++ v ∷ [])
      appended =
          let c = (ready w).tasks.cells in
          let h : length puts + 1 < length c = omega (arith, r.wide, r.cells_len, o.tail_puts) in
          record {
            tail_puts = omega (arith, length-append puts (v ∷ []), o.tail_puts);
            head_tail = omega (arith, r.same_head, o.head_tail);
            room = r.wide;
            cells_len =
                length-set (set c w.tail (some v)) (w.tail + 1) none
                ∙ length-set c w.tail (some v)
                ∙ r.cells_len;
            claimed_len = r.claimed_len;
            bound = r.bound;
            held = λ i.
                ap (λ t. get_or (set (set c t (some v)) (t + 1) none) i none) o.tail_puts
                ∙ written-held c puts v h r.held i;
            unclaimed = r.unclaimed;
          }

  -- A new queue.
  pub make-Wrote :
      (n : ℕ) (b : Bool) (c : ℕ)
      → 0 < n
      → (b ≡ true → c + 2 ≤ n)
      → Wrote (record (make n b) { cap = c }) []
  unfolding make with_len
  make-Wrote n b c some_room bounded = record {
    tail_puts = refl;
    head_tail = omega arith;
    room = some_room;
    cells_len = length-replicate {A = Option A} n none;
    claimed_len = length-replicate n false;
    bound = bounded;
    held = λ i. get_or-replicate {A = Option A} n i none;
    unclaimed = λ i _ h. replicate-false n i h;
  }

  drop_cells-held :
      (cells : List (Option A)) (puts : List A)
      → length puts ≤ length cells
      → ((i : ℕ) → get_or cells i none ≡ get_elem? puts i)
      → drop_cells cells ≡ puts
  unfolding drop_cells
  drop_cells-held [] [] h held = refl
  drop_cells-held [] (v ∷ puts) h held = absurd (omega arith)
  drop_cells-held (none ∷ cells) [] h held =
      drop_cells-held cells [] (omega arith) (λ i. held (suc i))
  drop_cells-held (none ∷ cells) (v ∷ puts) h held = let e = held 0 in absurd (cc)
  drop_cells-held (some u ∷ cells) [] h held = let e = held 0 in absurd (cc)
  drop_cells-held (some u ∷ cells) (v ∷ puts) h held =
      let e = held 0 in
      let same : u ≡ v = cc in
      ap₂ (λ x xs. x ∷ xs) same (drop_cells-held cells puts (omega arith) (λ i. held (suc i)))

  -- Dropping the queue frees every task that was put, each once, taken or not.
  pub drop_inner-Wrote :
      {w : IdempotentWorker A} {puts : List A} → Wrote w puts → drop_inner w.inner ≡ puts
  unfolding drop_inner
  drop_inner-Wrote {w} {puts} o =
      drop_cells-held w.inner.tasks.cells puts (omega (arith, o.tail_puts, o.room, o.cells_len))
        o.held
