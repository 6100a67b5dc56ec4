-- ===== src/Idempotent/Calls.antt =====
-- The four ways in which src/idempotent.rs takes a task, without interference: the task at the head is
-- handed out, and the head moves past it.
use ws_deque.Base.{
  ℕ, ◌+◌, ◌≤◌, ◌<◌, ◌≡◌, refl, ap, ◌∙◌, Bool, true, false, max, Option, none, some, List, ltb,
  get_or, get_elem?, set, arith, if◌then◌else◌, length-set, get_or-set_ne, get_elem?_of_ge, length,
}
use ws_deque.Idempotent
use ws_deque.Idempotent.{
  Tasks, Inner, IdempotentWorker, Take, empty, got, fetch_max, put, steal, steal_exclusive,
  steal_weak, claim, claim_flag, array_at, set_array, rmax_read, rmax_write,
}
use ws_deque.Idempotent.Wrote.{Wrote}

-- The four ways to take a task.
pub data Way : Type 0 where
  by_take : Way
  by_steal : Way
  by_exclusive : Way
  by_weak : Way

-- Whether the debug assertion lets a call through.
unfoldable pub allowed : Bool → Way → Bool
allowed bounded by_take = true
allowed bounded by_steal = true
allowed bounded by_exclusive = bounded
allowed bounded by_weak = true

max-next : (h : ℕ) → max h (h + 1) ≡ h + 1
max-next h = omega arith

module _ {ℓ} {A : Type ℓ} where
  abbrev pub alone : Inner A → Inner A
  alone inner = inner

  -- A call without interference; `none` is a panic; `r` is the register of the weak thief.
  unfoldable pub call : Way → IdempotentWorker A → ℕ → Option (Take A × ℕ × IdempotentWorker A)
  call by_take w r =
      let (t, inner) = Idempotent.take alone alone w in some (t, r, record w { inner = inner })
  call by_steal w r =
      let (t, inner) = steal alone alone w.inner in some (t, r, record w { inner = inner })
  call by_exclusive w r = elim (steal_exclusive alone alone w.inner) [
    | none ↦ none
    | some (t, inner) ↦ some (t, r, record w { inner = inner })
  ]
  call by_weak w r =
      let (t, r', inner) = steal_weak alone alone alone w.inner r in
      some (t, r', record w { inner = inner })

  -- A call that returns `t` leaves the tasks as they are and the head at `h`.
  pub record Served (w : IdempotentWorker A) (puts : List A) (t : Take A) (h : ℕ)
      (out : Take A × ℕ × IdempotentWorker A) : Type ℓ where
    pub reply : out.0 ≡ t
    pub wrote : Wrote out.2 puts
    pub head : out.2.inner.head ≡ h
    pub register : out.1 ≤ h
    pub same_bounded : out.2.inner.bounded ≡ w.inner.bounded
    pub same_cap : out.2.cap ≡ w.cap

  -- A call does not panic.
  pub record Answered (w : IdempotentWorker A) (puts : List A) (t : Take A) (h : ℕ)
      (o : Option (Take A × ℕ × IdempotentWorker A)) : Type ℓ where
    pub out : Take A × ℕ × IdempotentWorker A
    pub same : o ≡ some out
    pub served : Served w puts t h out

  Served-Answered :
      {w : IdempotentWorker A} {puts : List A} {t : Take A} {h : ℕ}
      {out : Take A × ℕ × IdempotentWorker A}
      → Served w puts t h out
      → Answered w puts t h (some out)
  Served-Answered {out = out} s = record { out = out; same = refl; served = s }

  -- Moving the head past a task.
  past-Wrote :
      {w : IdempotentWorker A} {puts : List A}
      → Wrote w puts
      → w.inner.head < w.tail
      → Wrote (record w { inner = record w.inner { head = w.inner.head + 1 } }) puts
  past-Wrote o more = record {
    tail_puts = o.tail_puts;
    head_tail = omega arith;
    room = o.room;
    cells_len = o.cells_len;
    claimed_len = o.claimed_len;
    bound = o.bound;
    held = o.held;
    unclaimed = λ i h k. o.unclaimed i (omega arith) k;
  }

  -- Claiming the task at the head and moving past it.
  claimed-Wrote :
      {w : IdempotentWorker A} {puts : List A}
      → Wrote w puts
      → w.inner.head < w.tail
      → Wrote
          (record w {
            inner = record w.inner {
              head = w.inner.head + 1;
              tasks = record w.inner.tasks {
                claimed = set w.inner.tasks.claimed w.inner.head true;
              };
            };
          })
          puts
  claimed-Wrote {w} o more = record {
    tail_puts = o.tail_puts;
    head_tail = omega arith;
    room = o.room;
    cells_len = o.cells_len;
    claimed_len = length-set w.inner.tasks.claimed w.inner.head true ∙ o.claimed_len;
    bound = o.bound;
    held = o.held;
    unclaimed = λ i h k.
        get_or-set_ne w.inner.tasks.claimed w.inner.head i true true (λ e. omega arith)
        ∙ o.unclaimed i (omega arith) k;
  }

  past-Served :
      {w : IdempotentWorker A} {puts : List A} {r : ℕ} (x : A)
      → Wrote w puts
      → w.inner.head < w.tail
      → r ≤ w.inner.head + 1
      → Served w puts
          (got x)
          (w.inner.head + 1)
          (got x, r, record w { inner = record w.inner { head = w.inner.head + 1 } })
  past-Served x o more behind = record {
    reply = refl;
    wrote = past-Wrote o more;
    head = refl;
    register = behind;
    same_bounded = refl;
    same_cap = refl;
  }

  rmax_read-behind : (inner : Inner A) (r : ℕ) → r ≤ inner.head → rmax_read inner r ≡ inner.head
  unfolding rmax_read
  rmax_read-behind inner r behind = ground arith

  rmax_write-next :
      (inner : Inner A)
      → rmax_write alone inner inner.head (inner.head + 1)
        ≡ (inner.head + 1, record inner { head = inner.head + 1 })
  unfolding rmax_write
  rmax_write-next inner =
      let e = rmax_read-behind inner inner.head (omega arith) in
      let t : ltb inner.head (inner.head + 1) ≡ true = ground arith in rw (e, t) refl

  steal_weak-some :
      (inner : Inner A) (r h : ℕ) (x : A)
      → rmax_read inner r ≡ h
      → get_or inner.tasks.cells h none ≡ some x
      → steal_weak alone alone alone inner r
        ≡ (got x, (rmax_write alone inner h (h + 1)).0, (rmax_write alone inner h (h + 1)).1)
  unfolding steal_weak
  steal_weak-some inner r h x m p =
      ground (arith, ap (λ k. get_or inner.tasks.cells k none) m, cong_write)
    where
      cong_write :
          rmax_write alone inner (rmax_read inner r) (rmax_read inner r + 1)
          ≡ rmax_write alone inner h (h + 1)
      cong_write = ap (λ k. rmax_write alone inner k (k + 1)) m

  steal_weak-none :
      (inner : Inner A) (r h : ℕ)
      → rmax_read inner r ≡ h
      → get_or inner.tasks.cells h none ≡ none
      → steal_weak alone alone alone inner r ≡ (empty, h, inner)
  unfolding steal_weak
  steal_weak-none inner r h m p = ground (arith, ap (λ k. get_or inner.tasks.cells k none) m)

  current-array : (inner : Inner A) → array_at inner (length inner.retired) ≡ inner.tasks
  unfolding array_at
  current-array inner = ground arith

  set-current :
      (inner : Inner A) (arr : Tasks A)
      → set_array inner (length inner.retired) arr ≡ record inner { tasks = arr }
  unfolding set_array
  set-current inner arr = ground arith

  pub claim_flag-current :
      (inner : Inner A) (h : ℕ)
      → claim_flag inner (length inner.retired) h ≡ (
          if get_or inner.tasks.claimed h true then (false, inner) else (
            true,
            record inner {
              tasks = record inner.tasks { claimed = set inner.tasks.claimed h true };
            },
          ))
  unfolding claim_flag
  claim_flag-current inner h = rw (current-array inner, set-current inner _) refl

  steal_exclusive-empty :
      (inner : Inner A)
      → inner.bounded ≡ true
      → get_or inner.tasks.cells inner.head none ≡ none
      → steal_exclusive alone alone inner ≡ some (empty, inner)
  unfolding steal_exclusive
  steal_exclusive-empty inner b p = ground arith

  -- A claim in the current array.
  steal_exclusive-next :
      (inner : Inner A) {x : A}
      → inner.bounded ≡ true
      → get_or inner.tasks.cells inner.head none ≡ some x
      → get_or inner.tasks.claimed inner.head true ≡ false
      → steal_exclusive alone alone inner
        ≡ some (
          got x,
          record inner {
            head = inner.head + 1;
            tasks = record inner.tasks { claimed = set inner.tasks.claimed inner.head true };
          },
        )
  unfolding steal_exclusive claim fetch_max
  steal_exclusive-next inner b p f =
      let e : claim_flag inner (length inner.retired) inner.head ≡ (
        true,
        record inner {
          tasks = record inner.tasks { claimed = set inner.tasks.claimed inner.head true };
        },
      ) =
        rw (claim_flag-current inner inner.head, f) refl in
      ground (arith, e, max-next inner.head)

  -- Whichever way it is called for, the task at the head is handed out, and the head moves past it.
  pub call-next :
      (way : Way) {w : IdempotentWorker A} {puts : List A} {r : ℕ} {x : A}
      → Wrote w puts
      → r ≤ w.inner.head
      → w.inner.head < w.tail
      → get_elem? puts w.inner.head ≡ some x
      → allowed w.inner.bounded way ≡ true
      → Answered w puts (got x) (w.inner.head + 1) (call way w r)
  unfolding call Idempotent.take steal allowed
  call-next by_take {w} {puts} {r} {x} o behind more e b =
      let p = o.held w.inner.head ∙ e in
      let c : Idempotent.take alone alone w ≡ (got x, record w.inner { head = w.inner.head + 1 }) =
        ground (arith, max-next w.inner.head) in
      rw c (Served-Answered (past-Served x o more (omega arith)))
  call-next by_steal {w} {puts} {r} {x} o behind more e b =
      let p = o.held w.inner.head ∙ e in
      let c : steal alone alone w.inner ≡ (got x, record w.inner { head = w.inner.head + 1 }) =
        ground (arith, max-next w.inner.head) in
      rw c (Served-Answered (past-Served x o more (omega arith)))
  call-next by_exclusive {w} {puts} {r} {x} o behind more e b =
      let p = o.held w.inner.head ∙ e in
      let f = o.unclaimed w.inner.head (omega arith) (omega (arith, o.room)) in
      let after = record w.inner {
        head = w.inner.head + 1;
        tasks = record w.inner.tasks { claimed = set w.inner.tasks.claimed w.inner.head true };
      } in
      let c : steal_exclusive alone alone w.inner ≡ some (got x, after) =
        steal_exclusive-next w.inner b p f in
      rw (c, call)
        (Served-Answered (record {
          reply = refl;
          wrote = claimed-Wrote o more;
          head = refl;
          register = omega arith;
          same_bounded = refl;
          same_cap = refl;
        }))
  call-next by_weak {w} {puts} {r} {x} o behind more e b =
      let p = o.held w.inner.head ∙ e in
      let m = rmax_read-behind w.inner r behind in
      let n = rmax_write-next w.inner in
      let c : steal_weak alone alone alone w.inner r
          ≡ (got x, w.inner.head + 1, record w.inner { head = w.inner.head + 1 }) =
        steal_weak-some w.inner r w.inner.head x m p ∙ ap (λ k. (got x, k.0, k.1)) n in
      rw c (Served-Answered (past-Served x o more (omega arith)))

  still-Served :
      {w : IdempotentWorker A} {puts : List A} {r : ℕ}
      → Wrote w puts
      → r ≤ w.inner.head
      → Served w puts empty w.inner.head (empty, r, w)
  still-Served o behind = record {
    reply = refl;
    wrote = o;
    head = refl;
    register = behind;
    same_bounded = refl;
    same_cap = refl;
  }

  none-left :
      {w : IdempotentWorker A} {puts : List A}
      → Wrote w puts
      → w.inner.head ≡ w.tail
      → get_or w.inner.tasks.cells w.inner.head none ≡ none
  none-left {w} {puts} o all =
      o.held w.inner.head ∙ get_elem?_of_ge puts w.inner.head (omega (arith, o.tail_puts))

  -- With no task left a call reports that, and changes nothing.
  pub call-empty :
      (way : Way) {w : IdempotentWorker A} {puts : List A} {r : ℕ}
      → Wrote w puts
      → r ≤ w.inner.head
      → w.inner.head ≡ w.tail
      → allowed w.inner.bounded way ≡ true
      → Answered w puts empty w.inner.head (call way w r)
  unfolding call Idempotent.take steal allowed
  call-empty by_take {w} {puts} {r} o behind all b =
      let p = none-left o all in
      let c : Idempotent.take alone alone w ≡ (empty, w.inner) = ground arith in
      rw c (Served-Answered (still-Served o behind))
  call-empty by_steal {w} {puts} {r} o behind all b =
      let p = none-left o all in
      let c : steal alone alone w.inner ≡ (empty, w.inner) = ground arith in
      rw c (Served-Answered (still-Served o behind))
  call-empty by_exclusive {w} {puts} {r} o behind all b =
      let p = none-left o all in
      let c : steal_exclusive alone alone w.inner ≡ some (empty, w.inner) =
        steal_exclusive-empty w.inner b p in
      rw (c, call) (Served-Answered (still-Served o behind))
  call-empty by_weak {w} {puts} {r} o behind all b =
      let p = none-left o all in
      let m = rmax_read-behind w.inner r behind in
      let c : steal_weak alone alone alone w.inner r ≡ (empty, w.inner.head, w.inner) =
        steal_weak-none w.inner r w.inner.head m p in
      rw c (Served-Answered (still-Served o (omega arith)))

  -- An exclusive steal from a queue that may grow panics.
  pub call-panics :
      (way : Way) (w : IdempotentWorker A) (r : ℕ)
      → allowed w.inner.bounded way ≡ false
      → call way w r ≡ none
  unfolding call steal_exclusive allowed
  call-panics by_take w r b = absurd (cc)
  call-panics by_steal w r b = absurd (cc)
  call-panics by_exclusive w r b = rw b refl
  call-panics by_weak w r b = absurd (cc)
