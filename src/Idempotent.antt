-- ===== src/Idempotent.antt =====
-- src/idempotent.rs: the queue with multiplicity (WS-MULT). The owner appends tasks to an array, and the
-- owner and the thieves take from a head that a maximum register keeps; a task's cell is never emptied.
-- `early` and `late` are what other threads do between the loads of the head and of the cell, and between
-- the latter and the writes that follow. An index is below the length of an array in memory, and never
-- wraps.
pub mod Copy
pub mod Wrote
pub mod Calls
pub mod Fifo
pub mod Threads
pub mod Exclusive
pub mod Takers
pub mod Deliver
mod Tests
mod TakerTests
use ws_deque.Base.{
  ℕ, zero, suc, ◌+◌, ◌-◌, ◌*◌, ◌^◌, max, Bool, true, false, not, ◌&&◌, Option, none, some, List, [],
  ◌∷◌, ◌++◌, if◌then◌else◌, leb, ltb, ◌==◌, get_or, get_elem?, set, replicate, length,
}

abbrev pub initial_capacity : ℕ
initial_capacity = 16

pub data Take {ℓ} (A : Type ℓ) : Type ℓ where
  empty : Take A
  got : A → Take A

pub record Tasks {ℓ} (A : Type ℓ) : Type ℓ where
  pub cells : List (Option A)
  pub claimed : List Bool
  pub tasks_len : ℕ

pub record Inner {ℓ} (A : Type ℓ) : Type ℓ where
  pub head : ℕ
  pub tasks : Tasks A
  pub retired : List (Tasks A)
  pub bounded : Bool

pub record IdempotentWorker {ℓ} (A : Type ℓ) : Type ℓ where
  pub inner : Inner A
  pub tail : ℕ
  pub cap : ℕ

module _ {ℓ} {A : Type ℓ} where
  -- `Take::got`
  unfoldable pub got_value : Take A → Option A
  got_value empty = none
  got_value (got v) = some v

  unfoldable pub with_len : ℕ → Tasks A
  with_len n = record { cells = replicate n none; claimed = replicate n false; tasks_len = n }

  unfoldable pub make : ℕ → Bool → IdempotentWorker A
  unfolding with_len
  make n bounded = record {
    inner = record { head = 0; tasks = with_len n; retired = []; bounded = bounded };
    tail = 0;
    cap = 2 ^ 64 - 1;
  }

  -- `IdempotentWorker::new`; 16 is a power of two already.
  unfoldable pub create : IdempotentWorker A
  unfolding make
  create = make initial_capacity false

  -- `IdempotentWorker::bounded`
  unfoldable pub create_bounded : ℕ → IdempotentWorker A
  unfolding make
  create_bounded capacity = record (make (capacity + 2) true) { cap = capacity }

  unfoldable pub capacity : IdempotentWorker A → ℕ
  capacity w = w.inner.tasks.tasks_len

  unfoldable pub retire : Inner A → Tasks A → Inner A
  retire inner old = record inner { retired = old ∷ inner.retired }

  -- The loop of `grow`: `count` cells from `i` on.
  unfoldable pub copy_tasks : ℕ → ℕ → List (Option A) → List (Option A) → List (Option A)
  copy_tasks zero i old bigger = bigger
  copy_tasks (suc count) i old bigger =
      copy_tasks count (i + 1) old (set bigger i (get_or old i none))

  unfoldable pub grow : Inner A → Inner A
  unfolding retire with_len copy_tasks
  grow inner =
      let old = inner.tasks in
      let bigger = with_len (old.tasks_len * 2) in
      let filled = record bigger { cells = copy_tasks old.tasks_len 0 old.cells bigger.cells } in
      retire (record inner { tasks = filled }) old

  unfoldable pub put : IdempotentWorker A → A → Bool × IdempotentWorker A
  put w task =
      if w.inner.bounded && leb w.cap w.tail
      then (false, w)
      else let inner = if leb w.inner.tasks.tasks_len (w.tail + 1) then grow w.inner else w.inner in
        let arr = inner.tasks in
        let cells = set (set arr.cells w.tail (some task)) (w.tail + 1) none in
        (
          true,
          record w {
            inner = record inner { tasks = record arr { cells = cells } };
            tail = w.tail + 1;
          },
        )

  -- `head.fetch_max(x)`
  unfoldable pub fetch_max : Inner A → ℕ → Inner A
  fetch_max inner x = record inner { head = max inner.head x }

  unfoldable pub take :
      (Inner A → Inner A) → (Inner A → Inner A) → IdempotentWorker A → Take A × Inner A
  unfolding fetch_max
  take early late w =
      let head = w.inner.head in
      if leb w.tail head
      then (empty, w.inner)
      else let inner = early w.inner in
        let p = get_or inner.tasks.cells head none in
        elim p [ none ↦ (empty, inner) | some v ↦ (got v, fetch_max (late inner) (head + 1)) ]

  -- A cell past the end of the array reads as an empty one: both make the thief report `Empty`.
  unfoldable pub steal : (Inner A → Inner A) → (Inner A → Inner A) → Inner A → Take A × Inner A
  unfolding fetch_max
  steal early late shared =
      let head = shared.head in
      let inner = early shared in
      let p = get_or inner.tasks.cells head none in
      elim p [ none ↦ (empty, inner) | some v ↦ (got v, fetch_max (late inner) (head + 1)) ]

  -- The array that was installed after `k` others, which is the one that a thief loaded while `k` were
  -- retired; `retired` has the newest first.
  unfoldable pub array_at : Inner A → ℕ → Tasks A
  array_at inner k =
      let n = length inner.retired in
      if k == n then inner.tasks else get_or inner.retired (n - 1 - k) inner.tasks

  unfoldable pub set_array : Inner A → ℕ → Tasks A → Inner A
  set_array inner k arr =
      let n = length inner.retired in
      if k == n
      then record inner { tasks = arr }
      else record inner { retired = set inner.retired (n - 1 - k) arr }

  -- `claims[head].compare_exchange(false, true)` in the array that was installed after `k` others, and
  -- whether it won.
  unfoldable pub claim_flag : Inner A → ℕ → ℕ → Bool × Inner A
  unfolding array_at set_array
  claim_flag inner k head =
      let arr = array_at inner k in
      if get_or arr.claimed head true
      then (false, inner)
      else (true, set_array inner k (record arr { claimed = set arr.claimed head true }))

  -- The claim and what follows it: the head moves on either way.
  unfoldable pub claim : Inner A → ℕ → ℕ → A → Take A × Inner A
  unfolding claim_flag fetch_max
  claim inner k head v =
      let (won, inner') = claim_flag inner k head in
      (if won then got v else empty, fetch_max inner' (head + 1))

  -- `none` is the panic of the debug assertion that the queue is bounded.
  unfoldable pub steal_exclusive :
      (Inner A → Inner A) → (Inner A → Inner A) → Inner A → Option (Take A × Inner A)
  unfolding claim
  steal_exclusive early late shared =
      if not shared.bounded
      then none
      else let head = shared.head in
        let inner = early shared in
        let k = length inner.retired in
        let p = get_or inner.tasks.cells head none in
        some (elim p [ none ↦ (empty, inner) | some v ↦ claim (late inner) k head v ])

  -- `WeakStealer`: the thief's private register is `r`. `rmax_read` returns its new value.
  unfoldable pub rmax_read : Inner A → ℕ → ℕ
  rmax_read inner r = if ltb r inner.head then inner.head else r

  -- `between` is what other threads do between the load and the plain store.
  unfoldable pub rmax_write : (Inner A → Inner A) → Inner A → ℕ → ℕ → ℕ × Inner A
  rmax_write between inner r x =
      let r' = rmax_read inner r in
      let inner' = between inner in
      if ltb r' x then (x, record inner' { head = x }) else (r', inner')

  unfoldable pub steal_weak :
      (Inner A → Inner A)
      → (Inner A → Inner A)
      → (Inner A → Inner A)
      → Inner A
      → ℕ
      → Take A × ℕ × Inner A
  steal_weak early late between shared r =
      let head = rmax_read shared r in
      let inner = early shared in
      let p = get_or inner.tasks.cells head none in
      elim p [
        | none ↦ (empty, head, inner)
        | some v ↦
            let (r', inner') = rmax_write between (late inner) head (head + 1) in
            (got v, r', inner')
      ]

  -- `Drop`: the tasks of the active array's cells that are not empty are freed; the retired arrays are
  -- freed without theirs.
  unfoldable pub drop_cells : List (Option A) → List A
  drop_cells [] = []
  drop_cells (none ∷ cells) = drop_cells cells
  drop_cells (some v ∷ cells) = v ∷ drop_cells cells

  unfoldable pub drop_inner : Inner A → List A
  unfolding drop_cells
  drop_inner inner = drop_cells inner.tasks.cells
