-- ===== src/Idempotent/Threads.antt =====
-- src/idempotent.rs: any number of exclusive thieves at work at once, beside the owner and others that move
-- the head. A call of `steal_exclusive` is four steps: the load of the head, the loads of the array and of
-- the cell, the claim, and the update of the head.
use ws_deque.Base.{
  ℕ, ◌+◌, ◌≡◌, Option, none, some, List, [], ◌∷◌, if◌then◌else◌, ◌==◌, get_or, get_elem?, set,
  length,
}
use ws_deque.Distributed.Weight.{total}
use ws_deque.Idempotent.{Inner, IdempotentWorker, create_bounded, put, claim_flag, fetch_max}

-- Where a thief is in `steal_exclusive`: it loaded the head; it loaded the `k`-th array and read a task in the
-- cell of the head; it claimed the flag, with the task if it won.
pub data Pc {ℓ} (A : Type ℓ) : Type ℓ where
  idle : Pc A
  loaded : ℕ → Pc A
  holding : ℕ → ℕ → A → Pc A
  moving : ℕ → Option A → Pc A

-- A thief, with the tasks that its calls returned and their indices.
pub record Thief {ℓ} (A : Type ℓ) : Type ℓ where
  pub pc : Pc A
  pub returned : List (ℕ × A)

pub record System {ℓ} (A : Type ℓ) : Type ℓ where
  pub worker : IdempotentWorker A
  pub thieves : List (Thief A)

module _ {ℓ} {A : Type ℓ} where
  abbrev pub fresh_thief : Thief A
  fresh_thief = record { pc = idle; returned = [] }

  -- What the call returns, if the claim was won.
  unfoldable pub returns : ℕ → Option A → List (ℕ × A) → List (ℕ × A)
  returns h none past = past
  returns h (some v) past = (h, v) ∷ past

  -- A step of a thief on a bounded queue, where the debug assertion holds.
  unfoldable pub exclusive_step : Inner A → Thief A → Inner A × Thief A
  unfolding returns
  exclusive_step inner t = elim t.pc [
    | idle ↦ (inner, record t { pc = loaded inner.head })
    | loaded h ↦ elim (get_or inner.tasks.cells h none) [
      | none ↦ (inner, record t { pc = idle })
      | some v ↦ (inner, record t { pc = holding h (length inner.retired) v })
    ]
    | holding h k v ↦
        let (won, inner') = claim_flag inner k h in
        (inner', record t { pc = moving h (if won then some v else none) })
    | moving h r ↦
        (fetch_max inner (h + 1), record { pc = idle; returned = returns h r t.returned })
  ]

  -- The states that a bounded queue reaches. The owner's takes, the other thieves and the plain store of a weak
  -- one move the head, here to any index; they write nothing else.
  pub data Reach (limit : ℕ) : System A → Type ℓ where
    start : Reach limit (record { worker = create_bounded limit; thieves = [] })
    puts :
        {sys : System A} (v : A)
        → Reach limit sys
        → Reach limit (record sys { worker = (put sys.worker v).1 })
    moves :
        {sys : System A} (h : ℕ)
        → Reach limit sys
        → Reach limit (record sys {
          worker = record sys.worker { inner = record sys.worker.inner { head = h } };
        })
    clones :
        {sys : System A}
        → Reach limit sys
        → Reach limit (record sys { thieves = fresh_thief ∷ sys.thieves })
    steps :
        {sys : System A} (i : ℕ) (t : Thief A)
        → Reach limit sys
        → get_elem? sys.thieves i ≡ some t
        → Reach limit (record {
          worker = record sys.worker { inner = (exclusive_step sys.worker.inner t).0 };
          thieves = set sys.thieves i (exclusive_step sys.worker.inner t).1;
        })

  -- How often the task at index `h` was returned, or was claimed and is about to be.
  unfoldable pub times_in : ℕ → List (ℕ × A) → ℕ
  times_in h [] = 0
  times_in h ((k, v) ∷ past) = (if k == h then 1 else 0) + times_in h past

  unfoldable pub times_pc : ℕ → Pc A → ℕ
  times_pc h idle = 0
  times_pc h (loaded k) = 0
  times_pc h (holding k n v) = 0
  times_pc h (moving k none) = 0
  times_pc h (moving k (some v)) = if k == h then 1 else 0

  unfoldable pub times_by : ℕ → Thief A → ℕ
  times_by h t = times_pc h t.pc + times_in h t.returned

  unfoldable pub times : ℕ → List (Thief A) → ℕ
  times h ts = total (times_by h) ts
