-- ===== src/Idempotent/Takers.antt =====
-- src/idempotent.rs: the owner and any number of plain thieves at work at once, also while the array grows. A
-- take or a steal is three steps: the load of the head, the loads of the array and of the cell, and the
-- update of the head; the owner's put is one.
use ws_deque.Base.{
  ℕ, ◌+◌, ◌<◌, ◌≡◌, ◌⊎◌, Bool, true, false, ◌&&◌, none, some, List, [], ◌∷◌, ◌++◌, if◌then◌else◌,
  leb, get_or, get_elem?, set,
}
use ws_deque.Idempotent.{Inner, IdempotentWorker, create, create_bounded, put, fetch_max}

-- Where a consumer is: it loaded the head; it found the task there.
pub data At {ℓ} (A : Type ℓ) : Type ℓ where
  resting : At A
  aimed : ℕ → At A
  found : ℕ → A → At A

-- The owner or a thief, with the tasks that its calls returned and their indices, newest first.
pub record Taker {ℓ} (A : Type ℓ) : Type ℓ where
  pub is_owner : Bool
  pub place : At A
  pub past : List (ℕ × A)

pub record State {ℓ} (A : Type ℓ) : Type ℓ where
  pub worker : IdempotentWorker A
  pub takers : List (Taker A)

module _ {ℓ} {A : Type ℓ} where
  abbrev pub fresh_taker : Bool → Taker A
  fresh_taker is_owner = record { is_owner = is_owner; place = resting; past = [] }

  -- A step in `take` or in `steal`; the owner first compares the head that it loads with the tail.
  unfoldable pub plain_step : IdempotentWorker A → Taker A → Inner A × Taker A
  unfolding fetch_max
  plain_step w t = elim t.place [
    | resting ↦
        if t.is_owner && leb w.tail w.inner.head
        then (w.inner, t)
        else (w.inner, record t { place = aimed w.inner.head })
    | aimed h ↦ elim (get_or w.inner.tasks.cells h none) [
      | none ↦ (w.inner, record t { place = resting })
      | some v ↦ (w.inner, record t { place = found h v })
    ]
    | found h v ↦ (fetch_max w.inner (h + 1), record t { place = resting; past = (h, v) ∷ t.past })
  ]

  -- The states that they reach, with the tasks accepted so far; a refused put changes nothing.
  pub data Visits : State A → List A → Type ℓ where
    grows : Visits (record { worker = create; takers = fresh_taker true ∷ [] }) []
    is_bounded :
        (limit : ℕ)
        → Visits (record { worker = create_bounded limit; takers = fresh_taker true ∷ [] }) []
    accepts :
        {sys : State A} {ps : List A} (v : A)
        → Visits sys ps
        → (put sys.worker v).0 ≡ true
        → Visits (record sys { worker = (put sys.worker v).1 }) (ps ++ v ∷ [])
    joins :
        {sys : State A} {ps : List A}
        → Visits sys ps
        → Visits (record sys { takers = sys.takers ++ fresh_taker false ∷ [] }) ps
    takes :
        {sys : State A} {ps : List A} (i : ℕ) (t : Taker A)
        → Visits sys ps
        → get_elem? sys.takers i ≡ some t
        → Visits
            (record {
              worker = record sys.worker { inner = (plain_step sys.worker t).0 };
              takers = set sys.takers i (plain_step sys.worker t).1;
            })
            ps

  -- Tasks of `ps` with their indices, which fall strictly from below `b`.
  unfoldable pub Descends : List A → ℕ → List (ℕ × A) → Type ℓ
  Descends ps b [] = Unit
  Descends ps b ((j, v) ∷ rest) = (j < b) × (get_elem? ps j ≡ some v) × Descends ps j rest

  -- Whether the task at index `j` was returned.
  unfoldable pub Got : ℕ → List (ℕ × A) → Type 0
  Got j [] = ⊥
  Got j ((k, v) ∷ rest) = (k ≡ j) ⊎ Got j rest

  -- Some consumer returned the task at index `j`.
  pub record Given (takers : List (Taker A)) (j : ℕ) : Type ℓ where
    pub who : ℕ
    pub taker : Taker A
    pub there : get_elem? takers who ≡ some taker
    pub handed : Got j taker.past
