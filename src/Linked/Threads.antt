-- ===== src/Linked/Threads.antt =====
-- src/linked.rs: the owner and any number of thieves at work at once. A take or a steal is two steps, the
-- look at the head and the `fetch_max` that hands the task out; the owner's put is one.
use ws_deque.Base.{ℕ, ◌<◌, ◌≡◌, ◌⊎◌, Option, none, some, List, [], ◌∷◌, ◌++◌, get_elem?, set}
use ws_deque.Linked.{
  Inner, LinkedWorker, LinkedStealer, create, put, look, look_from, fetch_max, stealer,
}

-- The owner, which has no cached node, or a thief: what it saw at the head and has not handed out yet, and
-- the tasks that it handed out, with their indices, newest first.
pub record Consumer {ℓ} (A : Type ℓ) : Type ℓ where
  pub cursor : Option LinkedStealer
  pub looked : Option (ℕ × A)
  pub taken : List (ℕ × A)

pub record System {ℓ} (A : Type ℓ) : Type ℓ where
  pub worker : LinkedWorker A
  pub consumers : List (Consumer A)

module _ {ℓ} {A : Type ℓ} where
  abbrev pub fresh_consumer : Option LinkedStealer → Consumer A
  fresh_consumer cursor = record { cursor = cursor; looked = none; taken = [] }

  -- The first half of `take` or of `steal`.
  unfoldable pub look_by : Inner A → Consumer A → Consumer A
  look_by inner c = elim c.cursor [
    | none ↦ record c { looked = look inner }
    | some s ↦ let (found, s') = look_from inner s in record c { cursor = some s'; looked = found }
  ]

  -- The second half, for a consumer that saw the task `v` at `h`.
  unfoldable pub hand_out : System A → ℕ → Consumer A → ℕ → A → System A
  hand_out sys i c h v = record {
    worker = record sys.worker { inner = fetch_max sys.worker.inner h };
    consumers = set sys.consumers i (record c { looked = none; taken = (h, v) ∷ c.taken });
  }

  -- The states that the threads reach, with the tasks put so far.
  pub data Reach : System A → List A → Type ℓ where
    start : Reach (record { worker = create; consumers = fresh_consumer none ∷ [] }) []
    puts :
        {sys : System A} {ps : List A} (v : A) (w : LinkedWorker A)
        → Reach sys ps
        → put sys.worker v ≡ some w
        → Reach (record sys { worker = w }) (ps ++ v ∷ [])
    clones :
        {sys : System A} {ps : List A}
        → Reach sys ps
        → Reach (record sys { consumers = sys.consumers ++ fresh_consumer (some stealer) ∷ [] }) ps
    looks :
        {sys : System A} {ps : List A} (i : ℕ) (c : Consumer A)
        → Reach sys ps
        → get_elem? sys.consumers i ≡ some c
        → c.looked ≡ none
        → Reach (record sys { consumers = set sys.consumers i (look_by sys.worker.inner c) }) ps
    hands :
        {sys : System A} {ps : List A} (i : ℕ) (c : Consumer A) (h : ℕ) (v : A)
        → Reach sys ps
        → get_elem? sys.consumers i ≡ some c
        → c.looked ≡ some (h, v)
        → Reach (hand_out sys i c h v) ps

  -- Tasks of `ps` with their indices, which fall strictly from below `b`.
  unfoldable pub Falling : List A → ℕ → List (ℕ × A) → Type ℓ
  Falling ps b [] = Unit
  Falling ps b ((j, v) ∷ rest) = (j < b) × (get_elem? ps j ≡ some v) × Falling ps j rest

  -- Whether the task at index `j` is in a list of tasks handed out.
  unfoldable pub Handed : ℕ → List (ℕ × A) → Type 0
  Handed j [] = ⊥
  Handed j ((k, v) ∷ rest) = (k ≡ j) ⊎ Handed j rest

  -- Some consumer handed out the task at index `j`.
  pub record Delivered (consumers : List (Consumer A)) (j : ℕ) : Type ℓ where
    pub who : ℕ
    pub consumer : Consumer A
    pub there : get_elem? consumers who ≡ some consumer
    pub handed : Handed j consumer.taken
